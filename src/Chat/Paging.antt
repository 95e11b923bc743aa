-- ===== src/Chat/Paging.antt =====
-- Reading a timeline page by page, from the newest on.
mod Tests
use mathlib.Core.List.{Perm}
use project_aria.Common.{
  ℕ, zero, suc, ◌+◌, ◌-◌, ◌≤◌, ◌<◌, ◌≡◌, ◌≢◌, refl, sym, ap, ◌∙◌, subst, Bool, true, false, ◌&&◌,
  Option, none, some, List, [], ◌∷◌, ◌++◌, ◌==◌, if◌then◌else◌, ltb, keep, length, take, drop,
  take-append-drop, length-append, min, max, All, All-map, arith, Bool-cases, inl, inr, if_true,
  if_false,
}
use project_aria.Common.Int.{ℤ, pos, eqb_ℤ}
use project_aria.Common.Error.{Result, ok, err, lookup_error, ◌>>=◌}
use project_aria.Chat.Message.{RoomMessage}
use project_aria.Chat.Transcript.{
  insert_latest, latest_first, is_before, max_page_size, capped, list_recent, MessagePage, last_id,
  with_cursor, page_of, room_messages,
}
use project_aria.Chat.Newest.{
  IsOlder, IsFalling, AreApart, All-keep_any, keep-IsFalling, latest_first-IsFalling,
  latest_first-keep, latest_first-Perm,
}
use project_aria.Chat.Cursor.{
  timeline, unread, list_recent-unread, timeline-IsFalling, unread-IsFalling, head_low, unread-drop,
  keep-keep, keep_none, ok_id, end_of_page, rest_of_page, last_id-some, take_short, keep-tighter,
  keep_before, keep_all, AreApart-keep,
}

abbrev joined_to : List RoomMessage → Result (List RoomMessage) → Result (List RoomMessage)
joined_to ms rest = do more ← rest; ok (ms ++ more)

abbrev followed :
    List RoomMessage → Option ℕ → (ℕ → Result (List RoomMessage)) → Result (List RoomMessage)
followed ms none next = ok ms
followed ms (some b) next = joined_to ms (next b)

abbrev turned : Result MessagePage → (ℕ → Result (List RoomMessage)) → Result (List RoomMessage)
turned (err x) next = err x
turned (ok page) next = followed page.messages page.next_before next

-- A reader who asks for a page, and for the next one as long as a page names it, at most so many
-- times
abbrev pub read_on : (fuel room : ℕ) → ℤ → Option ℕ → List RoomMessage → Result (List RoomMessage)
read_on zero room limit before rows = err lookup_error
read_on (suc fuel) room limit before rows =
    turned (room_messages room limit before rows) (λ b. read_on fuel room limit (some b) rows)

capped_same : (n : ℕ) → 1 ≤ n → n ≤ max_page_size → capped (pos n) ≡ n
capped_same n h k = ground arith

length-drop_lt :
    (n fuel : ℕ) (ms : List RoomMessage)
    → 1 ≤ n
    → length ms < suc fuel
    → length (take n ms) ≡ n
    → length (drop n ms) < fuel
length-drop_lt n fuel ms one short full =
    let whole = ap length (take-append-drop n ms) in
    let split = length-append (take n ms) (drop n ms) in
    omega (arith, whole, split, full, short, one)

room_messages-full :
    (room n b : ℕ) (before : Option ℕ) (rows : List RoomMessage)
    → 1 ≤ n
    → n ≤ max_page_size
    → AreApart rows
    → (length (take n (unread room before rows)) == n) ≡ true
    → last_id (take n (unread room before rows)) ≡ ok b
    → room_messages room (pos n) before rows
      ≡ ok (record { messages = take n (unread room before rows); next_before = some b })
unfolding room_messages
room_messages-full room n b before rows one most apart full last =
    let page =
      list_recent-unread room (pos n) before rows apart
      ∙ ap (λ k. take k (unread room before rows)) (capped_same n one most) in
    let eq : eqb_ℤ (pos (length (take n (unread room before rows)))) (pos n) ≡ true =
      ground arith in
    ap (page_of (pos n)) page
    ∙ if_true _ _ eq
    ∙ ap (with_cursor (take n (unread room before rows))) last

room_messages-rest :
    (room n : ℕ) (before : Option ℕ) (rows : List RoomMessage)
    → 1 ≤ n
    → n ≤ max_page_size
    → AreApart rows
    → (length (take n (unread room before rows)) == n) ≡ false
    → room_messages room (pos n) before rows
      ≡ ok (record { messages = take n (unread room before rows); next_before = none })
unfolding room_messages
room_messages-rest room n before rows one most apart part =
    let page =
      list_recent-unread room (pos n) before rows apart
      ∙ ap (λ k. take k (unread room before rows)) (capped_same n one most) in
    let eq : eqb_ℤ (pos (length (take n (unread room before rows)))) (pos n) ≡ false =
      ground arith in
    ap (page_of (pos n)) page ∙ if_false _ _ eq

read_on-unread :
    (fuel room n : ℕ) (before : Option ℕ) (rows : List RoomMessage)
    → 1 ≤ n
    → n ≤ max_page_size
    → AreApart rows
    → length (unread room before rows) < fuel
    → read_on fuel room (pos n) before rows ≡ ok (unread room before rows)
read_on-unread zero room n before rows one most apart h = absurd (omega arith)
read_on-unread (suc fuel) room n before rows one most apart h =
    let ms = unread room before rows in
    elim (Bool-cases (length (take n ms) == n)) [
      | inl full ↦
          let exact : length (take n ms) ≡ n = ground arith in
          let some_left : 0 < length (take n ms) = omega (arith, exact, one) in
          let (b, last) = last_id-some (take n ms) some_left in
          let rest = unread-drop room n b before rows apart some_left last in
          let ih =
            read_on-unread fuel room n (some b) rows one most apart
              (subst (λ ks. length ks < fuel) (sym rest) (length-drop_lt n fuel ms one h exact)) in
          ap (λ r. turned r (λ c. read_on fuel room (pos n) (some c) rows))
            (room_messages-full room n b before rows one most apart full last)
          ∙ ap (joined_to (take n ms)) (ih ∙ ap ok rest)
          ∙ ap ok (take-append-drop n ms)
      | inr part ↦
          ap (λ r. turned r (λ c. read_on fuel room (pos n) (some c) rows))
            (room_messages-rest room n before rows one most apart part)
          ∙ ap ok (take_short n ms part)
    ]

length-insert :
    (m : RoomMessage) (ms : List RoomMessage) → length (insert_latest m ms) ≡ suc (length ms)
length-insert m [] = refl
length-insert m (n ∷ ns) = ground (arith, length-insert m ns)

length-latest_first : (ms : List RoomMessage) → length (latest_first ms) ≡ length ms
length-latest_first [] = refl
length-latest_first (m ∷ ms) =
    omega (arith, length-latest_first ms, length-insert m (latest_first ms))

length-keep : (p : RoomMessage → Bool) (ms : List RoomMessage) → length (keep p ms) ≤ length ms
length-keep p [] = omega arith
length-keep p (m ∷ ms) = elim (Bool-cases (p m)) [
  | inl hit ↦ rw hit (omega (arith, length-keep p ms))
  | inr miss ↦ rw miss (omega (arith, length-keep p ms))
]

unread_short : (room : ℕ) (rows : List RoomMessage) → length (unread room none rows) ≤ length rows
unread_short room rows =
    let mine = keep (λ m. m.room_id == room) rows in
    let fewer = length-keep (λ m. m.room_id == room) rows in
    let same = length-latest_first mine in
    let all = ap length (keep_all (timeline room rows)) in omega (arith, fewer, same, all)

-- With identifiers that are each used once and a limit from one to a hundred, a reader who follows
-- the cursors of the pages gets the messages of the room, each once and from the newest on, with
-- one request more, at most, than the table has rows.
pub read_on-timeline :
    (room n : ℕ) (rows : List RoomMessage)
    → 1 ≤ n
    → n ≤ max_page_size
    → AreApart rows
    → (ms : List RoomMessage) × (read_on (suc (length rows)) room (pos n) none rows ≡ ok ms)
      × Perm ms (keep (λ m. m.room_id == room) rows)
      × IsFalling ms
read_on-timeline room n rows one most apart =
    let short = unread_short room rows in
    (
      timeline room rows,
      read_on-unread (suc (length rows)) room n none rows one most apart (omega (arith, short))
          ∙ ap ok (keep_all (timeline room rows)),
      latest_first-Perm (keep (λ m. m.room_id == room) rows),
      timeline-IsFalling room rows apart,
    )

capped_most : (n : ℕ) → max_page_size < n → capped (pos n) ≡ max_page_size
capped_most n h = ground arith

not_hundred : (n : ℕ) → max_page_size < n → eqb_ℤ (pos max_page_size) (pos n) ≡ false
not_hundred n h = ground arith

length-take_most : (k : ℕ) (ms : List RoomMessage) → k ≤ length ms → length (take k ms) ≡ k
length-take_most zero ms h = refl
length-take_most (suc k) [] h = absurd (omega arith)
length-take_most (suc k) (m ∷ ms) h = ap suc (length-take_most k ms (omega (arith, h)))

-- A limit above a hundred, and a room with more than a hundred messages: the page holds a hundred
-- of them and says that nothing follows.
pub room_messages_cut :
    (room n : ℕ) (rows : List RoomMessage)
    → max_page_size < n
    → AreApart rows
    → max_page_size < length (timeline room rows)
    → (page : MessagePage) × (room_messages room (pos n) none rows ≡ ok page)
      × (length page.messages ≡ max_page_size)
      × (page.next_before ≡ none)
unfolding room_messages
room_messages_cut room n rows more apart longer =
    let ms = take max_page_size (timeline room rows) in
    let page =
      list_recent-unread room (pos n) none rows apart
      ∙ ap (λ k. take k (unread room none rows)) (capped_most n more)
      ∙ ap (take max_page_size) (keep_all (timeline room rows)) in
    let hundred : length ms ≡ max_page_size =
      length-take_most max_page_size (timeline room rows) (omega (arith, longer)) in
    let eq : eqb_ℤ (pos (length ms)) (pos n) ≡ false =
      ap (λ k. eqb_ℤ (pos k) (pos n)) hundred ∙ not_hundred n more in
    (
      record { messages = ms; next_before = none },
      ap (page_of (pos n)) page ∙ if_false _ _ eq,
      hundred,
      refl,
    )
