-- ===== src/Chat/Cursor.antt =====
-- What stands before a cursor in a timeline.
use project_aria.Common.{
  ℕ, zero, suc, ◌≤◌, ◌<◌, ◌≡◌, ◌≢◌, refl, sym, ap, ◌∙◌, Bool, false, ◌&&◌, Option, none, some, List,
  [], ◌∷◌, ◌==◌, ltb, keep, length, take, drop, All, All-map, arith, Bool-cases, inl, inr, if_false,
}
use project_aria.Common.Int.{ℤ}
use project_aria.Common.Error.{Result, ok}
use project_aria.Chat.Message.{RoomMessage}
use project_aria.Chat.Transcript.{latest_first, is_before, capped, list_recent, last_id}
use project_aria.Chat.Newest.{
  IsOlder, IsFalling, AreApart, All-keep_any, keep-IsFalling, latest_first-IsFalling,
  latest_first-keep,
}

pub keep-keep :
    (p q : RoomMessage → Bool) (ms : List RoomMessage)
    → keep (λ m. p m && q m) ms ≡ keep q (keep p ms)
keep-keep p q [] = refl
keep-keep p q (m ∷ ms) = elim (Bool-cases (p m)) [
  | inl hit ↦ rw (hit, keep-keep p q ms) refl
  | inr miss ↦ rw (miss, keep-keep p q ms) refl
]

pub keep_none :
    (b : ℕ) (ms : List RoomMessage) → All (λ m. m.id < b) ms → keep (is_before (some b)) ms ≡ ms
keep_none b [] all = refl
keep_none b (m ∷ ms) (h, all) = ground (arith, keep_none b ms all)

pub ok_id : (i b : ℕ) → ◌≡◌ {A = Result ℕ} (ok i) (ok b) → i ≡ b
ok_id i b h = cc

pub end_of_page :
    (b : ℕ) (m : RoomMessage) (ms : List RoomMessage)
    → All (IsOlder m) ms
    → m.id ≡ b
    → (keep (is_before (some b)) (m ∷ ms) ≡ ms) × (b ≤ m.id)
end_of_page b m ms below e =
    let out : ltb m.id b ≡ false = ground arith in
    (
      if_false _ _ out
          ∙ keep_none b ms
              (All-map (IsOlder m) (λ k. k.id < b) (λ k h. omega (arith, e, h)) ms below),
      omega (arith, e),
    )

-- Of a timeline what is older than the last message of its first page is the rest of it.
pub rest_of_page :
    (n b : ℕ) (ms : List RoomMessage)
    → IsFalling ms
    → last_id (take n ms) ≡ ok b
    → (keep (is_before (some b)) ms ≡ drop n ms) × All (λ m. b ≤ m.id) (take n ms)
rest_of_page zero b ms falling h = cc
rest_of_page (suc n) b [] falling h = cc
rest_of_page (suc zero) b (m ∷ ms) (below, falling) h =
    let (rest, high) = end_of_page b m ms below (ok_id m.id b h) in (rest, (high, tt))
rest_of_page (suc (suc n)) b (m ∷ []) (below, falling) h =
    let (rest, high) = end_of_page b m [] below (ok_id m.id b h) in (rest, (high, tt))
rest_of_page (suc (suc n)) b (m ∷ k ∷ ms) ((older, below), falling) h =
    let (rest, high) = rest_of_page (suc n) b (k ∷ ms) falling h in
    let first = high.0 in
    let out : ltb m.id b ≡ false = ground (arith, first, older) in
    (if_false _ _ out ∙ rest, (omega (arith, first, older), high))

pub last_id-some : (ms : List RoomMessage) → 0 < length ms → (b : ℕ) × (last_id ms ≡ ok b)
last_id-some [] h = absurd (omega arith)
last_id-some (m ∷ []) h = (m.id, refl)
last_id-some (m ∷ k ∷ ms) h = last_id-some (k ∷ ms) (omega arith)

pub take_short :
    (n : ℕ) (ms : List RoomMessage) → (length (take n ms) == n) ≡ false → take n ms ≡ ms
take_short zero ms h = absurd (ground arith)
take_short (suc n) [] h = refl
take_short (suc n) (m ∷ ms) h = ap (λ ks. m ∷ ks) (take_short n ms (ground arith))

pub keep-tighter :
    (b c : ℕ) (ms : List RoomMessage)
    → b ≤ c
    → keep (is_before (some b)) (keep (is_before (some c)) ms) ≡ keep (is_before (some b)) ms
keep-tighter b c [] h = refl
keep-tighter b c (m ∷ ms) h = ground (arith, keep-tighter b c ms h)

pub keep_before :
    (c : ℕ) (ms : List RoomMessage) → All (λ m. m.id < c) (keep (is_before (some c)) ms)
keep_before c [] = tt
keep_before c (m ∷ ms) = elim (Bool-cases (ltb m.id c)) [
  | inl hit ↦ rw hit (ground arith, keep_before c ms)
  | inr miss ↦ rw miss (keep_before c ms)
]

pub keep_all : (ms : List RoomMessage) → keep (is_before none) ms ≡ ms
keep_all [] = refl
keep_all (m ∷ ms) = ap (λ ks. m ∷ ks) (keep_all ms)

pub AreApart-keep :
    (p : RoomMessage → Bool) (ms : List RoomMessage) → AreApart ms → AreApart (keep p ms)
AreApart-keep p [] apart = tt
AreApart-keep p (m ∷ ms) (other, apart) = elim (Bool-cases (p m)) [
  | inl hit ↦ rw hit (All-keep_any p (λ k. k.id ≢ m.id) ms other, AreApart-keep p ms apart)
  | inr miss ↦ rw miss (AreApart-keep p ms apart)
]

-- The messages of a room, from the newest on
abbrev pub timeline : ℕ → List RoomMessage → List RoomMessage
timeline room rows = latest_first (keep (λ m. m.room_id == room) rows)

-- What of a timeline stands before a cursor
abbrev pub unread : ℕ → Option ℕ → List RoomMessage → List RoomMessage
unread room before rows = keep (is_before before) (timeline room rows)

pub list_recent-unread :
    (room : ℕ) (limit : ℤ) (before : Option ℕ) (rows : List RoomMessage)
    → AreApart rows
    → list_recent room limit before rows ≡ take (capped limit) (unread room before rows)
unfolding list_recent
list_recent-unread room limit before rows apart =
    ap (λ ms. take (capped limit) (latest_first ms))
      (keep-keep (λ m. m.room_id == room) (is_before before) rows)
    ∙ ap (take (capped limit)) (
        latest_first-keep (is_before before) (keep (λ m. m.room_id == room) rows)
          (AreApart-keep (λ m. m.room_id == room) rows apart))

pub timeline-IsFalling :
    (room : ℕ) (rows : List RoomMessage) → AreApart rows → IsFalling (timeline room rows)
timeline-IsFalling room rows apart =
    latest_first-IsFalling (keep (λ m. m.room_id == room) rows)
      (AreApart-keep (λ m. m.room_id == room) rows apart)

pub unread-IsFalling :
    (room : ℕ) (before : Option ℕ) (rows : List RoomMessage)
    → AreApart rows
    → IsFalling (unread room before rows)
unread-IsFalling room before rows apart =
    keep-IsFalling (is_before before) (timeline room rows) (timeline-IsFalling room rows apart)

pub head_low :
    (b c : ℕ) (n : ℕ) (ms : List RoomMessage)
    → 0 < length (take n ms)
    → All (λ m. b ≤ m.id) (take n ms)
    → All (λ m. m.id < c) ms
    → b ≤ c
head_low b c zero ms some_left high low = absurd (omega arith)
head_low b c (suc n) [] some_left high low = absurd (omega arith)
head_low b c (suc n) (m ∷ ms) some_left (h, high) (l, low) = omega (arith, h, l)

pub unread-drop :
    (room n b : ℕ) (before : Option ℕ) (rows : List RoomMessage)
    → AreApart rows
    → 0 < length (take n (unread room before rows))
    → last_id (take n (unread room before rows)) ≡ ok b
    → unread room (some b) rows ≡ drop n (unread room before rows)
unread-drop room n b none rows apart some_left last =
    ap (keep (is_before (some b))) (sym (keep_all (timeline room rows)))
    ∙ (rest_of_page n b (unread room none rows) (unread-IsFalling room none rows apart) last).0
unread-drop room n b (some c) rows apart some_left last =
    let (rest, high) =
      rest_of_page n b (unread room (some c) rows) (unread-IsFalling room (some c) rows apart)
        last in
    sym (
      keep-tighter b c (timeline room rows) (
        head_low b c n (unread room (some c) rows) some_left high
          (keep_before c (timeline room rows))))
    ∙ rest
