-- ===== src/Chat/Paging/Tests.antt =====
-- Pages of a timeline at concrete inputs.
use mathlib.Core.List.{Perm}
use project_aria.Common.{
  ℕ, zero, suc, ◌<◌, ◌≡◌, ◌≢◌, refl, none, some, List, [], ◌∷◌, ◌==◌, All, All-map, arith, length,
  keep,
}
use project_aria.Common.Int.{pos}
use project_aria.Common.Error.{ok}
use project_aria.Common.Text.{codes}
use project_aria.Chat.Message.{RoomMessage, chat}
use project_aria.Chat.Transcript.{MessagePage, list_recent, room_messages}
use project_aria.Chat.Newest.{IsFalling, AreApart}
use project_aria.Chat.Paging.{timeline, read_on, read_on-timeline, room_messages_cut}

abbrev said : (i room : ℕ) → RoomMessage
said i room = record {
  id = i;
  room_id = room;
  kind = chat;
  text = codes "hi";
  author_id = some 2;
  persona_id = none;
  source = none;
  model_version = none;
  amount = none;
  replied_to = none;
}

-- Rows that two processes wrote, the third before the second
abbrev rows : List RoomMessage
rows = said 10 5 ∷ said 30 5 ∷ said 20 5 ∷ said 25 6 ∷ []

rows-AreApart : AreApart rows
rows-AreApart = (
  ((λ e. omega arith), ((λ e. omega arith), ((λ e. omega arith), tt))),
  (((λ e. omega arith), ((λ e. omega arith), tt)), (((λ e. omega arith), tt), (tt, tt))),
)

read_on-timeline_example :
    (ms : List RoomMessage) × (read_on 5 5 (pos 2) none rows ≡ ok ms)
    × Perm ms (keep (λ m. m.room_id == 5) rows)
    × IsFalling ms
read_on-timeline_example = read_on-timeline 5 2 rows (omega arith) (omega arith) rows-AreApart

two_pages : read_on 5 5 (pos 2) none rows ≡ ok (said 30 5 ∷ said 20 5 ∷ said 10 5 ∷ [])
unfolding room_messages list_recent
two_pages = refl

abbrev many : ℕ → List RoomMessage
many zero = []
many (suc n) = said n 5 ∷ many n

many_below : (n : ℕ) → All (λ m. m.id < n) (many n)
many_below zero = tt
many_below (suc n) = (
  omega arith,
  All-map (λ m. m.id < n) (λ m. m.id < suc n) (λ m h. omega (arith, h)) (many n) (many_below n),
)

many-AreApart : (n : ℕ) → AreApart (many n)
many-AreApart zero = tt
many-AreApart (suc n) = (
  All-map (λ m. m.id < n) (λ m. m.id ≢ n) (λ m h e. omega (arith, h, e)) (many n) (many_below n),
  many-AreApart n,
)

many_shown : length (timeline 5 (many 101)) ≡ 101
many_shown = refl

room_messages_cut_example :
    (page : MessagePage) × (room_messages 5 (pos 150) none (many 101) ≡ ok page)
    × (length page.messages ≡ 100)
    × (page.next_before ≡ none)
room_messages_cut_example =
    room_messages_cut 5 150 (many 101) (omega arith) (many-AreApart 101) (omega (arith, many_shown))
