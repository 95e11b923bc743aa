-- ===== src/Chat/Transcript.antt =====
-- The timeline of a room: chat/adapter/outbound/persistence/transcript.py, and the page that
-- adapter/inbound/http/router.py makes of it. Identifiers are UUIDv7, in the order of time.
use project_aria.Common.{
  ℕ, Bool, true, false, ◌&&◌, Option, none, some, List, [], ◌∷◌, ◌++◌, ◌==◌, if◌then◌else◌, ltb,
  keep, length, take, min, max,
}
use project_aria.Common.Int.{ℤ, pos, negsuc, eqb_ℤ}
use project_aria.Common.Error.{Result, ok, err, integrity_error, lookup_error, ◌>>=◌}
use project_aria.Chat.Message.{RoomMessage}

abbrev pub has_id : ℕ → List RoomMessage → Bool
has_id i [] = false
has_id i (m ∷ ms) = if m.id == i then true else has_id i ms

-- `_append`
unfoldable pub append_message : RoomMessage → List RoomMessage → Result (List RoomMessage)
append_message m rows = if has_id m.id rows then err integrity_error else ok (rows ++ m ∷ [])

abbrev pub insert_latest : RoomMessage → List RoomMessage → List RoomMessage
insert_latest m [] = m ∷ []
insert_latest m (n ∷ ns) = if ltb n.id m.id then m ∷ n ∷ ns else n ∷ insert_latest m ns

-- `ORDER BY id DESC`
abbrev pub latest_first : List RoomMessage → List RoomMessage
latest_first [] = []
latest_first (m ∷ ms) = insert_latest m (latest_first ms)

-- `id < before`
abbrev pub is_before : Option ℕ → RoomMessage → Bool
is_before none m = true
is_before (some b) m = ltb m.id b

abbrev pub max_page_size : ℕ
max_page_size = 100

-- `min(max(limit, 1), MAX_PAGE_SIZE)`
abbrev pub capped : ℤ → ℕ
capped (pos n) = min (max n 1) max_page_size
capped (negsuc n) = 1

-- `list_recent`
unfoldable pub list_recent : ℕ → ℤ → Option ℕ → List RoomMessage → List RoomMessage
list_recent room limit before rows =
    take (capped limit) (latest_first (keep (λ m. m.room_id == room && is_before before m) rows))

-- `MessagePage`, with the messages of the timeline in place of their responses
pub record MessagePage : Type 0 where
  pub messages : List RoomMessage
  pub next_before : Option ℕ

-- `messages[-1].id`: IndexError is a LookupError
abbrev pub last_id : List RoomMessage → Result ℕ
last_id [] = err lookup_error
last_id (m ∷ []) = ok m.id
last_id (m ∷ n ∷ ms) = last_id (n ∷ ms)

abbrev pub with_cursor : List RoomMessage → Result ℕ → Result MessagePage
with_cursor ms last = do b ← last; ok (record { messages = ms; next_before = some b })

-- The response of `room_messages` to the messages of one page
abbrev pub page_of : ℤ → List RoomMessage → Result MessagePage
page_of limit ms =
    if eqb_ℤ (pos (length ms)) limit
    then with_cursor ms (last_id ms)
    else ok (record { messages = ms; next_before = none })

-- `room_messages`
unfoldable pub room_messages : ℕ → ℤ → Option ℕ → List RoomMessage → Result MessagePage
unfolding list_recent
room_messages room limit before rows = page_of limit (list_recent room limit before rows)
