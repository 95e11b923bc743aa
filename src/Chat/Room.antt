-- ===== src/Chat/Room.antt =====
-- chat/domain/room.py: a broadcast room, its states, and how long it has been silent. Times and
-- durations are microseconds; the code's floating-point seconds are their quotient.
pub mod Service
pub mod Lookup
pub mod Changes
pub mod Forward
use project_aria.Common.{ℕ, Bool, true, false, ◌&&◌, Option, none, some, leb, length}
use project_aria.Common.Int.{ℤ, ◌-ℤ◌}
use project_aria.Common.Error.{
  Result, ok, err, value_error, invalid_room_transition, guard, ◌>>=◌, ◌>>◌,
}
use project_aria.Common.Text.{Text}

pub data RoomStatus : Type 0 where
  pending live finished : RoomStatus

-- `status in _ALLOWED_TRANSITIONS[self.status]`
abbrev pub is_allowed : RoomStatus → RoomStatus → Bool
is_allowed pending live = true
is_allowed pending finished = true
is_allowed live finished = true
is_allowed _ _ = false

abbrev pub is_live : RoomStatus → Bool
is_live live = true
is_live _ = false

pub record Room : Type 0 where
  pub id : ℕ
  pub persona_id : ℕ
  pub host_id : ℕ
  pub name : Text
  pub description : Option Text
  pub thumbnail_url : Option Text
  pub topic : Text
  pub status : RoomStatus
  pub created_at : ℤ
  pub closed_at : Option ℤ

abbrev pub fits : ℕ → Option Text → Bool
fits n none = true
fits n (some t) = leb (length t) n

-- The constructor with its validation
unfoldable pub validate_room : Room → Result Room
validate_room r = do
  guard (leb 1 (length r.name) && leb (length r.name) 255) value_error
  guard (fits 512 r.thumbnail_url) value_error
  guard (leb (length r.topic) 100) value_error
  ok r

-- When a room that moves to this status was closed
abbrev pub closing : RoomStatus → ℤ → Option ℤ → Option ℤ
closing finished now closed = some now
closing _ now closed = closed

-- `Room.transition_to`, at a time
unfoldable pub transition_to : RoomStatus → ℤ → Room → Result Room
transition_to status now r = do
  guard (is_allowed r.status status) invalid_room_transition
  ok (record r { status = status; closed_at = closing status now r.closed_at })

-- `Room.silent_for`
unfoldable pub silent_for : Option ℤ → ℤ → Room → ℤ
silent_for (some since) now r = since
silent_for none now r = now -ℤ r.created_at

-- `Room.is_open_for_chat`
unfoldable pub is_open_for_chat : Room → Bool
is_open_for_chat r = is_live r.status
