-- ===== src/Chat/Message.antt =====
-- chat/domain/message.py: one line of a room's timeline. Times of creation are left to the order.
use project_aria.Common.{
  ℕ, Bool, true, false, ◌&&◌, not, Option, none, some, is_some, leb, length, [], ◌==◌,
}
use project_aria.Common.Int.{ℤ, pos, ltb_ℤ}
use project_aria.Common.Error.{Result, ok, value_error, guard, ◌>>◌}
use project_aria.Common.Text.{Text, strip}
use project_aria.Chat.Coordinator.{ChatSource}

pub data MessageKind : Type 0 where
  chat superchat reply : MessageKind

pub record RoomMessage : Type 0 where
  pub id : ℕ
  pub room_id : ℕ
  pub kind : MessageKind
  pub text : Text
  pub author_id : Option ℕ
  pub persona_id : Option ℕ
  pub source : Option ChatSource
  pub model_version : Option Text
  pub amount : Option ℤ
  pub replied_to : Option ℕ

abbrev is_superchat : MessageKind → Bool
is_superchat superchat = true
is_superchat _ = false

abbrev is_chat : MessageKind → Bool
is_chat chat = true
is_chat _ = false

abbrev is_reply : MessageKind → Bool
is_reply reply = true
is_reply _ = false

abbrev is_positive : Option ℤ → Bool
is_positive none = true
is_positive (some n) = ltb_ℤ (pos 0) n

abbrev fits_version : Option Text → Bool
fits_version none = true
fits_version (some v) = leb (length v) 100

-- `_fields_match_kind`
unfoldable pub fields_match_kind : RoomMessage → Bool
unfolding strip
fields_match_kind m =
    not (not (is_superchat m.kind) && length (strip m.text) == 0)
    && not (is_chat m.kind && not (leb (length m.text) 500))
    && not (is_reply m.kind && is_some m.author_id)
    && not (not (is_reply m.kind) && is_some m.replied_to)
    && not (not (is_superchat m.kind) && is_some m.amount)

-- The constructor with its validation
unfoldable pub validate_room_message : RoomMessage → Result RoomMessage
unfolding fields_match_kind
validate_room_message m = do
  guard (leb (length m.text) 2000) value_error
  guard (fits_version m.model_version) value_error
  guard (is_positive m.amount) value_error
  guard (fields_match_kind m) value_error
  ok m

-- `RoomMessage.from_viewer`
unfoldable pub from_viewer : (id room_id author_id : ℕ) → Text → Result RoomMessage
from_viewer id room_id author_id t = validate_room_message (record {
  id = id;
  room_id = room_id;
  kind = chat;
  text = t;
  author_id = some author_id;
  persona_id = none;
  source = none;
  model_version = none;
  amount = none;
  replied_to = none;
})

abbrev or_empty : Option Text → Text
or_empty none = []
or_empty (some t) = t

-- `RoomMessage.from_superchat`
unfoldable pub from_superchat :
    (id room_id persona_id donor_id : ℕ) → ℤ → Option Text → Result RoomMessage
from_superchat id room_id persona_id donor_id amount message = validate_room_message (record {
  id = id;
  room_id = room_id;
  kind = superchat;
  text = or_empty message;
  author_id = some donor_id;
  persona_id = some persona_id;
  source = none;
  model_version = none;
  amount = some amount;
  replied_to = none;
})

-- `RoomMessage.from_persona`
unfoldable pub from_persona :
    (id room_id persona_id : ℕ) → ChatSource → Text → Option Text → Option ℕ → Result RoomMessage
from_persona id room_id persona_id source t model_version replied_to =
    validate_room_message (record {
      id = id;
      room_id = room_id;
      kind = reply;
      text = t;
      author_id = none;
      persona_id = some persona_id;
      source = some source;
      model_version = model_version;
      amount = none;
      replied_to = replied_to;
    })
