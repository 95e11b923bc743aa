-- ===== src/Chat/Generation.antt =====
-- chat/application/generation.py: the request for a response, and the worker's use case.
pub mod Answering
use project_aria.Common.{
  ℕ, Bool, true, false, not, Option, none, some, List, [], ◌∷◌, if◌then◌else◌,
}
use project_aria.Common.Int.{ℤ, pos, eqb_ℤ}
use project_aria.Common.Error.{
  Result, ok, err, value_error, type_error, guard, ◌>>=◌, ◌>>◌, Call, returns, fails, loses,
  result_of, is_done,
}
use project_aria.Common.Json.{
  Json, null, flag, num, text, other, Payload, get, item, or_default, equals_int, to_uuid,
}
use project_aria.Common.Text.{Text, codes, text_eq}
use project_aria.Common.Uuid
use project_aria.Chat.Coordinator.{
  ChatSource, superchat, chat, story, idle, system, source_value, ResponseSlot, Lock, try_acquire,
  still_holds, release,
}
use project_aria.Chat.Message.{RoomMessage, from_persona}

abbrev pub response_requested : Text
response_requested = codes "aria.chat.response-requested"

abbrev pub superchat_requested : Text
superchat_requested = codes "aria.chat.superchat-requested"

abbrev pub schema_version : ℤ
schema_version = pos 1

-- A time is the text that `isoformat` makes of it; the prompt and the selection are carried as the
-- values that the payload holds.
pub record GenerationRequest : Type 0 where
  pub msg_id : ℕ
  pub room_id : ℕ
  pub persona_id : ℕ
  pub source : ChatSource
  pub prompt : Json
  pub requested_at : Text
  pub selection : Json

-- `to_payload`
unfoldable pub to_payload : GenerationRequest → Payload
to_payload r =
    (codes "v", num schema_version)
    ∷ (codes "msg_id", text (Uuid.to_text r.msg_id))
    ∷ (codes "room_id", text (Uuid.to_text r.room_id))
    ∷ (codes "persona_id", text (Uuid.to_text r.persona_id))
    ∷ (codes "source", text (source_value r.source))
    ∷ (codes "prompt", r.prompt)
    ∷ (codes "requested_at", text r.requested_at)
    ∷ (codes "selection", r.selection)
    ∷ []

abbrev source_of_text : Text → Result ChatSource
source_of_text t =
    if text_eq t (codes "superchat")
    then ok superchat
    else if text_eq t (codes "chat")
    then ok chat
    else if text_eq t (codes "story")
    then ok story
    else if text_eq t (codes "idle")
    then ok idle
    else if text_eq t (codes "system")
    then ok system
    else err value_error

-- `ChatSource(value)`
abbrev pub to_source : Json → Result ChatSource
to_source (text t) = source_of_text t
to_source _ = err value_error

-- `datetime.fromisoformat(value)`, which tells whether it reads a text
abbrev pub to_time : (Text → Bool) → Json → Result Text
to_time is_time (text t) = if is_time t then ok t else err value_error
to_time is_time _ = err type_error

-- `from_payload`
unfoldable pub from_payload : (is_time : Text → Bool) → Payload → Result GenerationRequest
unfolding text_eq
from_payload is_time p = do
  guard (equals_int (or_default (num (pos 1)) (get p (codes "v"))) schema_version) value_error
  msg_id ← item p (codes "msg_id") >>= to_uuid
  room_id ← item p (codes "room_id") >>= to_uuid
  persona_id ← item p (codes "persona_id") >>= to_uuid
  source ← item p (codes "source") >>= to_source
  prompt ← item p (codes "prompt")
  requested_at ← item p (codes "requested_at") >>= to_time is_time
  ok (record {
    msg_id = msg_id;
    room_id = room_id;
    persona_id = persona_id;
    source = source;
    prompt = prompt;
    requested_at = requested_at;
    selection = or_default null (get p (codes "selection"));
  })

-- `to_event`: the topic
unfoldable pub stream_of : GenerationRequest → Text
stream_of r = elim r.source [ superchat ↦ superchat_requested | _ ↦ response_requested ]

pub record Reply : Type 0 where
  pub room_id : ℕ
  pub persona_id : ℕ
  pub source : ChatSource
  pub text : Text
  pub model_version : Option Text

-- One room as the worker sees it: the key of its slot, its timeline and what went out, the newest
-- first.
pub record Studio : Type 0 where
  pub lock : Lock
  pub transcript : List RoomMessage
  pub broadcasts : List Reply

-- What the outside does in one turn: how its calls for the slot, for the check of the slot, for the
-- broadcast and for the release of the slot end; the identifiers drawn; the answers of the profile
-- and of the model; the other clients' writes to the key before the check and before the release;
-- whether a selection that is a list or an object is an object or empty; the message that it names;
-- and whether the database takes the line.
pub record Turn : Type 0 where
  pub acquiring : Call
  pub checking : Result (Unit {0})
  pub sending : Call
  pub releasing : Call
  pub token : Text
  pub message_id : ℕ
  pub profile : Result (Unit {0})
  pub generated : Result (Text × Option Text)
  pub meanwhile : Lock → Lock
  pub later : Lock → Lock
  pub is_object : Bool
  pub replied_to : Option ℕ
  pub is_stored : Bool

abbrev pub appended : Result RoomMessage → Studio → Studio
appended (ok m) w = record w { transcript = m ∷ w.transcript }
appended (err x) w = w

-- `_record`, which swallows every exception
unfoldable pub record_reply : Turn → GenerationRequest → Text → Option Text → Studio → Studio
record_reply turn r t version w =
    if turn.is_stored
    then appended
        (from_persona turn.message_id r.room_id r.persona_id r.source t version turn.replied_to) w
    else w

abbrev pub reply_of : GenerationRequest → Text → Option Text → Reply
reply_of r t version = record {
  room_id = r.room_id;
  persona_id = r.persona_id;
  source = r.source;
  text = t;
  model_version = version;
}

-- `broadcaster.publish`
abbrev pub broadcast : Call → Reply → Studio → Result (Unit {0}) × Studio
broadcast call reply w = (
  result_of call,
  record w { broadcasts = if is_done call then reply ∷ w.broadcasts else w.broadcasts },
)

-- From the answer of `still_holds` on
abbrev pub after_check :
    Turn
    → GenerationRequest
    → ResponseSlot
    → Studio
    → Text
    → Option Text
    → Result (Unit {0})
    → Result (Unit {0}) × Studio
after_check turn r s w t version (err x) = (err x, w)
after_check turn r s w t version (ok _) =
    if still_holds s w.lock
    then broadcast turn.sending (reply_of r t version) (record_reply turn r t version w)
    else (ok tt, w)

abbrev pub after_generation :
    Turn
    → GenerationRequest
    → ResponseSlot
    → Studio
    → Result (Text × Option Text)
    → Result (Unit {0}) × Studio
after_generation turn r s w (err x) = (err x, w)
after_generation turn r s w (ok (t, version)) = after_check turn r s w t version turn.checking

abbrev pub after_profile :
    Turn
    → GenerationRequest
    → ResponseSlot
    → Studio
    → Result (Unit {0})
    → Result (Unit {0}) × Studio
after_profile turn r s w (err x) = (err x, w)
after_profile turn r s w (ok _) =
    after_generation turn r s (record w { lock = turn.meanwhile w.lock }) turn.generated

-- The body of the `try`, from the profile to the broadcast
unfoldable pub answer :
    Turn → GenerationRequest → ResponseSlot → Studio → Result (Unit {0}) × Studio
answer turn r s w = after_profile turn r s w turn.profile

-- What the `finally` clause makes of an end: what the release raises takes its place.
abbrev pub ended : Result (Unit {0}) → Call → Result (Unit {0})
ended end returns = end
ended end (fails x) = err x
ended end (loses x) = err x

-- The `finally` clause
abbrev pub finally_release :
    Turn → ResponseSlot → Result (Unit {0}) × Studio → Result (Unit {0}) × Studio
finally_release turn s (end, w) =
    let lock = turn.later w.lock in
    (
      ended end turn.releasing,
      record w { lock = if is_done turn.releasing then release s [] lock else lock },
    )

abbrev pub with_slot :
    Turn → GenerationRequest → Option ResponseSlot → Studio → Result (Unit {0}) × Studio
with_slot turn r none w = (ok tt, w)
with_slot turn r (some s) w = finally_release turn s (answer turn r s w)

abbrev pub after_acquire :
    Turn
    → GenerationRequest
    → Studio
    → Call
    → Option ResponseSlot × Lock
    → Result (Unit {0}) × Studio
after_acquire turn r w returns (slot, lock) = with_slot turn r slot (record w { lock = lock })
after_acquire turn r w (fails x) (slot, lock) = (err x, w)
after_acquire turn r w (loses x) (slot, lock) = (err x, record w { lock = lock })

-- `_handle`
unfoldable pub handle_in_trace : Turn → GenerationRequest → Studio → Result (Unit {0}) × Studio
handle_in_trace turn r w =
    after_acquire turn r w turn.acquiring (try_acquire r.source turn.token [] w.lock)

-- Whether `**(selection or {})` takes the selection
abbrev pub is_spread : Bool → Json → Bool
is_spread is_object null = true
is_spread is_object (flag b) = not b
is_spread is_object (num n) = eqb_ℤ n (pos 0)
is_spread is_object (text []) = true
is_spread is_object (text (c ∷ t)) = false
is_spread is_object (other t) = is_object

-- `handle`. The adapters of the tracing port raise nothing.
unfoldable pub handle : Turn → GenerationRequest → Studio → Result (Unit {0}) × Studio
unfolding handle_in_trace
handle turn r w =
    if is_spread turn.is_object r.selection then handle_in_trace turn r w else (err type_error, w)
