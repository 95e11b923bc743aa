-- ===== src/Chat/Worker/Tests.antt =====
-- The generation worker's theorems at concrete inputs.
use project_aria.Common.{◌≤◌, ◌≡◌, refl, Bool, true, false, none, some, [], ◌∷◌, arith, length}
use project_aria.Common.Error.{ok, err, external, returns, fails, is_done}
use project_aria.Common.Json.{null, text, get, item, to_uuid}
use project_aria.Common.Uuid
use project_aria.Common.Text.{Text, codes, text_eq, decimal}
use project_aria.Chat.Coordinator.{
  chat, ResponseSlot, lock_value, try_acquire, still_holds, release,
}
use project_aria.Chat.Generation.{
  GenerationRequest, to_payload, from_payload, Studio, Turn, handle, handle_in_trace, answer,
  record_reply,
}
use project_aria.Chat.Generation.Answering.{IsTurn, from_payload-to_payload, handle_acquired}
use project_aria.Chat.Worker.{Site, Delivery, consume, claim, release_claim}
use project_aria.Chat.Worker.Delivering.{redeliver, redeliver_once}

abbrev asked : GenerationRequest
asked = record {
  msg_id = 11;
  room_id = 1;
  persona_id = 5;
  source = chat;
  prompt = text (codes "hello");
  requested_at = codes "2026-01-01T00:00:00+00:00";
  selection = null;
}

abbrev any_time : Text → Bool
any_time t = true

read : from_payload any_time (to_payload asked) ≡ ok asked
read = from_payload-to_payload any_time asked (omega arith) (omega arith) (omega arith) refl

abbrev quiet : Studio
quiet = record { lock = none; transcript = []; broadcasts = [] }

abbrev good : Turn
good = record {
  acquiring = returns;
  checking = ok tt;
  sending = returns;
  releasing = returns;
  token = codes "aa";
  message_id = 90;
  profile = ok tt;
  generated = ok (codes "hi", none);
  meanwhile = λ lock. lock;
  later = λ lock. lock;
  is_object = true;
  replied_to = none;
  is_stored = true;
}

-- The model fails.
abbrev failing : Turn
failing = record good { generated = err external }

abbrev slot : ResponseSlot
slot = record { source = chat; token = codes "aa" }

-- The reply goes out, and Redis does not take the release of the slot.
abbrev stuck : Turn
stuck = record good { releasing = fails external }

handle_acquired_example :
    IsTurn stuck asked slot
      (record quiet { lock = some (lock_value slot) })
      (fails external)
      (handle stuck asked quiet)
    × (is_done stuck.releasing ≡ true → still_holds slot (handle stuck asked quiet).1.lock ≡ false)
unfolding try_acquire
handle_acquired_example =
    handle_acquired stuck asked quiet slot (some (lock_value slot)) refl refl refl

abbrev site : Site
site = record { rooms = λ i. quiet; claimed = []; dead_letters = [] }

abbrev topic : Text
topic = codes "aria.chat.response-requested"

abbrev delivered : Turn → Delivery
delivered turn = record { turn = turn; claiming = returns; freeing = returns; up = true }

redeliver_once_example :
    length
      ((redeliver any_time topic
          (to_payload asked)
          asked
          read
          (delivered failing ∷ delivered good ∷ delivered good ∷ [])
          site).rooms
        1).broadcasts
    ≤ 1
redeliver_once_example =
    redeliver_once any_time topic (to_payload asked) asked read
      (delivered failing ∷ delivered good ∷ delivered good ∷ []) site

-- Replies that the database does not take. A release that Redis does not take, with the key of the slot gone by the time that the request is
-- delivered again: its reply goes out twice.
abbrev expired : Turn
expired = record stuck { later = λ lock. none; is_stored = false }

abbrev unwritten : Turn
unwritten = record good { is_stored = false }

second_reply :
    length
      ((redeliver any_time topic
          (to_payload asked)
          asked
          read
          (delivered expired ∷ delivered unwritten ∷ [])
          site).rooms
        1).broadcasts
    ≡ 2
unfolding redeliver consume from_payload handle handle_in_trace answer record_reply try_acquire
    still_holds release claim release_claim to_payload text_eq get item to_uuid Uuid.to_text decimal
    read
second_reply = refl
