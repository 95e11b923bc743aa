-- ===== src/Chat/Worker.antt =====
-- chat/adapter/inbound/worker/router.py over chat/adapter/outbound/redis/dedup.py: the consumer of
-- generation requests. The expiry of a claim is left out.
pub mod Delivering
mod Tests
use project_aria.Common.{
  ℕ, Bool, true, false, ◌||◌, not, Option, none, some, List, [], ◌∷◌, ◌++◌, ◌==◌, if◌then◌else◌,
  keep,
}
use project_aria.Common.Error.{Error, Result, ok, err, is_unreadable, Call, returns, fails, loses}
use project_aria.Common.Json.{Payload, text, get, or_default, to_str}
use project_aria.Common.Text.{Text, codes}
use project_aria.Chat.Generation.{GenerationRequest, from_payload, Studio, Turn, handle}

abbrev pub is_member : ℕ → List ℕ → Bool
is_member i [] = false
is_member i (j ∷ js) = j == i || is_member i js

-- `RedisProcessedRegistry.claim`: `SET NX`
unfoldable pub claim : ℕ → List ℕ → Bool × List ℕ
claim i claimed = if is_member i claimed then (false, claimed) else (true, i ∷ claimed)

abbrev pub other_than : ℕ → ℕ → Bool
other_than i j = not (j == i)

-- `RedisProcessedRegistry.release`
unfoldable pub release_claim : ℕ → List ℕ → List ℕ
release_claim i claimed = keep (other_than i) claimed

-- The event that `_to_dlq` publishes, without its time
pub record DeadLetter : Type 0 where
  pub stream : Text
  pub key : Text
  pub original_topic : Text
  pub error : Error
  pub original : Payload

-- The rooms by their identifiers, the claims, and what the broker took
pub record Site : Type 0 where
  pub rooms : ℕ → Studio
  pub claimed : List ℕ
  pub dead_letters : List DeadLetter

abbrev pub dead_letter : Text → Payload → Error → DeadLetter
dead_letter topic p x = record {
  stream = topic ++ codes ".dlq";
  key = to_str (or_default (text []) (get p (codes "room_id")));
  original_topic = topic;
  error = x;
  original = p;
}

-- `_to_dlq`, where `up` says whether the broker takes the message
abbrev pub to_dlq : Bool → Text → Payload → Error → Site → Site
to_dlq true topic p x w = record w { dead_letters = dead_letter topic p x ∷ w.dead_letters }
to_dlq false topic p x w = w

abbrev pub put_room : ℕ → Studio → (ℕ → Studio) → ℕ → Studio
put_room i v rooms j = if j == i then v else rooms j

-- What the outside does in one delivery: the turn of the service, how the registry's calls for the
-- claim and for its release end, and whether the broker takes a dead letter
pub record Delivery : Type 0 where
  pub turn : Turn
  pub claiming : Call
  pub freeing : Call
  pub up : Bool

-- The release of the claim in the `except` clause, and the dead letter, which is not sent if the
-- release raises
abbrev pub after_freeing :
    Bool → Text → Payload → Error → ℕ → Site → Call → Result (Unit {0}) × Site
after_freeing up topic p x msg w returns =
    (ok tt, to_dlq up topic p x (record w { claimed = release_claim msg w.claimed }))
after_freeing up topic p x msg w (fails y) = (err y, w)
after_freeing up topic p x msg w (loses y) =
    (err y, record w { claimed = release_claim msg w.claimed })

-- After `handle`
abbrev pub after_handle :
    Delivery → Text → Payload → ℕ → Result (Unit {0}) → Site → Result (Unit {0}) × Site
after_handle d topic p msg (ok _) w = (ok tt, w)
after_handle d topic p msg (err x) w = after_freeing d.up topic p x msg w d.freeing

-- The handling of a request whose claim was got
abbrev pub work : Delivery → Text → Payload → GenerationRequest → Site → Result (Unit {0}) × Site
work d topic p r w =
    let (end, room) = handle d.turn r (w.rooms r.room_id) in
    after_handle d topic p r.msg_id end (record w { rooms = put_room r.room_id room w.rooms })

abbrev pub after_claim :
    Delivery
    → Text
    → Payload
    → GenerationRequest
    → Site
    → Call
    → Bool × List ℕ
    → Result (Unit {0}) × Site
after_claim d topic p r w returns (false, claimed) = (ok tt, record w { claimed = claimed })
after_claim d topic p r w returns (true, claimed) =
    work d topic p r (record w { claimed = claimed })
after_claim d topic p r w (fails x) (got, claimed) = (err x, w)
after_claim d topic p r w (loses x) (got, claimed) = (err x, record w { claimed = claimed })

abbrev pub after_read :
    Delivery → Text → Payload → Site → Result GenerationRequest → Result (Unit {0}) × Site
after_read d topic p w (ok r) = after_claim d topic p r w d.claiming (claim r.msg_id w.claimed)
after_read d topic p w (err x) =
    if is_unreadable x then (ok tt, to_dlq d.up topic p x w) else (err x, w)

-- `GenerationConsumer.consume`
unfoldable pub consume : (Text → Bool) → Delivery → Text → Payload → Site → Result (Unit {0}) × Site
consume is_time d topic p w = after_read d topic p w (from_payload is_time p)
