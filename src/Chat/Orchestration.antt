-- ===== src/Chat/Orchestration.antt =====
-- chat/application/service.py: what a viewer's message and a superchat set off, over the wallet's
-- tables, the timeline, the frames that go out, the requests for responses, and the candidates of
-- adapter/outbound/redis/candidates.py (all lists but the candidates with the newest first).
pub mod Ordering
mod Tests
use project_aria.Common.{
  ℕ, ◌+◌, ◌-◌, Bool, Option, none, some, List, [], ◌∷◌, ◌++◌, if◌then◌else◌, length, drop, ◌==◌,
}
use project_aria.Common.Int.{ℤ, pos, negsuc}
use project_aria.Common.Error.{Result, ok, err}
use project_aria.Common.Text.{Text, codes, decimal}
use project_aria.Wallet.Repository.Tables.{Db}
use project_aria.Wallet.Service.{Gift, SuperchatReceipt, charge}
use project_aria.Chat.Coordinator.{ChatSource, superchat}
use project_aria.Chat.Topic.{Candidate}
use project_aria.Chat.Candidates.{Entry, add_candidate}
use project_aria.Chat.Ask.{Ask}
use project_aria.Chat.Message.{RoomMessage, from_viewer, from_superchat}

-- The frames that are published to a room
pub data Frame : Type 0 where
  message_frame : (room_id author_id : ℕ) → (text : Text) → Frame
  superchat_frame :
      (room_id persona_id donor_id donation_id : ℕ) → (amount : ℤ) → (message : Option Text) → Frame

pub record Stage : Type 0 where
  pub db : Db
  pub touches : List ℕ
  pub transcript : List RoomMessage
  pub frames : List Frame
  pub asks : List Ask
  pub candidates : ℕ → List Entry

-- How the calls to Redis, the database and the broker end. One that raises has done nothing.
pub record Calls : Type 0 where
  pub touched : Result (Unit {0})
  pub is_stored : Bool
  pub shown : Result (Unit {0})
  pub asked : Result (Unit {0})
  pub kept : Result (Unit {0})

-- `await` of a call that changes the stage, and what follows it
abbrev pub after {ℓ} :
    {A : Type ℓ}
    → Result (Unit {0})
    → (Stage → Stage)
    → (Stage → Result A × Stage)
    → Stage
    → Result A × Stage
after (ok _) change rest w = rest (change w)
after (err x) change rest w = (err x, w)

-- `self._activity.touch(room_id)`
abbrev pub touch : ℕ → Stage → Stage
touch room w = record w { touches = room ∷ w.touches }

-- `self._broadcaster.publish(room_id, frame)`
abbrev pub publish : Frame → Stage → Stage
publish frame w = record w { frames = frame ∷ w.frames }

-- `self._generation.request(...)`
abbrev pub request : Ask → Stage → Stage
request ask w = record w { asks = ask ∷ w.asks }

abbrev at_room : ℕ → (List Entry → List Entry) → (ℕ → List Entry) → ℕ → List Entry
at_room room f cs i = if i == room then f (cs i) else cs i

-- `self._candidates.add(room_id, candidate)`
unfoldable pub keep : ℕ → Candidate → Stage → Stage
keep room c w = record w { candidates = at_room room (add_candidate c) w.candidates }

-- `_record`, which swallows every exception
unfoldable pub record_line : Bool → RoomMessage → Stage → Stage
record_line stored m w = if stored then record w { transcript = m ∷ w.transcript } else w

abbrev pub after_valid {ℓ} :
    {A : Type ℓ}
    → Result RoomMessage
    → (RoomMessage → Stage → Result A × Stage)
    → Stage
    → Result A × Stage
after_valid (ok m) rest w = rest m w
after_valid (err x) rest w = (err x, w)

-- `handle_user_message`
unfoldable pub handle_user_message :
    Calls → (id room_id author_id : ℕ) → (now : ℤ) → Text → Stage → Result (Unit {0}) × Stage
handle_user_message calls id room author now t = after_valid (from_viewer id room author t) λ m.
    after calls.touched (touch room) λ w.
      after calls.shown (publish (message_frame room author m.text))
        (after calls.kept
          (keep room
            (record { message_id = m.id; author_id = author; text = m.text; created_at = now }))
          (λ w'. (ok tt, w')))
        (record_line calls.is_stored m w)

-- `str(n)`
abbrev int_to_text : ℤ → Text
int_to_text (pos n) = decimal n
int_to_text (negsuc n) = codes "-" ++ decimal (n + 1)

-- `_thanks_prompt`
unfoldable pub thanks_prompt : ℤ → Option Text → Text
unfolding decimal
thanks_prompt amount (some (c ∷ t)) =
    codes "방금 " ++ int_to_text amount ++ codes " 크레딧을 후원하며 이렇게 말했습니다: " ++ c ∷ t
thanks_prompt amount _ = codes "방금 " ++ int_to_text amount ++ codes " 크레딧을 후원했습니다."

-- The arguments of `handle_superchat`, with the identifiers of the donation, of the ledger row and
-- of the line in the timeline.
pub record Superchat : Type 0 where
  pub donation_id : ℕ
  pub entry_id : ℕ
  pub line_id : ℕ
  pub room_id : ℕ
  pub persona_id : ℕ
  pub donor_id : ℕ
  pub amount : ℤ
  pub message : Option Text
  pub idempotency_key : Option Text

abbrev pub gift_of : Superchat → Gift
gift_of s = record {
  donation_id = s.donation_id;
  entry_id = s.entry_id;
  donor_id = s.donor_id;
  persona_id = s.persona_id;
  amount = s.amount;
  message = s.message;
  room_id = some s.room_id;
  idempotency_key = s.idempotency_key;
}

abbrev pub frame_of : Superchat → SuperchatReceipt → Frame
frame_of s r = superchat_frame s.room_id s.persona_id s.donor_id r.donation_id s.amount s.message

abbrev pub ask_of : Superchat → Ask
ask_of s = record {
  room_id = s.room_id;
  persona_id = s.persona_id;
  source = superchat;
  prompt = thanks_prompt s.amount s.message;
  selection = none;
}

-- What follows the charge
unfoldable pub announce :
    Calls → Superchat → SuperchatReceipt → Stage → Result SuperchatReceipt × Stage
announce calls s r = after calls.touched (touch s.room_id) (
    after_valid (from_superchat s.line_id s.room_id s.persona_id s.donor_id s.amount s.message)
      λ m w.
        after calls.shown (publish (frame_of s r))
          (after calls.asked (request (ask_of s)) (λ w'. (ok r, w')))
          (record_line calls.is_stored m w))

abbrev pub after_charge :
    Calls → Superchat → Stage → Result SuperchatReceipt × Db → Result SuperchatReceipt × Stage
after_charge calls s w (ok r, db) = announce calls s r (record w { db = db })
after_charge calls s w (err x, db) = (err x, record w { db = db })

-- `handle_superchat`
unfoldable pub handle_superchat : Calls → Superchat → Stage → Result SuperchatReceipt × Stage
handle_superchat calls s w = after_charge calls s w (charge (gift_of s) w.db)
