-- ===== src/Chat/Orchestration/Ordering.antt =====
-- The order that docs/events.md makes of a superchat: the charge, then the frame, then the request
-- for a response.
use project_aria.Common.{
  ℕ, ◌≡◌, refl, ap, subst, Bool, true, false, List, ◌∷◌, ◌∙◌, arith, inl, inr,
}
use project_aria.Common.Error.{Error, Result, ok, err, Result-cases, err-injective}
use project_aria.Wallet.Model.{Donation, validate_donation, validate_donation-ok}
use project_aria.Wallet.Repository.Tables.{Db}
use project_aria.Wallet.Repository.Consistency.{IsConsistent}
use project_aria.Wallet.Repository.Refinement.{book}
use project_aria.Wallet.Donating.{donate-IsAtomic}
use project_aria.Wallet.Service.{Gift, SuperchatReceipt, gift_donation, receipt, donate, charge}
use project_aria.Chat.Message.{
  RoomMessage, from_superchat, validate_room_message, fields_match_kind,
}
use project_aria.Chat.Ask.{Ask}
use project_aria.Chat.Orchestration.{
  Frame, Stage, Calls, Superchat, gift_of, frame_of, ask_of, announce, handle_superchat,
  record_line,
}

-- How far a superchat came that has been charged
pub data Announced (s : Superchat) (r : SuperchatReceipt) (frames : List Frame) (asks : List Ask)
    (out : Result SuperchatReceipt × Stage) : Type 0 where
  unshown :
      (x : Error)
      → out.0 ≡ err x
      → out.1.frames ≡ frames
      → out.1.asks ≡ asks
      → Announced s r frames asks out
  unasked :
      (x : Error)
      → out.0 ≡ err x
      → out.1.frames ≡ frame_of s r ∷ frames
      → out.1.asks ≡ asks
      → Announced s r frames asks out
  thanked :
      out.0 ≡ ok r
      → out.1.frames ≡ frame_of s r ∷ frames
      → out.1.asks ≡ ask_of s ∷ asks
      → Announced s r frames asks out

-- What `handle_superchat` may have done, by how the charge ended
pub record IsOrdered (s : Superchat) (w : Stage) (out : Result SuperchatReceipt × Stage)
    : Type 0 where
  pub consistent : IsConsistent out.1.db
  pub refused :
      (x : Error)
      → (charge (gift_of s) w.db).0 ≡ err x
      → (out.0 ≡ err x)
        × (book out.1.db ≡ book w.db)
        × (out.1.transcript ≡ w.transcript)
        × (out.1.frames ≡ w.frames)
        × (out.1.asks ≡ w.asks)
  pub charged :
      (r : SuperchatReceipt)
      → (charge (gift_of s) w.db).0 ≡ ok r
      → (out.1.db ≡ (charge (gift_of s) w.db).1) × Announced s r w.frames w.asks out

receipt-db : (u : ℕ) (out : Result Donation × Db) → (receipt u out).1 ≡ out.1
receipt-db u (ok d, db) = refl
receipt-db u (err x, db) = refl

receipt-refused :
    (u : ℕ) (out : Result Donation × Db) (x : Error) → (receipt u out).0 ≡ err x → out.0 ≡ err x
receipt-refused u (ok d, db) x h = cc
receipt-refused u (err y, db) x h = ap err (err-injective h)

charge-invalid :
    (g : Gift) (db : Db) (x : Error)
    → validate_donation (gift_donation g) ≡ err x
    → (charge g db).0 ≡ err x
unfolding charge donate
charge-invalid g db x e = rw e refl

-- A gift that was charged has passed its validator.
charge-valid :
    (g : Gift) (db : Db) (r : SuperchatReceipt)
    → (charge g db).0 ≡ ok r
    → validate_donation (gift_donation g) ≡ ok (gift_donation g)
charge-valid g db r h = elim (Result-cases (validate_donation (gift_donation g))) [
  | inl (d, e) ↦ rw (e, validate_donation-ok (gift_donation g) d e) refl
  | inr (x, e) ↦ let failed = charge-invalid g db x e in cc
]

-- Whatever the donation's validator lets through, the timeline takes.
line-valid :
    (s : Superchat)
    → validate_donation (gift_donation (gift_of s)) ≡ ok (gift_donation (gift_of s))
    → (m : RoomMessage) × (from_superchat s.line_id s.room_id s.persona_id s.donor_id s.amount
          s.message
        ≡ ok m)
unfolding validate_donation from_superchat validate_room_message fields_match_kind
line-valid s h =
    elim (Result-cases
      (from_superchat s.line_id s.room_id s.persona_id s.donor_id s.amount s.message)) [
        | inl found ↦ found
        | inr (x, e) ↦ ground arith
      ]

module _ (s : Superchat) (r : SuperchatReceipt) (m : RoomMessage) (w : Stage) where
  abbrev line : Result RoomMessage
  line = from_superchat s.line_id s.room_id s.persona_id s.donor_id s.amount s.message

  announce-Announced :
      (touched shown asked kept : Result (Unit {0})) (stored : Bool)
      → line ≡ ok m
      → let calls : Calls = record {
        touched = touched;
        is_stored = stored;
        shown = shown;
        asked = asked;
        kept = kept;
      } in
        ((announce calls s r w).1.db ≡ w.db) × Announced s r w.frames w.asks (announce calls s r w)
  unfolding announce record_line
  announce-Announced (err x) shown asked kept stored e = (refl, unshown x refl refl refl)
  announce-Announced (ok _) (err x) asked kept false e = rw e (refl, unshown x refl refl refl)
  announce-Announced (ok _) (err x) asked kept true e = rw e (refl, unshown x refl refl refl)
  announce-Announced (ok _) (ok _) (err x) kept false e = rw e (refl, unasked x refl refl refl)
  announce-Announced (ok _) (ok _) (err x) kept true e = rw e (refl, unasked x refl refl refl)
  announce-Announced (ok _) (ok _) (ok _) kept false e = rw e (refl, thanked refl refl refl)
  announce-Announced (ok _) (ok _) (ok _) kept true e = rw e (refl, thanked refl refl refl)

module _ (calls : Calls) (s : Superchat) (w : Stage) where
  charged_case :
      (r : SuperchatReceipt) (db : Db)
      → charge (gift_of s) w.db ≡ (ok r, db)
      → (handle_superchat calls s w ≡ announce calls s r (record w { db = db }))
  unfolding handle_superchat
  charged_case r db e = rw e refl

  refused_case :
      (x : Error) (db : Db)
      → charge (gift_of s) w.db ≡ (err x, db)
      → (handle_superchat calls s w ≡ (err x, record w { db = db }))
  unfolding handle_superchat
  refused_case x db e = rw e refl

module _ (calls : Calls) (s : Superchat) (w : Stage) where
  charge-receipt : charge (gift_of s) w.db ≡ receipt s.donor_id (donate (gift_of s) w.db)
  unfolding charge
  charge-receipt = refl

  charge-donate : (charge (gift_of s) w.db).1 ≡ (donate (gift_of s) w.db).1
  charge-donate = rw (charge-receipt, receipt-db s.donor_id (donate (gift_of s) w.db))

  charged_steps :
      (r : SuperchatReceipt)
      → (charge (gift_of s) w.db).0 ≡ ok r
      → ((handle_superchat calls s w).1.db ≡ (charge (gift_of s) w.db).1)
        × Announced s r w.frames w.asks (handle_superchat calls s w)
  charged_steps r e =
      let (m, taken) = line-valid s (charge-valid (gift_of s) w.db r e) in
      let db = (charge (gift_of s) w.db).1 in
      rw (charged_case calls s w r db (ap (λ a. (a, db)) e)) (
        announce-Announced s r m (record w { db = db }) calls.touched calls.shown calls.asked
          calls.kept calls.is_stored taken)

  db_after : (handle_superchat calls s w).1.db ≡ (charge (gift_of s) w.db).1
  db_after = elim (Result-cases (charge (gift_of s) w.db).0) [
    | inl (r, e) ↦ (charged_steps r e).0
    | inr (x, e) ↦
        rw (refused_case calls s w x _ (ap (λ a. (a, (charge (gift_of s) w.db).1)) e)) refl
  ]

  -- On consistent tables, a superchat whose charge is refused raises that error, and neither the
  -- ledger, the donations, the timeline, the frames that went out nor the requests for responses
  -- change. One that is charged keeps what the charge wrote, however the later calls end, and then
  -- comes one of three ways: it raises with nothing shown or asked; it raises with its frame shown,
  -- which names the donation of the receipt, and nothing asked; or it is answered with the
  -- receipt, its frame shown and its thanks asked. The tables stay consistent.
  pub handle_superchat-IsOrdered : IsConsistent w.db → IsOrdered s w (handle_superchat calls s w)
  handle_superchat-IsOrdered h = record {
    consistent = rw (db_after, charge-donate) (donate-IsAtomic (gift_of s) w.db h).consistent;
    refused = λ x e.
        let db = (charge (gift_of s) w.db).1 in
        let refusal =
          receipt-refused s.donor_id (donate (gift_of s) w.db) x
            (subst (λ out. out.0 ≡ err x) charge-receipt e) in
        rw (refused_case calls s w x db (ap (λ a. (a, db)) e)) (
          refl,
          ap book charge-donate ∙ ((donate-IsAtomic (gift_of s) w.db h).refused x refusal).rows,
          refl,
          refl,
          refl,
        );
    charged = λ r e. charged_steps r e;
  }
