-- ===== src/Wallet/Once.antt =====
-- Sequences of deliveries, and the rows of the ledger under one key.
use project_aria.Common.{
  ℕ, ◌≡◌, ◌⊎◌, refl, false, some, List, [], ◌∷◌, ◌++◌, arith, Bool-cases, inl, inr, if◌then◌else◌,
  ◌∙◌, All, All-take, All-drop,
}
use project_aria.Common.Int.{ℤ}
use project_aria.Common.Error.{ok}
use project_aria.Common.Text.{Text, text_eq, text_eq_refl, text_eq_iff}
use project_aria.Wallet.Model.{CreditTransaction}
use project_aria.Wallet.Repository.Tables.{key_used, id_used, same_key}
use project_aria.Wallet.Repository.Consistency.{IsConsistent, IsDistinct}
use project_aria.Wallet.Events.{CreditEvent, from_payload, credit_purchase_confirmed}
use project_aria.Wallet.Granting.{IsSound}
use project_aria.Wallet.Consumer.{World}
use project_aria.Wallet.Consuming.{consume-IsConsistent}
use project_aria.Wallet.Deliveries.{row_of, key-row_of, consume_purchase}
use project_aria.Wallet.Delivery.{
  Delivery, deliver, deliver_all, deliver-Extends, deliver_all-IsConsistent,
}

-- The users and deltas of the rows with a key
abbrev pub amounts : Text → List CreditTransaction → List (ℕ × ℤ)
amounts k [] = []
amounts k (e ∷ es) =
    let rest = amounts k es in
    if same_key e.idempotency_key (some k) then (e.user_id, e.delta) ∷ rest else rest

amounts_unused :
    (k : Text) (es : List CreditTransaction) → key_used (some k) es ≡ false → amounts k es ≡ []
amounts_unused k [] h = refl
amounts_unused k (e ∷ es) h = ground (arith, amounts_unused k es)

amounts_used :
    (k : Text) (es : List CreditTransaction) → amounts k es ≡ [] → key_used (some k) es ≡ false
amounts_used k [] h = refl
amounts_used k (e ∷ es) h = ground (arith, amounts_used k es)

-- A delivery that uses the key is a purchase of these credits by this user.
abbrev pub Agrees : Text → ℕ → ℤ → Delivery → Type 0
Agrees k u c d =
    (e : CreditEvent)
    → from_payload d.payload ≡ ok e
    → e.idempotency_key ≡ k
    → (d.topic ≡ credit_purchase_confirmed) × (e.user_id ≡ u) × (e.credits ≡ c)

module _ (k : Text) (u : ℕ) (c : ℤ) where
  Grows : World → World → Type 0
  Grows w w' =
      (amounts k w'.db.ledger ≡ amounts k w.db.ledger)
      ⊎ ((amounts k w.db.ledger ≡ []) × (amounts k w'.db.ledger ≡ (u, c) ∷ []))

  deliver-Grows :
      (d : Delivery) (w : World) → IsConsistent w.db → Agrees k u c d → Grows w (deliver d w)
  unfolding Grows
  deliver-Grows d w h agrees = elim (deliver-Extends d w h) [
    | inl same ↦ rw same (inl refl)
    | inr (e, read, added) ↦
        let new : IsDistinct (row_of d.topic d.id e ∷ w.db.ledger) =
          rw added at (consume-IsConsistent d.up d.id d.topic d.payload w h).distinct in
        rw added (elim (Bool-cases (text_eq e.idempotency_key k)) [
          | inl hit ↦
              let same = (text_eq_iff e.idempotency_key k).0 hit in
              let (bought, user, credits) = agrees e read same in
              let unused : key_used (some k) w.db.ledger ≡ false =
                rw (← same, ← key-row_of d.topic d.id e) new.0 in
              let empty = amounts_unused k w.db.ledger unused in
              inr (
                empty,
                rw (bought, text_eq_refl credit_purchase_confirmed, hit, user, credits, empty),
              )
          | inr miss ↦ inl (rw (key-row_of d.topic d.id e, miss))
        ])
  ]

  -- Nothing yet, or the one row
  IsSettled : World → Type 0
  IsSettled w = amounts k w.db.ledger ≡ (u, c) ∷ []

  Grows-IsSettled : (w w' : World) → Grows w w' → IsSettled w → IsSettled w'
  unfolding Grows IsSettled
  Grows-IsSettled w w' (inl same) s = same ∙ s
  Grows-IsSettled w w' (inr (empty, one)) s = one

  deliver_all-IsSettled :
      (ds : List Delivery) (w : World)
      → IsConsistent w.db
      → All (Agrees k u c) ds
      → IsSettled w
      → IsSettled (deliver_all ds w)
  unfolding deliver_all
  deliver_all-IsSettled [] w h a s = s
  deliver_all-IsSettled (d ∷ ds) w h a s =
      deliver_all-IsSettled ds (deliver d w) (consume-IsConsistent d.up d.id d.topic d.payload w h)
        a.1 (Grows-IsSettled w (deliver d w) (deliver-Grows d w h a.0) s)

  -- What holds before the first delivery that is granted
  deliver_all-Grows :
      (ds : List Delivery) (w : World)
      → IsConsistent w.db
      → All (Agrees k u c) ds
      → amounts k w.db.ledger ≡ []
      → (amounts k (deliver_all ds w).db.ledger ≡ []) ⊎ IsSettled (deliver_all ds w)
  unfolding deliver_all Grows IsSettled
  deliver_all-Grows [] w h a empty = inl empty
  deliver_all-Grows (d ∷ ds) w h a empty =
      grown (deliver-Grows d w h a.0) (λ still. deliver_all-Grows ds (deliver d w) kept a.1 still)
    where
      kept : IsConsistent (deliver d w).db
      kept = consume-IsConsistent d.up d.id d.topic d.payload w h

      grown :
          Grows w (deliver d w)
          → (amounts k (deliver d w).db.ledger ≡ []
              → (amounts k (deliver_all ds (deliver d w)).db.ledger ≡ [])
                ⊎ IsSettled (deliver_all ds (deliver d w)))
          → (amounts k (deliver_all ds (deliver d w)).db.ledger ≡ [])
            ⊎ IsSettled (deliver_all ds (deliver d w))
      grown (inl same) go = go (same ∙ empty)
      grown (inr (_, one)) go = inr (deliver_all-IsSettled ds (deliver d w) kept a.1 one)

deliver_all-append :
    (ds es : List Delivery) (w : World)
    → deliver_all (ds ++ es) w ≡ deliver_all es (deliver_all ds w)
unfolding deliver_all
deliver_all-append [] es w = refl
deliver_all-append (d ∷ ds) es w = deliver_all-append ds es (deliver d w)

-- The message that grants, at a ledger without its key
deliver_first :
    (d : Delivery) (e : CreditEvent) (w : World)
    → IsConsistent w.db
    → d.topic ≡ credit_purchase_confirmed
    → from_payload d.payload ≡ ok e
    → IsSound e
    → id_used d.id w.db.ledger ≡ false
    → amounts e.idempotency_key w.db.ledger ≡ []
    → amounts e.idempotency_key (deliver d w).db.ledger ≡ (e.user_id, e.credits) ∷ []
deliver_first d e w h bought read s fresh empty =
    let unused = amounts_used e.idempotency_key w.db.ledger empty in
    let added = (consume_purchase d.up d.id d.payload w e h read s unused fresh).1 in
    rw (bought, added, text_eq_refl e.idempotency_key, empty)

-- However often a purchase is delivered, before, between and after deliveries of anything else,
-- the ledger ends with one row under its key, which grants the credits to the buyer. This holds
-- if the ledger began consistent and without the key, if every delivery that uses the key is this
-- purchase, if the event is sound (its credits are positive and its key fits the column), and if the
-- identifier that the granting delivery draws is new.
pub purchase_once :
    (before after : List Delivery) (d : Delivery) (e : CreditEvent) (w : World)
    → IsConsistent w.db
    → key_used (some e.idempotency_key) w.db.ledger ≡ false
    → d.topic ≡ credit_purchase_confirmed
    → from_payload d.payload ≡ ok e
    → IsSound e
    → id_used d.id (deliver_all before w).db.ledger ≡ false
    → All (Agrees e.idempotency_key e.user_id e.credits) (before ++ d ∷ after)
    → amounts e.idempotency_key (deliver_all (before ++ d ∷ after) w).db.ledger
      ≡ (e.user_id, e.credits) ∷ []
unfolding IsSettled deliver_all
purchase_once before after d e w h unused bought read s fresh agree =
    rw (deliver_all-append before (d ∷ after) w) (
      deliver_all-IsSettled e.idempotency_key e.user_id e.credits after (deliver d mid)
        (consume-IsConsistent d.up d.id d.topic d.payload mid kept)
        (All-drop _ before (d ∷ after) agree).1
        (settled (
          deliver_all-Grows e.idempotency_key e.user_id e.credits before w h
            (All-take _ before (d ∷ after) agree)
            (amounts_unused e.idempotency_key w.db.ledger unused))))
  where
    mid : World
    mid = deliver_all before w

    kept : IsConsistent mid.db
    kept = deliver_all-IsConsistent before w h

    settled :
        (amounts e.idempotency_key mid.db.ledger ≡ [])
          ⊎ IsSettled e.idempotency_key e.user_id e.credits mid
        → IsSettled e.idempotency_key e.user_id e.credits (deliver d mid)
    settled (inl empty) = deliver_first d e mid kept bought read s fresh empty
    settled (inr one) =
        Grows-IsSettled e.idempotency_key e.user_id e.credits mid (deliver d mid)
          (deliver-Grows e.idempotency_key e.user_id e.credits d mid kept
            (All-drop _ before (d ∷ after) agree).0)
          one
