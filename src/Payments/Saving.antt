-- ===== src/Payments/Saving.antt =====
-- `save_with_outbox` over the payments and their outbox.
use project_aria.Common.{
  ℕ, ◌≡◌, ◌⊎◌, refl, ap, true, false, none, List, [], ◌∷◌, arith, if◌then◌else◌, All, All-Memᴰ,
  All-intro, Memᴰ, Bool-cases, inl, inr,
}
use project_aria.Common.Text.{Text, text_eq, text_eq_refl}
use project_aria.Payments.Model.{Payment, OutboxMessage}
use project_aria.Payments.Repository.{
  Db, find_payment, payment_id_used, message_id_used, update_payment, insert_message,
}
use project_aria.Payments.Contract.{Purpose, owes, IsBacked}
use project_aria.Payments.Explained.{
  Tells, IsOwed, IsAnnounced, IsDistinct, IsExplained, IsSame, Tells-IsSame, payment_of_order,
}
use project_aria.Payments.Inserting.{
  insert_message-Memᴰ, insert_message-keeps, All-insert_message, IsKeyed-insert_message,
}

-- What `update_payment` makes of one row
abbrev pub touch : Payment → Payment → Payment
touch p q =
    if text_eq q.order_id p.order_id
    then record q {
      status = p.status;
      provider_key = p.provider_key;
      confirmed_at = p.confirmed_at;
      refunded_at = p.refunded_at;
    }
    else q

pub touch-IsSame : (p q : Payment) → IsSame q (touch p q)
touch-IsSame p q = elim (Bool-cases (text_eq q.order_id p.order_id)) [
  | inl hit ↦
      rw hit (record { id = refl; user_id = refl; order_id = refl; amount = refl; credits = refl })
  | inr miss ↦
      rw miss (record { id = refl; user_id = refl; order_id = refl; amount = refl; credits = refl })
]

Memᴰ-touch :
    (p q : Payment) (ps : List Payment) → Memᴰ q ps → Memᴰ (touch p q) (update_payment p ps)
unfolding update_payment
Memᴰ-touch p q [] i = elim i [ ]
Memᴰ-touch p q (r ∷ ps) (Memᴰ.head e) = Memᴰ.head (ap (touch p) e)
Memᴰ-touch p q (r ∷ ps) (Memᴰ.tail i) = Memᴰ.tail (Memᴰ-touch p q ps i)

All-update_payment :
    (P : Payment → Type 0) (p : Payment) (ps : List Payment)
    → ((q : Payment) → Memᴰ q ps → P (touch p q))
    → All P (update_payment p ps)
unfolding update_payment
All-update_payment P p [] f = tt
All-update_payment P p (q ∷ ps) f =
    (f q (Memᴰ.head refl), All-update_payment P p ps (λ r i. f r (Memᴰ.tail i)))

payment_id_used-update_payment :
    (i : ℕ) (p : Payment) (ps : List Payment)
    → payment_id_used i (update_payment p ps) ≡ payment_id_used i ps
unfolding update_payment
payment_id_used-update_payment i p [] = refl
payment_id_used-update_payment i p (q ∷ ps) =
    rw ((touch-IsSame p q).id, payment_id_used-update_payment i p ps)

find_payment-update_payment :
    (order : Text) (p : Payment) (ps : List Payment)
    → find_payment order ps ≡ none
    → find_payment order (update_payment p ps) ≡ none
unfolding update_payment
find_payment-update_payment order p [] h = refl
find_payment-update_payment order p (q ∷ ps) h =
    ground (arith, (touch-IsSame p q).order_id, find_payment-update_payment order p ps)

IsDistinct-update_payment :
    (p : Payment) (ps : List Payment) → IsDistinct ps → IsDistinct (update_payment p ps)
unfolding update_payment
IsDistinct-update_payment p [] d = tt
IsDistinct-update_payment p (q ∷ ps) d = (
  rw ((touch-IsSame p q).id, payment_id_used-update_payment q.id p ps) d.0,
  rw ((touch-IsSame p q).order_id) (find_payment-update_payment q.order_id p ps d.1),
  IsDistinct-update_payment p ps d.2,
)

-- A payment, its next version, and a message that tells of it
pub record IsStep (k : Purpose) (p q : Payment) (m : OutboxMessage) : Type 0 where
  pub same : IsSame p q
  pub tells : Tells k m q
  pub due : owes k q.status ≡ true
  pub keeps : (l : Purpose) → owes l p.status ≡ true → owes l q.status ≡ true
  pub adds : (l : Purpose) → owes l q.status ≡ true → (l ≡ k) ⊎ (owes l p.status ≡ true)

module _ (k : Purpose) (p q : Payment) (m : OutboxMessage) (db : Db) (e : IsExplained db)
    (i : Memᴰ p db.payments) (s : IsStep k p q m) where
  -- The row of the order becomes the next version, and every other row stays.
  pub touched : (r : Payment) → Memᴰ r db.payments → ((touch q r ≡ q) × (r ≡ p)) ⊎ (touch q r ≡ r)
  touched r j = elim (Bool-cases (text_eq r.order_id q.order_id)) [
    | inl hit ↦
        let own : r ≡ p =
          payment_of_order db.payments r p e.distinct j i (rw s.same.order_id at hit) in
        inl (
          rw (hit, own)
              (rw (
                ← s.same.id,
                ← s.same.user_id,
                ← s.same.order_id,
                ← s.same.amount,
                ← s.same.credits,
              )),
          own,
        )
    | inr miss ↦ inr (rw miss)
  ]

  IsBacked-touch : (r : Payment) → Memᴰ r db.payments → IsBacked (touch q r)
  IsBacked-touch r j =
      let b = All-Memᴰ IsBacked db.payments r e.backed j in
      let t = touch-IsSame q r in
      record {
        id_IsUuid = rw t.id b.id_IsUuid;
        user_IsUuid = rw t.user_id b.user_IsUuid;
        credits = rw t.credits b.credits;
      }

  -- A row that was owed still is, since no status owes less than the one before.
  pub IsOwed-still :
      (n : OutboxMessage) → IsOwed db.payments n → IsOwed (update_payment q db.payments) n
  IsOwed-still n (l, r, j, tells, due) = (
    l,
    touch q r,
    Memᴰ-touch q r db.payments j,
    Tells-IsSame l n r (touch q r) (touch-IsSame q r) tells,
    elim (touched r j) [
      | inl (new, own) ↦ rw new (s.keeps l (rw own at due))
      | inr old ↦ rw old due
    ],
  )

  touch_own : touch q p ≡ q
  touch_own =
      rw (← s.same.order_id, text_eq_refl q.order_id)
        (rw (← s.same.id, ← s.same.user_id, ← s.same.amount, ← s.same.credits))

  IsOwed-new : IsOwed (update_payment q db.payments) m
  IsOwed-new =
      (k, touch q p, Memᴰ-touch q p db.payments i, rw touch_own s.tells, rw touch_own s.due)

  -- What a payment owed before is in the outbox already.
  announced_before :
      (r : Payment)
      → Memᴰ r db.payments
      → (l : Purpose) → owes l r.status ≡ true
      → (n : OutboxMessage) × Memᴰ n (insert_message m db.outbox) × Tells l n (touch q r)
  announced_before r j l due =
      let (n, here, tells) = All-Memᴰ (IsAnnounced db.outbox) db.payments r e.announced j l due in
      (
        n,
        insert_message-keeps m n db.outbox here,
        Tells-IsSame l n r (touch q r) (touch-IsSame q r) tells,
      )

  IsAnnounced-own : IsAnnounced (insert_message m db.outbox) (touch q p)
  IsAnnounced-own l due = elim (s.adds l (rw touch_own at due)) [
    | inl new ↦ (m, insert_message-Memᴰ m db.outbox, rw (touch_own, new) s.tells)
    | inr old ↦ announced_before p i l old
  ]

  IsAnnounced-still :
      (r : Payment) → Memᴰ r db.payments → IsAnnounced (insert_message m db.outbox) (touch q r)
  IsAnnounced-still r j = elim (touched r j) [
    | inl (new, own) ↦ rw own IsAnnounced-own
    | inr old ↦ λ l due. announced_before r j l (rw old at due)
  ]

  -- Both rows are written together, and the tables agree as before.
  pub save_with_outbox-IsExplained :
      message_id_used m.id db.outbox ≡ false
      → IsExplained
          (record { payments = update_payment q db.payments; outbox = insert_message m db.outbox })
  save_with_outbox-IsExplained fresh = record {
    backed = All-update_payment IsBacked q db.payments IsBacked-touch;
    distinct = IsDistinct-update_payment q db.payments e.distinct;
    keyed = IsKeyed-insert_message m db.outbox fresh e.keyed;
    owed = All-insert_message (IsOwed (update_payment q db.payments)) m db.outbox IsOwed-new (
        All-intro _ db.outbox
          λ n j. IsOwed-still n (All-Memᴰ (IsOwed db.payments) db.outbox n e.owed j));
    announced =
        All-update_payment (IsAnnounced (insert_message m db.outbox)) q db.payments
          IsAnnounced-still;
  }
