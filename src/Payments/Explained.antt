-- ===== src/Payments/Explained.antt =====
-- The invariant of the payments database: every outbox row tells of a payment that owes it, and
-- every payment has the rows that it owes.
use project_aria.Common.{
  ℕ, ◌≡◌, ◌≢◌, ap, sym, ◌∙◌, subst, true, false, none, some, List, [], ◌∷◌, arith, All, Memᴰ,
  Bool-cases, inl, inr,
}
use project_aria.Common.Error.{ok}
use project_aria.Common.Text.{Text, text_eq, text_eq_iff, text_eq_refl}
use project_aria.Wallet.Events.{from_payload}
use project_aria.Payments.Model.{Payment, OutboxMessage}
use project_aria.Payments.Repository.{Db, find_payment, payment_id_used}
use project_aria.Payments.Contract.{Purpose, topic_of, event_of, owes, IsBacked}
use project_aria.Payments.Draining.{IsKeyed}

abbrev pub Tells : Purpose → OutboxMessage → Payment → Type 0
Tells k m p = (m.topic ≡ topic_of k) × (from_payload m.payload ≡ ok (event_of k p))

abbrev pub IsOwed : List Payment → OutboxMessage → Type 0
IsOwed ps m = (k : Purpose) × (p : Payment) × Memᴰ p ps × Tells k m p × (owes k p.status ≡ true)

abbrev pub IsAnnounced : List OutboxMessage → Payment → Type 0
IsAnnounced ms p =
    (k : Purpose) → owes k p.status ≡ true → (m : OutboxMessage) × Memᴰ m ms × Tells k m p

-- The primary key and the unique order number
abbrev pub IsDistinct : List Payment → Type 0
IsDistinct [] = Unit
IsDistinct (p ∷ ps) =
    (payment_id_used p.id ps ≡ false) × (find_payment p.order_id ps ≡ none) × IsDistinct ps

pub record IsExplained (db : Db) : Type 0 where
  pub backed : All IsBacked db.payments
  pub distinct : IsDistinct db.payments
  pub keyed : IsKeyed db.outbox
  pub owed : All (IsOwed db.payments) db.outbox
  pub announced : All (IsAnnounced db.outbox) db.payments

-- The payments of two versions of one row
pub record IsSame (p q : Payment) : Type 0 where
  pub id : q.id ≡ p.id
  pub user_id : q.user_id ≡ p.user_id
  pub order_id : q.order_id ≡ p.order_id
  pub amount : q.amount ≡ p.amount
  pub credits : q.credits ≡ p.credits

pub Tells-IsSame :
    (k : Purpose) (m : OutboxMessage) (p q : Payment) → IsSame p q → Tells k m p → Tells k m q
Tells-IsSame k m p q s t = (t.0, t.1 ∙ rw (s.id, s.user_id, s.credits))

-- `find_payment` and membership
pub find_payment-Memᴰ :
    (order : Text) (ps : List Payment) (p : Payment)
    → find_payment order ps ≡ some p
    → Memᴰ p ps × (p.order_id ≡ order)
find_payment-Memᴰ order [] p h = cc
find_payment-Memᴰ order (q ∷ ps) p h = elim (Bool-cases (text_eq q.order_id order)) [
  | inl hit ↦
      let e : q ≡ p = ground arith in
      (
        Memᴰ.head (sym e),
        subst (λ (r : Payment). r.order_id ≡ order) e ((text_eq_iff q.order_id order).0 hit),
      )
  | inr miss ↦ let (i, e) = find_payment-Memᴰ order ps p (ground arith) in (Memᴰ.tail i, e)
]

find_payment_missing :
    (order : Text) (ps : List Payment) (p : Payment)
    → find_payment order ps ≡ none
    → Memᴰ p ps
    → text_eq p.order_id order ≡ false
find_payment_missing order [] p h i = elim i [ ]
find_payment_missing order (q ∷ ps) p h (Memᴰ.head e) = rw e (ground arith)
find_payment_missing order (q ∷ ps) p h (Memᴰ.tail i) =
    find_payment_missing order ps p (ground arith) i

pub payment_id_used_missing :
    (i : ℕ) (ps : List Payment) (p : Payment) → payment_id_used i ps ≡ false → Memᴰ p ps → p.id ≢ i
payment_id_used_missing i [] p h m = elim m [ ]
payment_id_used_missing i (q ∷ ps) p h (Memᴰ.head e) = rw e (ground arith)
payment_id_used_missing i (q ∷ ps) p h (Memᴰ.tail m) =
    payment_id_used_missing i ps p (ground arith) m

pub payment_of_id :
    (ps : List Payment) (p q : Payment)
    → IsDistinct ps
    → Memᴰ p ps
    → Memᴰ q ps
    → p.id ≡ q.id
    → p ≡ q
payment_of_id [] p q d i j e = elim i [ ]
payment_of_id (r ∷ ps) p q d (Memᴰ.head a) (Memᴰ.head b) e = a ∙ sym b
payment_of_id (r ∷ ps) p q d (Memᴰ.head a) (Memᴰ.tail j) e =
    elim (payment_id_used_missing r.id ps q d.0 j (sym e ∙ ap (λ (x : Payment). x.id) a)) [ ]
payment_of_id (r ∷ ps) p q d (Memᴰ.tail i) (Memᴰ.head b) e =
    elim (payment_id_used_missing r.id ps p d.0 i (e ∙ ap (λ (x : Payment). x.id) b)) [ ]
payment_of_id (r ∷ ps) p q d (Memᴰ.tail i) (Memᴰ.tail j) e = payment_of_id ps p q d.2 i j e

pub payment_of_order :
    (ps : List Payment) (p q : Payment)
    → IsDistinct ps
    → Memᴰ p ps
    → Memᴰ q ps
    → text_eq p.order_id q.order_id ≡ true
    → p ≡ q
payment_of_order [] p q d i j e = elim i [ ]
payment_of_order (r ∷ ps) p q d (Memᴰ.head a) (Memᴰ.head b) e = a ∙ sym b
payment_of_order (r ∷ ps) p q d (Memᴰ.head a) (Memᴰ.tail j) e =
    let same = (text_eq_iff p.order_id q.order_id).0 e in
    let other = find_payment_missing r.order_id ps q d.1 j in
    cc (other, text_eq_refl q.order_id, same, a)
payment_of_order (r ∷ ps) p q d (Memᴰ.tail i) (Memᴰ.head b) e =
    let other = find_payment_missing r.order_id ps p d.1 i in cc (other, e, b)
payment_of_order (r ∷ ps) p q d (Memᴰ.tail i) (Memᴰ.tail j) e = payment_of_order ps p q d.2 i j e
