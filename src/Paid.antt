-- ===== src/Paid.antt =====
-- The two services together: payments requests, the relay, the broker, and the wallet's consumer.

mod Tests
use project_aria.Common.{
  ℕ, ◌≡◌, ◌⊎◌, refl, ap, sym, ◌∙◌, subst, Bool, true, false, Option, none, some, List, [], ◌∷◌,
  ◌++◌, arith, not, keep, All, All-Memᴰ, All-intro, Memᴰ, Bool-cases, inl, inr, if◌then◌else◌,
}
use project_aria.Common.Int.{ℤ, neg}
use project_aria.Common.Error.{Result, ok, err}
use project_aria.Common.Text.{Text, text_eq, text_eq_refl}
use project_aria.Common.Uuid.{IsUuid}
use project_aria.Wallet.Model.{CreditTransaction}
use project_aria.Wallet.Repository.Tables.{Db, key_used, id_used}
use project_aria.Wallet.Repository.Consistency.{IsConsistent}
use project_aria.Wallet.Events.{CreditEvent, from_payload, credit_purchase_confirmed}
use project_aria.Wallet.Consumer as Wallet
use project_aria.Wallet.Consuming.{consume-IsConsistent}
use project_aria.Wallet.Deliveries.{row_of}
use project_aria.Wallet.Delivery.{Delivery, deliver, deliver_all, deliver-Extends}
use project_aria.Wallet.Once.{Agrees, amounts, purchase_once}
use project_aria.Payments.Model.{Payment, PaymentStatus, OutboxMessage}
use project_aria.Payments.Repository.{unpublished}
use project_aria.Payments.Relay.{World}
use project_aria.Payments.Contract.{
  Purpose, grants, takes_back, topic_of, key_of, event_of, owes, IsBacked, key_of-injective,
  event_of-IsSound,
}
use project_aria.Payments.Explained.{Tells, IsOwed, IsAnnounced, IsExplained, payment_of_id}
use project_aria.Payments.Publishing.{
  IsSound, IsLogged, Event, IsFair, handle_all, handle_all-IsSound, start, start-IsSound,
}

published_of :
    (ms : List OutboxMessage) (m : OutboxMessage)
    → unpublished ms ≡ []
    → Memᴰ m ms
    → m.published ≡ true
published_of [] m h j = elim j [ ]
published_of (n ∷ ms) m h (Memᴰ.head e) = rw e (ground arith)
published_of (n ∷ ms) m h (Memᴰ.tail j) = published_of ms m (ground arith) j

-- A delivery that hands over a message of the log
abbrev pub Carries : List OutboxMessage → Delivery → Type 0
Carries log d = (n : OutboxMessage) × Memᴰ n log × (d.topic ≡ n.topic) × (d.payload ≡ n.payload)

module _ (w : World) (s : IsSound w) where
  logged_of :
      (p : Payment)
      → Memᴰ p w.db.payments
      → (k : Purpose) → owes k p.status ≡ true
      → unpublished w.db.outbox ≡ []
      → (n : OutboxMessage) × Memᴰ n w.log × Tells k n p
  logged_of p i k due drained =
      let (m, j, tells) =
        All-Memᴰ (IsAnnounced w.db.outbox) w.db.payments p s.explained.announced i k due in
      let (n, here, topic, payload) =
        All-Memᴰ (λ m'. m'.published ≡ true → IsLogged w.log m') w.db.outbox m s.published j
          (published_of w.db.outbox m drained j) in
      (n, here, (topic ∙ tells.0, rw payload tells.1))

  IsBacked-of : (p : Payment) → Memᴰ p w.db.payments → IsBacked p
  IsBacked-of p i = All-Memᴰ IsBacked w.db.payments p s.explained.backed i

  -- A delivery of the log that uses the key of a payment's grant is that grant.
  Carries-Agrees :
      (p : Payment) (d : Delivery)
      → Memᴰ p w.db.payments
      → Carries w.log d
      → Agrees (key_of grants p.id) p.user_id p.credits d
  Carries-Agrees p d i (n, j, topic, payload) e read used =
      let (k, q, iq, tells, due) = All-Memᴰ (IsOwed w.db.payments) w.log n s.logged j in
      let same : event_of k q ≡ e = ground (arith, tells.1, payload, read) in
      let (kind, ids) =
        key_of-injective k grants q.id p.id (IsBacked-of q iq).id_IsUuid (IsBacked-of p i).id_IsUuid
          (ap (λ (x : CreditEvent). x.idempotency_key) same ∙ used) in
      let own : q ≡ p = payment_of_id w.db.payments q p s.explained.distinct iq i ids in
      (
        topic ∙ tells.0 ∙ ap topic_of kind,
        ap (λ (x : CreditEvent). x.user_id) (sym same) ∙ ap (λ (x : Payment). x.user_id) own,
        ap (λ (x : CreditEvent). x.credits) (sym same) ∙ ap (λ (x : Payment). x.credits) own,
      )

-- After any requests and polls from the empty database, once the outbox is drained, each payment
-- whose status is confirmed or refunded has its grant in the broker's log, and each refunded one
-- its refund, as the wallet reads them. The condition is that new payments have UUIDs.
pub paid-IsLogged :
    (es : List Event) (p : Payment) (k : Purpose)
    → All IsFair es
    → Memᴰ p (handle_all es start).db.payments
    → owes k p.status ≡ true
    → unpublished (handle_all es start).db.outbox ≡ []
    → (n : OutboxMessage) × Memᴰ n (handle_all es start).log × Tells k n p
paid-IsLogged es p k fair i due drained =
    logged_of (handle_all es start) (handle_all-IsSound es start fair start-IsSound) p i k due
      drained

-- However the wallet's consumer gets the messages of the broker's log, repeated and in any order,
-- if the grant of a payment is delivered at all, the ledger ends with one row under its key, which
-- gives the payment's credits to its user. The ledger begins consistent and without the key, the
-- row identifier that the delivery draws is new, and new payments have UUIDs.
pub paid_once :
    (es : List Event) (p : Payment) (before after : List Delivery) (d : Delivery) (v : Wallet.World)
    → All IsFair es
    → Memᴰ p (handle_all es start).db.payments
    → from_payload d.payload ≡ ok (event_of grants p)
    → All (Carries (handle_all es start).log) (before ++ d ∷ after)
    → IsConsistent v.db
    → key_used (some (key_of grants p.id)) v.db.ledger ≡ false
    → id_used d.id (deliver_all before v).db.ledger ≡ false
    → amounts (key_of grants p.id) (deliver_all (before ++ d ∷ after) v).db.ledger
      ≡ (p.user_id, p.credits) ∷ []
paid_once es p before after d v fair i read carried h unused fresh =
    let w = handle_all es start in
    let s = handle_all-IsSound es start fair start-IsSound in
    let agree =
      All-intro (Agrees (key_of grants p.id) p.user_id p.credits) (before ++ d ∷ after) (λ x j.
        Carries-Agrees w s p x i (All-Memᴰ (Carries w.log) (before ++ d ∷ after) x carried j)) in
    purchase_once before after d (event_of grants p) v h unused
      (All-Memᴰ (Agrees (key_of grants p.id) p.user_id p.credits) (before ++ d ∷ after) d agree
        (middle before) (event_of grants p) read refl).0
      read (event_of-IsSound grants p (IsBacked-of w s p i)) fresh agree
  where
    middle : (ds : List Delivery) → Memᴰ d (ds ++ d ∷ after)
    middle [] = Memᴰ.head refl
    middle (x ∷ ds) = Memᴰ.tail (middle ds)

-- A row of the wallet's ledger that a payment accounts for
abbrev pub IsPaid : List Payment → CreditTransaction → Type 0
IsPaid ps row =
    (k : Purpose) × (p : Payment) × Memᴰ p ps
    × (owes k p.status ≡ true)
    × (row.idempotency_key ≡ some (key_of k p.id))
    × (row.user_id ≡ p.user_id)
    × (row.delta ≡ elim k [ grants ↦ p.credits | takes_back ↦ neg p.credits ])

row_of-IsPaid :
    (ps : List Payment) (topic : Text) (id : ℕ) (k : Purpose) (p : Payment)
    → Memᴰ p ps
    → owes k p.status ≡ true
    → topic ≡ topic_of k
    → IsPaid ps (row_of topic id (event_of k p))
unfolding text_eq
row_of-IsPaid ps topic id grants p i due e = rw e (grants, p, i, due, refl, refl, refl)
row_of-IsPaid ps topic id takes_back p i due e = rw e (takes_back, p, i, due, refl, refl, refl)

deliver-IsPaid :
    (w : World) (d : Delivery) (v : Wallet.World)
    → IsSound w
    → Carries w.log d
    → IsConsistent v.db
    → All (IsPaid w.db.payments) v.db.ledger
    → All (IsPaid w.db.payments) (deliver d v).db.ledger
deliver-IsPaid w d v s (n, j, topic, payload) h paid = elim (deliver-Extends d v h) [
  | inl same ↦ rw same paid
  | inr (e, read, added) ↦
      let (k, q, iq, tells, due) = All-Memᴰ (IsOwed w.db.payments) w.log n s.logged j in
      let same : event_of k q ≡ e = ground (arith, tells.1, payload, read) in
      rw (added, ← same)
        (row_of-IsPaid w.db.payments d.topic d.id k q iq due (topic ∙ tells.0), paid)
]

deliver_all-IsPaid :
    (w : World) (ds : List Delivery) (v : Wallet.World)
    → IsSound w
    → All (Carries w.log) ds
    → IsConsistent v.db
    → All (IsPaid w.db.payments) v.db.ledger
    → All (IsPaid w.db.payments) (deliver_all ds v).db.ledger
unfolding deliver_all
deliver_all-IsPaid w [] v s carried h paid = paid
deliver_all-IsPaid w (d ∷ ds) v s carried h paid =
    deliver_all-IsPaid w ds (deliver d v) s carried.1
      (consume-IsConsistent d.up d.id d.topic d.payload v h)
      (deliver-IsPaid w d v s carried.0 h paid)

-- Whatever the consumer gets of the broker's log, every row that the wallet's ledger then holds
-- belongs to a payment: a grant of its credits to its user, where its status is confirmed or
-- refunded, or their refund, where it is refunded. The wallet begins empty, and new payments have
-- UUIDs.
pub nothing_unpaid :
    (es : List Event) (ds : List Delivery) (v : Wallet.World)
    → All IsFair es
    → All (Carries (handle_all es start).log) ds
    → IsConsistent v.db
    → v.db.ledger ≡ []
    → All (IsPaid (handle_all es start).db.payments) (deliver_all ds v).db.ledger
nothing_unpaid es ds v fair carried h empty =
    deliver_all-IsPaid (handle_all es start) ds v (handle_all-IsSound es start fair start-IsSound)
      carried h (rw empty tt)
