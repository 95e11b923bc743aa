-- ===== src/Payments/Serving.antt =====
-- The requests over the payments and their outbox, in any order.
use project_aria.Common.{
  ◌≡◌, refl, false, none, some, List, [], ◌∷◌, arith, All-Memᴰ, All-intro, Memᴰ, Bool-cases, inl,
  inr,
}
use project_aria.Common.Text.{Text, text_eq, text_eq_iff}
use project_aria.Common.Uuid.{IsUuid}
use project_aria.Payments.Model.{Payment, pending, OutboxMessage}
use project_aria.Payments.Repository.{Db, find_payment, update_payment}
use project_aria.Payments.Contract.{Purpose, grants, takes_back, owes, IsBacked}
use project_aria.Payments.Explained.{IsOwed, IsExplained, IsSame, find_payment-Memᴰ}
use project_aria.Payments.Saving.{save_with_outbox-IsExplained, touch, touch-IsSame, touched}
use project_aria.Payments.Written.{Advances, stays}
use project_aria.Payments.Requests.{Request, serve, IsDrawn, IsAdded, serve-cases}

pub IsOwed-cons :
    (p : Payment) (ps : List Payment) (m : OutboxMessage) → IsOwed ps m → IsOwed (p ∷ ps) m
IsOwed-cons p ps m (k, q, i, tells, due) = (k, q, Memᴰ.tail i, tells, due)

IsAdded-IsExplained :
    (db db' : Db) (a : IsAdded db db')
    → IsUuid a.payment.id
    → IsUuid a.payment.user_id
    → IsExplained db
    → IsExplained db'
IsAdded-IsExplained db db' a i u e = rw a.written (record {
  backed = (record { id_IsUuid = i; user_IsUuid = u; credits = a.positive }, e.backed);
  distinct = (a.new_id, a.new_order, e.distinct);
  keyed = e.keyed;
  owed = All-intro _ db.outbox λ m j.
      IsOwed-cons a.payment db.payments m (All-Memᴰ (IsOwed db.payments) db.outbox m e.owed j);
  announced = (λ k due. cc (a.status, owes_nothing k, due), e.announced);
})
  where
    owes_nothing : (k : Purpose) → owes k pending ≡ false
    owes_nothing grants = refl
    owes_nothing takes_back = refl

-- A request whose new payment has UUIDs keeps the two tables in step, whatever it asks, whatever
-- the gateway answers, and however it ends: each outbox row still tells of a payment whose status
-- owes it, and each payment still has the rows that its status owes.
pub serve-IsExplained :
    (r : Request) (db : Db) → IsDrawn r → IsExplained db → IsExplained (serve r db)
serve-IsExplained r db drawn e = elim (serve-cases r db drawn) [
  | inl same ↦ rw same e
  | inr (inl (a, i, u)) ↦ IsAdded-IsExplained db (serve r db) a i u e
  | inr (inr w) ↦ rw w.written (
      save_with_outbox-IsExplained w.purpose w.old w.new w.message db e w.member
        (w.step (All-Memᴰ IsBacked db.payments w.old e.backed w.member)) w.fresh)
]

-- The row of an order, after the update of some row
pub find_payment-touch :
    (order : Text) (q p : Payment) (ps : List Payment)
    → find_payment order ps ≡ some p
    → find_payment order (update_payment q ps) ≡ some (touch q p)
unfolding update_payment
find_payment-touch order q p [] h = cc
find_payment-touch order q p (r ∷ ps) h = elim (Bool-cases (text_eq r.order_id order)) [
  | inl hit ↦ let e : r ≡ p = ground arith in rw ((touch-IsSame q r).order_id, hit, e)
  | inr miss ↦
      rw ((touch-IsSame q r).order_id, miss) (find_payment-touch order q p ps (rw miss at h))
]

-- A payment in the tables stays there through any request, with the same user, amount and credits,
-- and its status stays, or goes from pending to confirmed, or from confirmed to refunded.
pub serve-Advances :
    (r : Request) (db : Db) (order : Text) (p : Payment)
    → IsDrawn r
    → IsExplained db
    → find_payment order db.payments ≡ some p
    → (q : Payment) × (find_payment order (serve r db).payments ≡ some q)
      × IsSame p q
      × Advances p.status q.status
serve-Advances r db order p drawn e found = elim (serve-cases r db drawn) [
  | inl same ↦ (p, rw same found, unchanged, stays p.status)
  | inr (inl (a, i, u)) ↦ (p, rw a.written (kept a.payment a.new_order), unchanged, stays p.status)
  | inr (inr w) ↦ (
    touch w.new p,
    rw w.written (find_payment-touch order w.new p db.payments found),
    touch-IsSame w.new p,
    elim (touched w.purpose w.old w.new w.message db e w.member
        (w.step (All-Memᴰ IsBacked db.payments w.old e.backed w.member)) p
        (find_payment-Memᴰ order db.payments p found).0) [
          | inl (new, own) ↦ rw (new, own) w.advances
          | inr old ↦ rw old (stays p.status)
        ],
  )
]
  where
    unchanged : IsSame p p
    unchanged = record { id = refl; user_id = refl; order_id = refl; amount = refl; credits = refl }

    kept :
        (a : Payment)
        → find_payment a.order_id db.payments ≡ none
        → find_payment order (a ∷ db.payments) ≡ some p
    kept a free = elim (Bool-cases (text_eq a.order_id order)) [
      | inl hit ↦ cc (found, free, (text_eq_iff a.order_id order).0 hit)
      | inr miss ↦ rw miss found
    ]
