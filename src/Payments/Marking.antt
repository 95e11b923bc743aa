-- ===== src/Payments/Marking.antt =====
-- What `mark_published` does to the rows of the outbox.
use project_aria.Common.{
  ℕ, ◌≡◌, refl, ap, sym, ◌∙◌, true, false, List, [], ◌∷◌, ◌==◌, arith, if◌then◌else◌, All, All-Memᴰ,
  All-intro, Memᴰ, Bool-cases, inl, inr,
}
use project_aria.Payments.Model.{Payment, OutboxMessage}
use project_aria.Payments.Repository.{Db, message_id_used, mark, mark_published}
use project_aria.Payments.Draining.{IsKeyed, IsKeyed-mark}
use project_aria.Payments.Contract.{Purpose}
use project_aria.Payments.Explained.{Tells, IsOwed, IsAnnounced, IsExplained}

abbrev pub stamp : ℕ → OutboxMessage → OutboxMessage
stamp i m = if m.id == i then record m { published = true } else m

stamp-same :
    (i : ℕ) (m : OutboxMessage) → ((stamp i m).topic ≡ m.topic) × ((stamp i m).payload ≡ m.payload)
stamp-same i m = elim (Bool-cases (m.id == i)) [
  | inl hit ↦ rw hit (refl, refl)
  | inr miss ↦ rw miss (refl, refl)
]

pub All-mark :
    (P : OutboxMessage → Type 0) (i : ℕ) (ms : List OutboxMessage)
    → ((m : OutboxMessage) → Memᴰ m ms → P (stamp i m))
    → All P (mark i ms)
All-mark P i [] f = tt
All-mark P i (m ∷ ms) f = (f m (Memᴰ.head refl), All-mark P i ms λ n j. f n (Memᴰ.tail j))

Memᴰ-stamp :
    (i : ℕ) (m : OutboxMessage) (ms : List OutboxMessage) → Memᴰ m ms → Memᴰ (stamp i m) (mark i ms)
Memᴰ-stamp i m [] j = elim j [ ]
Memᴰ-stamp i m (n ∷ ms) (Memᴰ.head e) = Memᴰ.head (ap (stamp i) e)
Memᴰ-stamp i m (n ∷ ms) (Memᴰ.tail j) = Memᴰ.tail (Memᴰ-stamp i m ms j)

Tells-stamp :
    (k : Purpose) (i : ℕ) (m : OutboxMessage) (p : Payment) → Tells k m p → Tells k (stamp i m) p
Tells-stamp k i m p t = (rw ((stamp-same i m).0) t.0, rw ((stamp-same i m).1) t.1)

pub mark_published-IsExplained :
    (i : ℕ) (db : Db) → IsExplained db → IsExplained (mark_published i db)
unfolding mark_published
mark_published-IsExplained i db e = record {
  backed = e.backed;
  distinct = e.distinct;
  keyed = IsKeyed-mark i db.outbox e.keyed;
  owed =
      All-mark (IsOwed db.payments) i db.outbox
        λ m j. owed_stamp m (All-Memᴰ (IsOwed db.payments) db.outbox m e.owed j);
  announced =
      All-intro _ db.payments
        λ p j. announced_stamp p (All-Memᴰ (IsAnnounced db.outbox) db.payments p e.announced j);
}
  where
    owed_stamp : (m : OutboxMessage) → IsOwed db.payments m → IsOwed db.payments (stamp i m)
    owed_stamp m (k, p, j, tells, due) = (k, p, j, Tells-stamp k i m p tells, due)

    announced_stamp : (p : Payment) → IsAnnounced db.outbox p → IsAnnounced (mark i db.outbox) p
    announced_stamp p a k due =
        let (m, j, tells) = a k due in
        (stamp i m, Memᴰ-stamp i m db.outbox j, Tells-stamp k i m p tells)

message_id_used_missing :
    (i : ℕ) (ms : List OutboxMessage) (m : OutboxMessage)
    → message_id_used i ms ≡ false
    → Memᴰ m ms
    → m.id == i ≡ false
message_id_used_missing i [] m h j = elim j [ ]
message_id_used_missing i (n ∷ ms) m h (Memᴰ.head e) = rw e (ground arith)
message_id_used_missing i (n ∷ ms) m h (Memᴰ.tail j) =
    message_id_used_missing i ms m (ground arith) j

pub message_of_id :
    (ms : List OutboxMessage) (m n : OutboxMessage)
    → IsKeyed ms
    → Memᴰ m ms
    → Memᴰ n ms
    → m.id == n.id ≡ true
    → m ≡ n
message_of_id [] m n k i j e = elim i [ ]
message_of_id (o ∷ ms) m n k (Memᴰ.head a) (Memᴰ.head b) e = a ∙ sym b
message_of_id (o ∷ ms) m n k (Memᴰ.head a) (Memᴰ.tail j) e =
    let other = message_id_used_missing o.id ms n k.0 j in ground (arith, a, other, e)
message_of_id (o ∷ ms) m n k (Memᴰ.tail i) (Memᴰ.head b) e =
    let other = message_id_used_missing o.id ms m k.0 i in ground (arith, b, other, e)
message_of_id (o ∷ ms) m n k (Memᴰ.tail i) (Memᴰ.tail j) e = message_of_id ms m n k.1 i j e
