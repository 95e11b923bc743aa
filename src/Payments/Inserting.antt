-- ===== src/Payments/Inserting.antt =====
-- What `insert_message` does to the rows of the outbox.
use project_aria.Common.{
  ℕ, ◌≡◌, refl, false, ◌||◌, List, [], ◌∷◌, ◌==◌, arith, ltb, All, Memᴰ, Bool-cases, inl, inr,
}
use project_aria.Payments.Model.{OutboxMessage}
use project_aria.Payments.Repository.{message_id_used, insert_message}
use project_aria.Payments.Draining.{IsKeyed}

-- `insert_message` adds the row and keeps the others.
pub insert_message-Memᴰ :
    (m : OutboxMessage) (ms : List OutboxMessage) → Memᴰ m (insert_message m ms)
unfolding insert_message
insert_message-Memᴰ m [] = Memᴰ.head refl
insert_message-Memᴰ m (n ∷ ns) = elim (Bool-cases (ltb m.id n.id)) [
  | inl before ↦ rw before (Memᴰ.head refl)
  | inr after ↦ rw after (Memᴰ.tail (insert_message-Memᴰ m ns))
]

pub insert_message-keeps :
    (m n : OutboxMessage) (ms : List OutboxMessage) → Memᴰ n ms → Memᴰ n (insert_message m ms)
unfolding insert_message
insert_message-keeps m n [] i = elim i [ ]
insert_message-keeps m n (o ∷ ms) (Memᴰ.head e) = elim (Bool-cases (ltb m.id o.id)) [
  | inl before ↦ rw before (Memᴰ.tail (Memᴰ.head e))
  | inr after ↦ rw after (Memᴰ.head e)
]
insert_message-keeps m n (o ∷ ms) (Memᴰ.tail i) = elim (Bool-cases (ltb m.id o.id)) [
  | inl before ↦ rw before (Memᴰ.tail (Memᴰ.tail i))
  | inr after ↦ rw after (Memᴰ.tail (insert_message-keeps m n ms i))
]

pub All-insert_message :
    (P : OutboxMessage → Type 0) (m : OutboxMessage) (ms : List OutboxMessage)
    → P m
    → All P ms
    → All P (insert_message m ms)
unfolding insert_message
All-insert_message P m [] h a = (h, tt)
All-insert_message P m (n ∷ ns) h a = elim (Bool-cases (ltb m.id n.id)) [
  | inl before ↦ rw before (h, a)
  | inr after ↦ rw after (a.0, All-insert_message P m ns h a.1)
]

message_id_used-insert_message :
    (i : ℕ) (m : OutboxMessage) (ms : List OutboxMessage)
    → message_id_used i (insert_message m ms) ≡ (m.id == i || message_id_used i ms)
unfolding insert_message
message_id_used-insert_message i m [] = refl
message_id_used-insert_message i m (n ∷ ns) = elim (Bool-cases (ltb m.id n.id)) [
  | inl before ↦ rw before
  | inr after ↦ rw (after, message_id_used-insert_message i m ns) (ground arith)
]

pub IsKeyed-insert_message :
    (m : OutboxMessage) (ms : List OutboxMessage)
    → message_id_used m.id ms ≡ false
    → IsKeyed ms
    → IsKeyed (insert_message m ms)
unfolding insert_message
IsKeyed-insert_message m [] h k = (refl, tt)
IsKeyed-insert_message m (n ∷ ns) h k = elim (Bool-cases (ltb m.id n.id)) [
  | inl before ↦ rw before (h, k)
  | inr after ↦ rw after (
    ground (arith, message_id_used-insert_message n.id m ns, k.0),
    IsKeyed-insert_message m ns (ground arith) k.1,
  )
]
