-- ===== src/Chat/Newest.antt =====
-- The order of a timeline, and what a condition on its messages leaves of it.
use mathlib.Core.List.Perm
use mathlib.Core.List.{Perm}
use project_aria.Common.{
  ◌<◌, ◌≡◌, ◌≢◌, refl, sym, ap, ◌∙◌, Bool, true, false, List, [], ◌∷◌, if◌then◌else◌, ltb, keep,
  All, All-map, arith, Bool-cases, inl, inr, if_true, if_false,
}
use project_aria.Chat.Message.{RoomMessage}
use project_aria.Chat.Transcript.{insert_latest, latest_first}

abbrev pub IsOlder : RoomMessage → RoomMessage → Type 0
IsOlder m n = n.id < m.id

-- From the newest on, each identifier once
abbrev pub IsFalling : List RoomMessage → Type 0
IsFalling [] = Unit {0}
IsFalling (m ∷ ms) = All (IsOlder m) ms × IsFalling ms

module _ (p : RoomMessage → Bool) where
  insert_first :
      (m : RoomMessage) (ms : List RoomMessage) → All (IsOlder m) ms → insert_latest m ms ≡ m ∷ ms
  insert_first m [] all = refl
  insert_first m (n ∷ ns) (h, all) = ground arith

  pub All-keep_any {κ} :
      (P : RoomMessage → Type κ) (ms : List RoomMessage) → All P ms → All P (keep p ms)
  All-keep_any P [] all = tt
  All-keep_any P (m ∷ ms) (h, all) = elim (Bool-cases (p m)) [
    | inl hit ↦ rw hit (h, All-keep_any P ms all)
    | inr miss ↦ rw miss (All-keep_any P ms all)
  ]

  pub keep-IsFalling : (ms : List RoomMessage) → IsFalling ms → IsFalling (keep p ms)
  keep-IsFalling [] falling = tt
  keep-IsFalling (m ∷ ms) (all, falling) = elim (Bool-cases (p m)) [
    | inl hit ↦ rw hit (All-keep_any (IsOlder m) ms all, keep-IsFalling ms falling)
    | inr miss ↦ rw miss (keep-IsFalling ms falling)
  ]

  keep-insert_later :
      (m n : RoomMessage) (ns : List RoomMessage)
      → ltb n.id m.id ≡ false
      → (b : Bool) → p m ≡ b
      → (c : Bool) → p n ≡ c
      → keep p (insert_latest m ns) ≡ (if p m then insert_latest m (keep p ns) else keep p ns)
      → keep p (insert_latest m (n ∷ ns))
        ≡ (if p m then insert_latest m (keep p (n ∷ ns)) else keep p (n ∷ ns))
  keep-insert_later m n ns later true pm true pn ih = rw (later, pn, ih, pm, later) refl
  keep-insert_later m n ns later true pm false pn ih = rw (later, pn, ih, pm) refl
  keep-insert_later m n ns later false pm true pn ih = rw (later, pn, ih, pm) refl
  keep-insert_later m n ns later false pm false pn ih = rw (later, pn, ih, pm) refl

  keep-insert :
      (m : RoomMessage) (ms : List RoomMessage)
      → IsFalling ms
      → keep p (insert_latest m ms) ≡ (if p m then insert_latest m (keep p ms) else keep p ms)
  keep-insert m [] falling = refl
  keep-insert m (n ∷ ns) (all, falling) = elim (Bool-cases (ltb n.id m.id)) [
    | inl first ↦
        let above : All (IsOlder m) (n ∷ ns) =
          (ground arith, All-map (IsOlder n) (IsOlder m) (λ k h. ground (arith, first)) ns all) in
        ap (keep p) (if_true _ _ first)
        ∙ ap (λ ks. if p m then ks else keep p (n ∷ ns))
            (sym (insert_first m (keep p (n ∷ ns)) (All-keep_any (IsOlder m) (n ∷ ns) above)))
    | inr later ↦ keep-insert_later m n ns later (p m) refl (p n) refl (keep-insert m ns falling)
  ]

abbrev pub IsOther : RoomMessage → RoomMessage → Type 0
IsOther m n = n.id ≢ m.id

-- Each identifier once
abbrev pub AreApart : List RoomMessage → Type 0
AreApart [] = Unit {0}
AreApart (m ∷ ms) = All (IsOther m) ms × AreApart ms

All-insert {κ} :
    (P : RoomMessage → Type κ) (m : RoomMessage) (ms : List RoomMessage)
    → P m
    → All P ms
    → All P (insert_latest m ms)
All-insert P m [] h all = (h, tt)
All-insert P m (n ∷ ns) h (k, all) = elim (Bool-cases (ltb n.id m.id)) [
  | inl first ↦ rw first (h, (k, all))
  | inr later ↦ rw later (k, All-insert P m ns h all)
]

All-newest {κ} :
    (P : RoomMessage → Type κ) (ms : List RoomMessage) → All P ms → All P (latest_first ms)
All-newest P [] all = tt
All-newest P (m ∷ ms) (h, all) = All-insert P m (latest_first ms) h (All-newest P ms all)

insert-IsFalling :
    (m : RoomMessage) (ms : List RoomMessage)
    → All (IsOther m) ms
    → IsFalling ms
    → IsFalling (insert_latest m ms)
insert-IsFalling m [] other falling = (tt, tt)
insert-IsFalling m (n ∷ ns) (apart, other) (below, falling) = elim (Bool-cases (ltb n.id m.id)) [
  | inl first ↦ rw first (
    (
      ground (arith, first),
      All-map (IsOlder n) (IsOlder m) (λ k h. ground (arith, first)) ns below,
    ),
    (below, falling),
  )
  | inr later ↦ rw later (
    All-insert (IsOlder n) m ns (ground (arith, apart)) below,
    insert-IsFalling m ns other falling,
  )
]

pub latest_first-IsFalling : (ms : List RoomMessage) → AreApart ms → IsFalling (latest_first ms)
latest_first-IsFalling [] apart = tt
latest_first-IsFalling (m ∷ ms) (other, apart) =
    insert-IsFalling m (latest_first ms) (All-newest (IsOther m) ms other)
      (latest_first-IsFalling ms apart)

pub latest_first-keep :
    (p : RoomMessage → Bool) (ms : List RoomMessage)
    → AreApart ms
    → latest_first (keep p ms) ≡ keep p (latest_first ms)
latest_first-keep p [] apart = refl
latest_first-keep p (m ∷ ms) (other, apart) = elim (Bool-cases (p m)) [
  | inl hit ↦
      rw (hit, latest_first-keep p ms apart)
        (sym
          (keep-insert p m (latest_first ms) (latest_first-IsFalling ms apart) ∙ if_true _ _ hit))
  | inr miss ↦
      rw (miss, latest_first-keep p ms apart)
        (sym
          (keep-insert p m (latest_first ms) (latest_first-IsFalling ms apart) ∙ if_false _ _ miss))
]

insert-Perm : (m : RoomMessage) (ms : List RoomMessage) → Perm (insert_latest m ms) (m ∷ ms)
insert-Perm m [] = Perm.rfl
insert-Perm m (n ∷ ns) = elim (Bool-cases (ltb n.id m.id)) [
  | inl first ↦ rw first Perm.rfl
  | inr later ↦ rw later (Perm.trans (Perm.cons n (insert-Perm m ns)) (Perm.swap m n ns))
]

pub latest_first-Perm : (ms : List RoomMessage) → Perm (latest_first ms) ms
latest_first-Perm [] = Perm.rfl
latest_first-Perm (m ∷ ms) =
    Perm.trans (insert-Perm m (latest_first ms)) (Perm.cons m (latest_first-Perm ms))
