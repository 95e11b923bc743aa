-- ===== src/Chat/Coordinator/Slots.antt =====
-- The slot as its holders see it, without the text of the key.
use project_aria.Common.{
  ◌≡◌, ◌≤◌, ◌<◌, refl, ap, sym, ◌∙◌, Bool, true, false, not, Option, none, some, List, [], ◌∷◌,
  ◌++◌, ◌==◌, if◌then◌else◌, leb, arith, All, Memᴰ, Bool-cases, inl, inr,
}
use project_aria.Common.Text.{Text, text_eq, text_eq_iff, decimal}
use project_aria.Chat.Coordinator.{
  ChatSource, superchat, chat, story, idle, system, priority_of, ResponseSlot, lock_value,
  before_colon, held_priority, held_token, Lock, is_blocked, try_acquire, holds, still_holds,
  release,
}

-- `uuid4().hex` has no colon.
abbrev pub IsToken : Text → Type 0
IsToken t = All (λ c. c == b':' ≡ false) t

before_colon-append : (t rest : Text) → IsToken t → before_colon (t ++ (b':' ∷ rest)) ≡ t
before_colon-append [] rest h = refl
before_colon-append (c ∷ t) rest h = rw (h.0, before_colon-append t rest h.1)

held_priority-lock_value : (s : ResponseSlot) → held_priority (lock_value s) ≡ priority_of s.source
unfolding held_priority decimal
held_priority-lock_value s = of_source s.source s.token
  where
    of_source :
        (x : ChatSource) (t : Text)
        → held_priority (lock_value (record { source = x; token = t })) ≡ priority_of x
    of_source superchat t = refl
    of_source chat t = refl
    of_source story t = refl
    of_source idle t = refl
    of_source system t = refl

held_token-lock_value : (s : ResponseSlot) → IsToken s.token → held_token (lock_value s) ≡ s.token
unfolding held_token decimal
held_token-lock_value s h = of_source s.source s.token h
  where
    of_source :
        (x : ChatSource) (t : Text)
        → IsToken t
        → held_token (lock_value (record { source = x; token = t })) ≡ t
    of_source superchat t h = before_colon-append t _ h
    of_source chat t h = before_colon-append t _ h
    of_source story t h = before_colon-append t _ h
    of_source idle t h = before_colon-append t _ h
    of_source system t h = before_colon-append t _ h

-- Who holds the slot, as the key has it
abbrev pub encode : Option ResponseSlot → Lock
encode none = none
encode (some s) = some (lock_value s)

abbrev pub IsFenced : Option ResponseSlot → Type 0
IsFenced none = Unit
IsFenced (some s) = IsToken s.token

abbrev yields : ChatSource → Option ResponseSlot → Bool
yields source none = true
yields source (some s) = not (leb (priority_of source) (priority_of s.source))

-- The promise: a request gets the slot if nobody holds it or its priority is higher.
abbrev pub acquire_slot :
    ChatSource → Text → Option ResponseSlot → Option ResponseSlot × Option ResponseSlot
acquire_slot source token holder =
    let new : ResponseSlot = record { source = source; token = token } in
    if yields source holder then (some new, some new) else (none, holder)

abbrev pub is_holder : ResponseSlot → Option ResponseSlot → Bool
is_holder s none = false
is_holder s (some h) = text_eq h.token s.token

abbrev pub release_slot : ResponseSlot → Option ResponseSlot → Option ResponseSlot
release_slot s holder = if is_holder s holder then none else holder

holds-encode :
    (s : ResponseSlot) (holder : Option ResponseSlot)
    → IsFenced holder
    → holds s (encode holder) ≡ is_holder s holder
holds-encode s none f = refl
holds-encode s (some h) f = rw (held_token-lock_value h f)

-- On a key that the code has written with tokens without a colon, the three commands do what the
-- holders see: acquiring takes a free slot or one of lower priority and leaves any other, holding
-- compares tokens, and releasing frees the slot of its own token only.
pub commands-refine :
    (source : ChatSource) (token : Text) (s : ResponseSlot) (holder : Option ResponseSlot)
    → IsFenced holder
    → (try_acquire source token [] (encode holder)
        ≡ ((acquire_slot source token holder).0, encode (acquire_slot source token holder).1))
      × (still_holds s (encode holder) ≡ is_holder s holder)
      × (release s [] (encode holder) ≡ encode (release_slot s holder))
unfolding try_acquire still_holds release
commands-refine source token s none f = (refl, refl, refl)
commands-refine source token s (some h) f = (
  elim (Bool-cases (leb (priority_of source) (priority_of h.source))) [
    | inl low ↦ rw (held_priority-lock_value h, low)
    | inr high ↦ rw (held_priority-lock_value h, high)
  ],
  rw (held_token-lock_value h f),
  elim (Bool-cases (text_eq h.token s.token)) [
    | inl own ↦ rw (held_token-lock_value h f, own)
    | inr other ↦ rw (held_token-lock_value h f, other)
  ],
)

-- However many transactions fail, `try_acquire` decides by one value that the key had meanwhile, as
-- if it had run alone then.
pub try_acquire-atomic :
    (source : ChatSource) (token : Text) (changes : List Lock) (lock : Lock)
    → (l : Lock) × Memᴰ l (lock ∷ changes)
      × (try_acquire source token changes lock ≡ try_acquire source token [] l)
unfolding try_acquire
try_acquire-atomic source token [] lock = (lock, Memᴰ.head refl, refl)
try_acquire-atomic source token (change ∷ changes) lock =
    elim (Bool-cases (is_blocked (priority_of source) lock)) [
      | inl blocked ↦ (lock, Memᴰ.head refl, rw blocked)
      | inr open_ ↦
          let (l, here, same) = try_acquire-atomic source token changes change in
          (l, Memᴰ.tail here, rw open_ same)
    ]

-- Two slots that hold the key at the same time have one token: no two responses of a room are both
-- let through.
pub still_holds_unique :
    (s t : ResponseSlot) (lock : Lock)
    → still_holds s lock ≡ true
    → still_holds t lock ≡ true
    → s.token ≡ t.token
unfolding still_holds
still_holds_unique s t none hs ht = cc
still_holds_unique s t (some current) hs ht =
    sym ((text_eq_iff (held_token current) s.token).0 hs)
    ∙ (text_eq_iff (held_token current) t.token).0 ht

-- What other clients may do to the key
pub data Command : Type 0 where
  acquire : ChatSource → Text → Command
  give_up : ResponseSlot → Command

abbrev pub perform : Command → Lock → Lock
perform (acquire source token) lock = (try_acquire source token [] lock).1
perform (give_up s) lock = release s [] lock

unfoldable pub perform_all : List Command → Lock → Lock
perform_all [] lock = lock
perform_all (c ∷ cs) lock = perform_all cs (perform c lock)

-- A request of no higher priority, or a release with another token
abbrev pub IsHarmless : ResponseSlot → Command → Type 0
IsHarmless s (acquire source token) = priority_of source ≤ priority_of s.source
IsHarmless s (give_up t) = text_eq s.token t.token ≡ false

perform_harmless :
    (s : ResponseSlot) (c : Command)
    → IsToken s.token
    → IsHarmless s c
    → perform c (encode (some s)) ≡ encode (some s)
perform_harmless s (acquire source token) f low =
    let r = (commands-refine source token s (some s) f).0 in
    ap (λ (p : Option ResponseSlot × Lock). p.1) r ∙ ground arith
perform_harmless s (give_up t) f other =
    (commands-refine s.source s.token t (some s) f).2 ∙ rw other

-- A slot once acquired stays with its holder, until its key expires, through any requests of no
-- higher priority and any releases by others, late ones of slots it has preempted among them.
pub holder_stays :
    (s : ResponseSlot) (cs : List Command)
    → IsToken s.token
    → All (IsHarmless s) cs
    → perform_all cs (encode (some s)) ≡ encode (some s)
unfolding perform_all
holder_stays s [] f a = refl
holder_stays s (c ∷ cs) f a = rw (perform_harmless s c f a.0) (holder_stays s cs f a.1)

-- A request of higher priority takes the slot from its holder at once, with a new token: the old
-- holder no longer holds it, and its late release leaves the new holder's slot as it is.
pub preempted :
    (s : ResponseSlot) (source : ChatSource) (token : Text)
    → IsToken s.token
    → IsToken token
    → priority_of s.source < priority_of source
    → text_eq token s.token ≡ false
    → let new : ResponseSlot = record { source = source; token = token } in
      (try_acquire source token [] (encode (some s)) ≡ (some new, encode (some new)))
      × (still_holds s (encode (some new)) ≡ false)
      × (release s [] (encode (some new)) ≡ encode (some new))
preempted s source token f g higher other =
    let new : ResponseSlot = record { source = source; token = token } in
    let low : leb (priority_of source) (priority_of s.source) ≡ false = ground arith in
    (
      (commands-refine source token s (some s) f).0 ∙ rw low,
      (commands-refine source token s (some new) g).1 ∙ other,
      (commands-refine source token s (some new) g).2 ∙ rw other,
    )
