-- ===== src/Chat/Coordinator.antt =====
-- chat/domain/source.py and chat/adapter/outbound/redis/coordinator.py: the slot of a room, as the
-- text that its Redis key holds. A command that loses its WATCH reads again.
pub mod Slots
use project_aria.Common.{
  ℕ, suc, ◌+◌, ◌-◌, ◌*◌, Bool, true, false, ◌&&◌, not, Option, none, some, is_some, List, [], ◌∷◌,
  ◌++◌, ◌==◌, if◌then◌else◌, leb, ltb, length,
}
use project_aria.Common.Text.{Text, codes, text_eq, decimal}

pub data ChatSource : Type 0 where
  superchat chat story idle system : ChatSource

-- `ChatSource.value`
abbrev pub source_value : ChatSource → Text
source_value superchat = codes "superchat"
source_value chat = codes "chat"
source_value story = codes "story"
source_value idle = codes "idle"
source_value system = codes "system"

-- `priority_of`
abbrev pub priority_of : ChatSource → ℕ
priority_of superchat = 3
priority_of chat = 2
priority_of story = 1
priority_of idle = 1
priority_of system = 0

pub record ResponseSlot : Type 0 where
  pub source : ChatSource
  pub token : Text

-- `f"{priority}:{token}:{source}"`
abbrev pub lock_value : ResponseSlot → Text
lock_value s =
    decimal (priority_of s.source) ++ (b':' ∷ (s.token ++ (b':' ∷ source_value s.source)))

-- The text before the first colon, and what follows it: `split(":", 1)`
abbrev pub before_colon : Text → Text
before_colon [] = []
before_colon (c ∷ t) = let rest = before_colon t in if c == b':' then [] else c ∷ rest

abbrev pub after_colon : Text → Text
after_colon [] = []
after_colon (c ∷ t) = let rest = after_colon t in if c == b':' then t else rest

-- `int` of a text of digits
abbrev digits_of : ℕ → Text → ℕ
digits_of n [] = n
digits_of n (c ∷ t) = digits_of (n * 10 + (c - b'0')) t

-- `int(current.split(":", 1)[0])`
unfoldable pub held_priority : Text → ℕ
held_priority current = digits_of 0 (before_colon current)

-- `current.split(":", 2)[1]`
unfoldable pub held_token : Text → Text
held_token current = before_colon (after_colon current)

-- What the key holds; its expiry is a step of its own.
abbrev pub Lock : Type 0
Lock = Option Text

-- Whether a request with this priority is turned away
abbrev pub is_blocked : ℕ → Lock → Bool
is_blocked priority none = false
is_blocked priority (some current) = leb priority (held_priority current)

-- `try_acquire` with a new token. Each change is what the key holds after another client's write
-- between a WATCH and its EXEC: the transaction fails and the loop reads again. Without a change
-- the transaction goes through; a request that is turned away has none.
unfoldable pub try_acquire :
    ChatSource → (token : Text) → (changes : List Lock) → Lock → Option ResponseSlot × Lock
unfolding held_priority
try_acquire source token [] lock = if is_blocked (priority_of source) lock then (none, lock) else (
  some (record { source = source; token = token }),
  some (lock_value (record { source = source; token = token })),
)
try_acquire source token (change ∷ changes) lock =
    let again = try_acquire source token changes change in
    if is_blocked (priority_of source) lock then (none, lock) else again

-- `is_busy`
unfoldable pub is_busy : Lock → Bool
is_busy lock = is_some lock

-- Whether the key holds this slot's token
abbrev pub holds : ResponseSlot → Lock → Bool
holds s none = false
holds s (some current) = text_eq (held_token current) s.token

-- `still_holds`
unfoldable pub still_holds : ResponseSlot → Lock → Bool
unfolding held_token
still_holds s lock = holds s lock

-- `release`, with the changes that its transactions lose to
unfoldable pub release : ResponseSlot → (changes : List Lock) → Lock → Lock
unfolding held_token
release s [] lock = if holds s lock then none else lock
release s (change ∷ changes) lock =
    let again = release s changes change in if holds s lock then again else lock
