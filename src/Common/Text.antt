-- ===== src/Common/Text.antt =====
-- Python strings as lists of code points, and the methods of `str` and `int` that the code calls.
use Prim.Native.Char.{code}
use Prim.Native.Nat.{ℕ, zero, suc, ◌+◌, ◌-◌, ◌*◌, ◌/◌, ◌%◌, ◌<◌}
use Prim.Native.String.{String}
use mathlib.Core.Path.{◌≡◌, refl}
use mathlib.Core.Logic.{◌↔◌, inl, inr}
use mathlib.Core.Bool.{Bool, true, false, ◌&&◌, ◌||◌, not}
use mathlib.Core.List.{List, [], ◌∷◌}
use mathlib.Core.Option
use mathlib.Core.Option.{Option, none, some}
use native.Mathlib.Omega.{arith}
use project_aria.Common.Int.{ℤ, pos, neg}
use project_aria.Common.Tests.{ltb, leb, ◌==◌, if◌then◌else◌, Bool-cases}

abbrev pub Text : Type 0
Text = List ℕ

abbrev pub codes : String → Text
codes String.[] = []
codes (String.◌∷◌ c s) = code c ∷ codes s

unfoldable pub text_eq : Text → Text → Bool
text_eq [] [] = true
text_eq (a ∷ s) (b ∷ t) = a == b && text_eq s t
text_eq _ _ = false

pub text_eq_iff : (s t : Text) → (text_eq s t ≡ true) ↔ (s ≡ t)
unfolding text_eq
text_eq_iff [] [] = ground arith
text_eq_iff [] (b ∷ t) = ground arith
text_eq_iff (a ∷ s) [] = ground arith
text_eq_iff (a ∷ s) (b ∷ t) = ground (arith, text_eq_iff s t)

pub text_eq_refl : (s : Text) → text_eq s s ≡ true
text_eq_refl s = (text_eq_iff s s).1 refl

-- `t.startswith(s)`
unfoldable pub starts_with : Text → Text → Bool
starts_with [] t = true
starts_with (a ∷ s) [] = false
starts_with (a ∷ s) (b ∷ t) = a == b && starts_with s t

-- `t.endswith(s)`
unfoldable pub ends_with : Text → Text → Bool
unfolding text_eq
ends_with s [] = text_eq s []
ends_with s (b ∷ t) = text_eq s (b ∷ t) || ends_with s t

-- `s in t`
unfoldable pub contains : Text → Text → Bool
unfolding starts_with
contains s [] = starts_with s []
contains s (b ∷ t) = starts_with s (b ∷ t) || contains s t

-- The characters of `str.isspace` among the ASCII ones, the no-break and the ideographic space.
abbrev is_space : ℕ → Bool
is_space c = leb 9 c && leb c 13 || leb 28 c && leb c 32 || c == 0x85 || c == 0xa0 || c == 0x3000

lstrip : Text → Text
lstrip [] = []
lstrip (c ∷ t) = let rest = lstrip t in if is_space c then rest else c ∷ t

-- Trailing spaces go: a space stays only before a character that is none.
rstrip : Text → Text
rstrip [] = []
rstrip (c ∷ t) = elim (rstrip t) [ [] ↦ if is_space c then [] else c ∷ [] | x ∷ r ↦ c ∷ x ∷ r ]

-- `s.strip()`
unfoldable pub strip : Text → Text
unfolding lstrip rstrip
strip t = lstrip (rstrip t)

-- `str(n)` of a natural number: the decimal digits, the last first, before `acc`.
decimal_from : ℕ → ℕ → Text → Text
decimal_from zero n acc = acc
decimal_from (suc fuel) n acc =
    let digit = b'0' + n % 10 in
    let rest = decimal_from fuel (n / 10) (digit ∷ acc) in if ltb n 10 then digit ∷ acc else rest

unfoldable pub decimal : ℕ → Text
unfolding decimal_from
decimal n = decimal_from (n + 1) n []

-- More fuel than the number changes nothing.
decimal_from-enough :
    (f g n : ℕ) (acc : Text) → n < f → n < g → decimal_from f n acc ≡ decimal_from g n acc
unfolding decimal_from
decimal_from-enough zero g n acc hf hg = ground arith
decimal_from-enough (suc f) zero n acc hf hg = ground arith
decimal_from-enough (suc f) (suc g) n acc hf hg = elim (Bool-cases (ltb n 10)) [
  | inl small ↦ rw small refl
  | inr large ↦
      rw
        (
          large,
          decimal_from-enough f g (n / 10) ((b'0' + n % 10) ∷ acc) (ground arith) (ground arith),
        )
        refl
]

-- The value of decimal digits, after those read so far.
digits_value : ℕ → Text → Option ℕ
digits_value n [] = some n
digits_value n (c ∷ t) =
    if leb b'0' c && leb c b'9' then digits_value (n * 10 + (c - b'0')) t else none

-- `int(s)` of digits with an optional sign and spaces around them; `none` for `ValueError`.
-- Underscores between digits and digits of other scripts, which `int` takes too, are not read.
signed_value : Text → Option ℤ
signed_value [] = none
signed_value (c ∷ t) =
    if c == b'-' && not (text_eq t [])
    then Option.map (λ n. neg (pos n)) (digits_value 0 t)
    else if c == b'+' && not (text_eq t [])
    then Option.map pos (digits_value 0 t)
    else Option.map pos (digits_value 0 (c ∷ t))

unfoldable pub int_of_text : Text → Option ℤ
unfolding signed_value digits_value strip text_eq neg
int_of_text t = signed_value (strip t)
