-- ===== src/Common/Uuid.antt =====
-- `uuid.UUID` as the 128-bit number that it holds, and its canonical text, 8-4-4-4-12 hexadecimal
-- digits. `parse` is the constructor `UUID(text)` without the forms in braces and with `urn:`.
use native.Mathlib.Nat.{pow-suc}
use project_aria.Common.Lists.{length, length-append, take, drop, take-append-drop, keep}
use project_aria.Common.Tests.{ltb, leb, ◌==◌, if◌then◌else◌, Option-cases}
use project_aria.Common.Text.{Text}
use Prim.Native.Nat.{ℕ, zero, suc, ◌+◌, ◌-◌, ◌*◌, ◌/◌, ◌%◌, ◌^◌, ◌<◌}
use mathlib.Core.Path.{◌≡◌, refl, ap, ◌∙◌, sym}
use mathlib.Core.Logic.{◌≢◌, inl, inr}
use mathlib.Core.Bool.{Bool, ◌&&◌, not}
use mathlib.Core.Option.{Option, none, some}
use mathlib.Core.List.{List, [], ◌∷◌, ◌++◌}
use native.Mathlib.Omega.{arith}

abbrev pub IsUuid : ℕ → Type 0
IsUuid u = u < 2 ^ 128

hex_char : ℕ → ℕ
hex_char d = if ltb d 10 then b'0' + d else b'a' + (d - 10)

hex_value : ℕ → Option ℕ
hex_value c =
    if leb b'0' c && leb c b'9'
    then some (c - b'0')
    else if leb b'a' c && leb c b'f'
    then some (c - b'a' + 10)
    else if leb b'A' c && leb c b'F'
    then some (c - b'A' + 10)
    else none

-- The lowest `k` hexadecimal digits, the highest first: `'%032x' % int`.
hex_digits : ℕ → ℕ → Text
hex_digits zero u = []
hex_digits (suc k) u = hex_digits k (u / 16) ++ hex_char (u % 16) ∷ []

-- `int(hex, 16)` after the digits read so far.
hex_number : ℕ → Text → Option ℕ
hex_number n [] = some n
hex_number n (c ∷ t) = elim (hex_value c) [ none ↦ none | some d ↦ hex_number (n * 16 + d) t ]

hex_value-hex_char : (d : ℕ) → d < 16 → hex_value (hex_char d) ≡ some d
unfolding hex_value hex_char
hex_value-hex_char d h = ground arith

hex_char-ne-dash : (d : ℕ) → hex_char d ≢ b'-'
unfolding hex_char
hex_char-ne-dash d h = ground arith

hex_number-append_one :
    (n v d : ℕ) (t : Text)
    → d < 16
    → hex_number n t ≡ some v
    → hex_number n (t ++ hex_char d ∷ []) ≡ some (v * 16 + d)
unfolding hex_number
hex_number-append_one n v d [] lt h = ground (arith, hex_value-hex_char d lt)
hex_number-append_one n v d (c ∷ t) lt h = elim (Option-cases (hex_value c)) [
  | inl bad ↦ ground arith
  | inr (x, e) ↦ ground (arith, hex_number-append_one (n * 16 + x) v d t lt)
]

hex_number-hex_digits : (k u : ℕ) → u < 16 ^ k → hex_number 0 (hex_digits k u) ≡ some u
unfolding hex_digits hex_number
hex_number-hex_digits zero u h = ap some (omega arith)
hex_number-hex_digits (suc k) u h =
    let lower = hex_number-hex_digits k (u / 16) (omega (arith, pow-suc 16 k)) in
    hex_number-append_one 0 (u / 16) (u % 16) (hex_digits k (u / 16)) (omega arith) lower
    ∙ ap some (omega arith)

length-hex_digits : (k u : ℕ) → length (hex_digits k u) ≡ k
unfolding hex_digits
length-hex_digits zero u = refl
length-hex_digits (suc k) u = omega (
  arith,
  length-append (hex_digits k (u / 16)) (hex_char (u % 16) ∷ []),
  length-hex_digits k (u / 16),
)

abbrev is_digit : ℕ → Bool
is_digit c = not (c == b'-')

abbrev remove_dashes : Text → Text
remove_dashes = keep is_digit

-- The text cut into groups of the given sizes and what is left, with dashes between them.
grouped : List ℕ → Text → Text
grouped [] t = t
grouped (n ∷ ns) t = take n t ++ b'-' ∷ grouped ns (drop n t)

-- `str(u)`
unfoldable pub to_text : ℕ → Text
unfolding hex_digits hex_char grouped
to_text u = grouped (8 ∷ 4 ∷ 4 ∷ 4 ∷ []) (hex_digits 32 u)

-- `UUID(t)`; `none` for `ValueError`.
unfoldable pub parse : Text → Option ℕ
unfolding hex_number hex_value
parse t = let digits = remove_dashes t in if length digits == 32 then hex_number 0 digits else none

remove_dashes-append : (s t : Text) → remove_dashes (s ++ t) ≡ remove_dashes s ++ remove_dashes t
remove_dashes-append [] t = refl
remove_dashes-append (c ∷ s) t = ground (arith, remove_dashes-append s t)

remove_dashes-hex_digits : (k u : ℕ) → remove_dashes (hex_digits k u) ≡ hex_digits k u
unfolding hex_digits
remove_dashes-hex_digits zero u = refl
remove_dashes-hex_digits (suc k) u = ground (
  arith,
  remove_dashes-append (hex_digits k (u / 16)) (hex_char (u % 16) ∷ []),
  remove_dashes-hex_digits k (u / 16),
  hex_char-ne-dash (u % 16),
)

remove_dashes-grouped : (ns : List ℕ) (t : Text) → remove_dashes (grouped ns t) ≡ remove_dashes t
unfolding grouped
remove_dashes-grouped [] t = refl
remove_dashes-grouped (n ∷ ns) t =
    remove_dashes-append (take n t) (b'-' ∷ grouped ns (drop n t))
    ∙ ap (λ r. remove_dashes (take n t) ++ r) (remove_dashes-grouped ns (drop n t))
    ∙ sym (remove_dashes-append (take n t) (drop n t))
    ∙ ap remove_dashes (take-append-drop n t)

-- Reading back the text of an identifier gives the identifier.
pub parse-to_text : (u : ℕ) → IsUuid u → parse (to_text u) ≡ some u
unfolding parse to_text
parse-to_text u h =
    let clean =
      remove_dashes-grouped (8 ∷ 4 ∷ 4 ∷ 4 ∷ []) (hex_digits 32 u)
      ∙ remove_dashes-hex_digits 32 u in
    ground (arith, clean, length-hex_digits 32 u, hex_number-hex_digits 32 u h)

pub to_text_injective : (u v : ℕ) → IsUuid u → IsUuid v → to_text u ≡ to_text v → u ≡ v
to_text_injective u v hu hv e = cc (parse-to_text u hu, parse-to_text v hv, ap parse e)

length-grouped : (ns : List ℕ) (t : Text) → length (grouped ns t) ≡ length ns + length t
unfolding grouped
length-grouped [] t = omega arith
length-grouped (n ∷ ns) t = omega (
  arith,
  length-append (take n t) (b'-' ∷ grouped ns (drop n t)),
  length-grouped ns (drop n t),
  ap length (take-append-drop n t),
  length-append (take n t) (drop n t),
)

pub length-to_text : (u : ℕ) → length (to_text u) ≡ 36
unfolding to_text
length-to_text u =
    omega (arith, length-grouped (8 ∷ 4 ∷ 4 ∷ 4 ∷ []) (hex_digits 32 u), length-hex_digits 32 u)
