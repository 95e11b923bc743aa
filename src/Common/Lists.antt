-- ===== src/Common/Lists.antt =====
-- Lists measured by native numbers, and predicates over their members by recursion.
pub use mathlib.Core.List.{Memᴰ}
use Prim.Native.Nat.{ℕ, zero, suc, ◌+◌}
use mathlib.Core.Path.{◌≡◌, refl, sym, subst}
use mathlib.Core.Logic.{◌⊎◌, inl, inr}
use mathlib.Core.List.{List, [], ◌∷◌, ◌++◌}
use mathlib.Core.Bool.{Bool, true, false}
use native.Mathlib.Omega.{arith}
use project_aria.Common.Tests.{if◌then◌else◌, Bool-cases}

module _ {ℓ} {A : Type ℓ} where
  abbrev pub length : List A → ℕ
  length [] = 0
  length (x ∷ xs) = suc (length xs)

  abbrev pub take : ℕ → List A → List A
  take zero xs = []
  take (suc n) [] = []
  take (suc n) (x ∷ xs) = x ∷ take n xs

  abbrev pub drop : ℕ → List A → List A
  drop zero xs = xs
  drop (suc n) [] = []
  drop (suc n) (x ∷ xs) = drop n xs

  -- The members that pass a Boolean test, as a comprehension with an `if` collects them.
  abbrev pub keep : (A → Bool) → List A → List A
  keep p [] = []
  keep p (x ∷ xs) = let rest = keep p xs in if p x then x ∷ rest else rest

  pub length-append : (xs ys : List A) → length (xs ++ ys) ≡ length xs + length ys
  length-append [] ys = omega arith
  length-append (x ∷ xs) ys = omega (arith, length-append xs ys)

  pub take-append-drop : (n : ℕ) (xs : List A) → take n xs ++ drop n xs ≡ xs
  take-append-drop zero xs = refl
  take-append-drop (suc n) [] = refl
  take-append-drop (suc n) (x ∷ xs) = rw (take-append-drop n xs)

module _ {ℓ κ} {A : Type ℓ} where
  abbrev pub All : (A → Type κ) → List A → Type κ
  All P [] = Unit
  All P (x ∷ xs) = P x × All P xs

  pub All-append : (P : A → Type κ) (xs ys : List A) → All P xs → All P ys → All P (xs ++ ys)
  All-append P [] ys hx hy = hy
  All-append P (x ∷ xs) ys hx hy = (hx.0, All-append P xs ys hx.1 hy)

  pub All-take : (P : A → Type κ) (xs ys : List A) → All P (xs ++ ys) → All P xs
  All-take P [] ys h = tt
  All-take P (x ∷ xs) ys h = (h.0, All-take P xs ys h.1)

  pub All-drop : (P : A → Type κ) (xs ys : List A) → All P (xs ++ ys) → All P ys
  All-drop P [] ys h = h
  All-drop P (x ∷ xs) ys h = All-drop P xs ys h.1

-- Membership
module _ {ℓ} {A : Type ℓ} where
  pub Memᴰ-append_left : (x : A) (xs ys : List A) → Memᴰ x xs → Memᴰ x (xs ++ ys)
  Memᴰ-append_left x [] ys h = elim h [ ]
  Memᴰ-append_left x (y ∷ xs) ys (Memᴰ.head e) = Memᴰ.head e
  Memᴰ-append_left x (y ∷ xs) ys (Memᴰ.tail h) = Memᴰ.tail (Memᴰ-append_left x xs ys h)

  pub Memᴰ-append_right : (x : A) (xs ys : List A) → Memᴰ x ys → Memᴰ x (xs ++ ys)
  Memᴰ-append_right x [] ys h = h
  Memᴰ-append_right x (y ∷ xs) ys h = Memᴰ.tail (Memᴰ-append_right x xs ys h)

  pub Memᴰ-append : (x : A) (xs ys : List A) → Memᴰ x (xs ++ ys) → Memᴰ x xs ⊎ Memᴰ x ys
  Memᴰ-append x [] ys h = inr h
  Memᴰ-append x (y ∷ xs) ys (Memᴰ.head e) = inl (Memᴰ.head e)
  Memᴰ-append x (y ∷ xs) ys (Memᴰ.tail h) = elim (Memᴰ-append x xs ys h) [
    | inl i ↦ inl (Memᴰ.tail i)
    | inr i ↦ inr i
  ]

module _ {ℓ κ} {A : Type ℓ} where
  pub All-Memᴰ : (P : A → Type κ) (xs : List A) (x : A) → All P xs → Memᴰ x xs → P x
  All-Memᴰ P [] x h m = elim m [ ]
  All-Memᴰ P (y ∷ ys) x h (Memᴰ.head e) = subst P (sym e) h.0
  All-Memᴰ P (y ∷ ys) x h (Memᴰ.tail m) = All-Memᴰ P ys x h.1 m

  pub All-intro : (P : A → Type κ) (xs : List A) → ((x : A) → Memᴰ x xs → P x) → All P xs
  All-intro P [] f = tt
  All-intro P (y ∷ ys) f = (f y (Memᴰ.head refl), All-intro P ys (λ x m. f x (Memᴰ.tail m)))

module _ {ℓ} {A : Type ℓ} where
  kept_head :
      (b : Bool) (x y : A) (xs ys : List A)
      → Memᴰ y (if b then x ∷ ys else ys)
      → (Memᴰ y ys → Memᴰ y xs)
      → Memᴰ y (x ∷ xs)
  kept_head false x y xs ys j go = Memᴰ.tail (go j)
  kept_head true x y xs ys (Memᴰ.head e) go = Memᴰ.head e
  kept_head true x y xs ys (Memᴰ.tail j) go = Memᴰ.tail (go j)

  pub Memᴰ-keep : (p : A → Bool) (x : A) (xs : List A) → Memᴰ x (keep p xs) → Memᴰ x xs
  Memᴰ-keep p x [] j = j
  Memᴰ-keep p x (y ∷ xs) j = kept_head (p y) y x xs (keep p xs) j (λ i. Memᴰ-keep p x xs i)

pub All-map {ℓ κ μ} :
    {A : Type ℓ} (P : A → Type κ) (Q : A → Type μ)
    → ((x : A) → P x → Q x)
    → (xs : List A) → All P xs
    → All Q xs
All-map P Q f [] all = tt
All-map P Q f (x ∷ xs) (p, all) = (f x p, All-map P Q f xs all)

-- A predicate for the members that pass a test
pub All-keep {ℓ κ} :
    {A : Type ℓ} (P : A → Type κ) (f : A → Bool) (xs : List A)
    → All (λ x. f x ≡ true → P x) xs
    → All P (keep f xs)
All-keep P f [] all = tt
All-keep P f (x ∷ xs) (h, all) = elim (Bool-cases (f x)) [
  | inl hit ↦ rw hit (h hit, All-keep P f xs all)
  | inr miss ↦ rw miss (All-keep P f xs all)
]

pub keep-append {ℓ} :
    {A : Type ℓ} (f : A → Bool) (xs ys : List A) → keep f (xs ++ ys) ≡ keep f xs ++ keep f ys
keep-append f [] ys = refl
keep-append f (x ∷ xs) ys = elim (Bool-cases (f x)) [
  | inl hit ↦ rw (hit, keep-append f xs ys) refl
  | inr miss ↦ rw (miss, keep-append f xs ys) refl
]
