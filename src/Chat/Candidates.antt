-- ===== src/Chat/Candidates.antt =====
-- chat/adapter/outbound/redis/candidates.py: the candidates of a room, the oldest first. The expiry
-- of the key is left out.
use project_aria.Common.{
  ℕ, zero, suc, ◌+◌, ◌-◌, ◌≤◌, ◌≡◌, refl, ap, sym, ◌∙◌, Option, none, some, List, [], ◌∷◌, ◌++◌,
  map, arith, length, length-append, take, drop,
}
use project_aria.Chat.Topic.{Candidate}
use mathlib.Core.List.{append-nil, append_assoc}

-- What an item of the Redis list reads as, none for one of another format
abbrev pub Entry : Type 0
Entry = Option Candidate

abbrev pub max_candidates : ℕ
max_candidates = 50

-- The last so many members
abbrev pub last {ℓ} : {A : Type ℓ} → ℕ → List A → List A
last n xs = drop (length xs - n) xs

-- `add`: RPUSH, then LTRIM to the last fifty. What `model_dump_json` writes reads back.
unfoldable pub add_candidate : Candidate → List Entry → List Entry
add_candidate c es = last max_candidates (es ++ some c ∷ [])

abbrev pub readable : List Entry → List Candidate
readable [] = []
readable (none ∷ es) = readable es
readable (some c ∷ es) = c ∷ readable es

-- `take_all`: LPOP of fifty, without those that do not read, and what stays
unfoldable pub take_all : List Entry → List Candidate × List Entry
take_all es = (readable (take max_candidates es), drop max_candidates es)

unfoldable pub add_each : List Candidate → List Entry → List Entry
unfolding add_candidate
add_each [] es = es
add_each (c ∷ cs) es = add_each cs (add_candidate c es)

module _ {ℓ} {A : Type ℓ} where
  length-drop : (k : ℕ) (xs : List A) → length (drop k xs) ≡ length xs - k
  length-drop zero xs = omega arith
  length-drop (suc k) [] = omega arith
  length-drop (suc k) (x ∷ xs) = omega (arith, length-drop k xs)

  length-last-le : (n : ℕ) (xs : List A) → length (last n xs) ≤ n
  length-last-le n xs = omega (arith, length-drop (length xs - n) xs)

  drop-append-drop :
      (m k : ℕ) (xs ys : List A)
      → k ≤ length xs
      → drop m (drop k xs ++ ys) ≡ drop (k + m) (xs ++ ys)
  drop-append-drop m zero xs ys h = ap (λ j. drop j (xs ++ ys)) (omega arith)
  drop-append-drop m (suc k) [] ys h = absurd (omega arith)
  drop-append-drop m (suc k) (x ∷ xs) ys h =
      let e : suc (k + m) ≡ suc k + m = omega arith in
      drop-append-drop m k xs ys (omega arith) ∙ ap (λ j. drop j (x ∷ (xs ++ ys))) e

  last-append-last : (n : ℕ) (xs ys : List A) → last n (last n xs ++ ys) ≡ last n (xs ++ ys)
  last-append-last n xs ys =
      let k : ℕ = length xs - n in
      drop-append-drop (length (drop k xs ++ ys) - n) k xs ys (omega arith)
      ∙ ap (λ j. drop j (xs ++ ys))
          (omega (arith, length-append (drop k xs) ys, length-append xs ys, length-drop k xs))

  take_short : (n : ℕ) (xs : List A) → length xs ≤ n → (take n xs ≡ xs) × (drop n xs ≡ [])
  take_short zero [] h = (refl, refl)
  take_short zero (x ∷ xs) h = absurd (omega arith)
  take_short (suc n) [] h = (refl, refl)
  take_short (suc n) (x ∷ xs) h =
      let (kept, gone) = take_short n xs (omega arith) in (ap (λ l. x ∷ l) kept, gone)

  last_short : (n : ℕ) (xs : List A) → length xs ≤ n → last n xs ≡ xs
  last_short n xs h = let e : length xs - n ≡ 0 = omega arith in ap (λ j. drop j xs) e

readable-drop-some : (k : ℕ) (cs : List Candidate) → readable (drop k (map some cs)) ≡ drop k cs
readable-drop-some zero [] = refl
readable-drop-some zero (c ∷ cs) = ap (λ l. c ∷ l) (readable-drop-some zero cs)
readable-drop-some (suc k) [] = refl
readable-drop-some (suc k) (c ∷ cs) = readable-drop-some k cs

add_each-last :
    (cs : List Candidate) (es : List Entry)
    → length es ≤ max_candidates
    → add_each cs es ≡ last max_candidates (es ++ map some cs)
unfolding add_each add_candidate
add_each-last [] es h =
    sym (ap (last max_candidates) (append-nil es) ∙ last_short max_candidates es h)
add_each-last (c ∷ cs) es h =
    add_each-last cs (last max_candidates (es ++ some c ∷ []))
      (length-last-le max_candidates (es ++ some c ∷ []))
    ∙ (last-append-last max_candidates (es ++ some c ∷ []) (map some cs)
        ∙ ap (last max_candidates) (append_assoc es (some c ∷ []) (map some cs)))

length-map-some : (cs : List Candidate) → length (map some cs) ≡ length cs
length-map-some [] = refl
length-map-some (c ∷ cs) = omega (arith, length-map-some cs)

-- Of the candidates that came since the buffer was empty, `take_all` returns the last fifty in the
-- order in which they came, and leaves none.
pub take_all-add_each :
    (cs : List Candidate) → take_all (add_each cs []) ≡ (last max_candidates cs, [])
unfolding take_all
take_all-add_each cs =
    let es = last max_candidates (map some cs) in
    let (all, rest) = take_short max_candidates es (length-last-le max_candidates (map some cs)) in
    rw (add_each-last cs [] (omega arith), all, rest, length-map-some cs)
      (ap (λ l. (l, [])) (readable-drop-some (length cs - max_candidates) cs))
