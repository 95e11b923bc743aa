-- ===== src/Community/Counting.antt =====
-- The cached count of likes against the rows.
use project_aria.Common.{
  ℕ, ◌+◌, ◌≡◌, refl, sym, ◌∙◌, Bool, true, false, none, [], ◌∷◌, ◌==◌, if◌then◌else◌, arith,
  Bool-cases, inl, inr, eq_refl,
}
use project_aria.Community.Like.{
  Likes, exists, add_like, remove_like, count_by_persona, Cached, missing, counted, garbled, Board,
  invalidate, set_count, like, unlike, get_cached, count_likes, read_cache, fill,
}

-- One call, by one client at a time, and whether Redis answers it
pub data LikeCall : Type 0 where
  like_call unlike_call : Bool → ℕ → ℕ → LikeCall
  count_call : Bool → ℕ → LikeCall

abbrev pub call : LikeCall → Board → Board
call (like_call up persona user) b = like up persona user b
call (unlike_call up persona user) b = unlike up persona user b
call (count_call up persona) b = (count_likes up persona b).1

-- A cached count is the number of rows.
abbrev pub IsCoherent : Board → Type 0
IsCoherent b = (q n : ℕ) → b.cache q ≡ counted n → n ≡ count_by_persona q b.likes

-- Redis answers where a row is written.
abbrev pub IsUp : LikeCall → Type 0
IsUp (like_call up persona user) = up ≡ true
IsUp (unlike_call up persona user) = up ≡ true
IsUp (count_call up persona) = Unit

count-add_like :
    (persona user q : ℕ) (ls : Likes)
    → q == persona ≡ false
    → count_by_persona q (add_like persona user ls) ≡ count_by_persona q ls
unfolding add_like count_by_persona
count-add_like persona user q ls other = elim (Bool-cases (exists persona user ls)) [
  | inl there ↦ rw there
  | inr new ↦ rw new (ground arith)
]

count-remove_like :
    (persona user q : ℕ) (ls : Likes)
    → q == persona ≡ false
    → count_by_persona q (remove_like persona user ls) ≡ count_by_persona q ls
unfolding remove_like count_by_persona
count-remove_like persona user q [] other = refl
count-remove_like persona user q ((p, u) ∷ ls) other =
    ground (arith, count-remove_like persona user q ls other)

IsCoherent-invalidate :
    (persona : ℕ) (b : Board) (ls : Likes)
    → IsCoherent b
    → ((q : ℕ) → q == persona ≡ false → count_by_persona q ls ≡ count_by_persona q b.likes)
    → IsCoherent (invalidate true persona (record b { likes = ls }))
unfolding invalidate
IsCoherent-invalidate persona b ls c same q n h = elim (Bool-cases (q == persona)) [
  | inl own ↦ cc (rw own at h)
  | inr other ↦ c q n (rw other at h) ∙ sym (same q other)
]

IsCoherent-set_count :
    (persona : ℕ) (b : Board)
    → IsCoherent b
    → IsCoherent (set_count true persona (count_by_persona persona b.likes) b)
unfolding set_count
IsCoherent-set_count persona b c q n h = elim (Bool-cases (q == persona)) [
  | inl own ↦
      let same : counted (count_by_persona persona b.likes) ≡ counted n = rw own at h in
      ground (arith, same, own)
  | inr other ↦ c q n (rw other at h)
]

module _ (persona : ℕ) (b : Board) (c : IsCoherent b) where
  fill_exact :
      (up : Bool) (v : Cached)
      → b.cache persona ≡ v
      → (fill up persona (if up then read_cache up persona b v else (none, b))).0
        ≡ count_by_persona persona b.likes
  unfolding invalidate
  fill_exact false v h = refl
  fill_exact true missing h = refl
  fill_exact true (counted n) h = c persona n h
  fill_exact true garbled h = refl

  fill-IsCoherent :
      (up : Bool) (v : Cached)
      → IsCoherent (fill up persona (if up then read_cache up persona b v else (none, b))).1
  unfolding set_count
  fill-IsCoherent false v = c
  fill-IsCoherent true missing = IsCoherent-set_count persona b c
  fill-IsCoherent true (counted n) = c
  fill-IsCoherent true garbled =
      IsCoherent-set_count persona (invalidate true persona b)
        (IsCoherent-invalidate persona b b.likes c (λ q other. refl))

-- A count is answered with the number of rows, whether Redis answers or not, if every count that
-- the cache holds is the number of rows.
pub count_likes_exact :
    (up : Bool) (persona : ℕ) (b : Board)
    → IsCoherent b
    → (count_likes up persona b).0 ≡ count_by_persona persona b.likes
unfolding count_likes get_cached
count_likes_exact up persona b c = fill_exact persona b c up (b.cache persona) refl

-- One call after another, with Redis answering where a row is written, keeps every cached count
-- the number of rows.
pub call-IsCoherent : (x : LikeCall) (b : Board) → IsUp x → IsCoherent b → IsCoherent (call x b)
unfolding like unlike count_likes get_cached
call-IsCoherent (like_call up persona user) b on c = rw on (
    IsCoherent-invalidate persona b (add_like persona user b.likes) c
      (λ q other. count-add_like persona user q b.likes other))
call-IsCoherent (unlike_call up persona user) b on c = rw on (
    IsCoherent-invalidate persona b (remove_like persona user b.likes) c
      (λ q other. count-remove_like persona user q b.likes other))
call-IsCoherent (count_call up persona) b on c = fill-IsCoherent persona b c up (b.cache persona)

-- After a like its pair is there, it counts for one more than before only if it was not there, and
-- a second like changes no row.
pub like_once :
    (persona user : ℕ) (ls : Likes)
    → (exists persona user (add_like persona user ls) ≡ true)
      × (add_like persona user (add_like persona user ls) ≡ add_like persona user ls)
      × (count_by_persona persona (add_like persona user ls)
          ≡ count_by_persona persona ls + (if exists persona user ls then 0 else 1))
unfolding add_like exists count_by_persona
like_once persona user ls = elim (Bool-cases (exists persona user ls)) [
  | inl there ↦ rw (there, there) (refl, refl, omega arith)
  | inr new ↦ rw (new, eq_refl persona, eq_refl user) (refl, refl, omega arith)
]
