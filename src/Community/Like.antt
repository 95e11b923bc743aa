-- ===== src/Community/Like.antt =====
-- community/adapter/outbound/persistence/repository.py: the likes, with the unique pair, and
-- community/adapter/outbound/cache/like_count.py in front of them.
use project_aria.Common.{
  ℕ, ◌+◌, Bool, false, ◌&&◌, ◌||◌, Option, none, some, List, [], ◌∷◌, ◌==◌, if◌then◌else◌,
}

-- (persona, user)
abbrev pub Likes : Type 0
Likes = List (ℕ × ℕ)

abbrev pub is_pair : ℕ → ℕ → ℕ × ℕ → Bool
is_pair persona user (p, u) = p == persona && u == user

-- `exists`
unfoldable pub exists : ℕ → ℕ → Likes → Bool
exists persona user [] = false
exists persona user (l ∷ ls) = is_pair persona user l || exists persona user ls

-- `add`; a pair that another request has added meanwhile is absorbed like one that is there.
unfoldable pub add_like : ℕ → ℕ → Likes → Likes
unfolding exists
add_like persona user ls = if exists persona user ls then ls else (persona, user) ∷ ls

-- `remove`: the first row of the pair, if any
unfoldable pub remove_like : ℕ → ℕ → Likes → Likes
remove_like persona user [] = []
remove_like persona user (l ∷ ls) =
    let rest = remove_like persona user ls in if is_pair persona user l then ls else l ∷ rest

-- `count_by_persona`
unfoldable pub count_by_persona : ℕ → Likes → ℕ
count_by_persona persona [] = 0
count_by_persona persona ((p, u) ∷ ls) =
    (if p == persona then 1 else 0) + count_by_persona persona ls

-- What the cache holds of a persona: nothing, a count, or a value that `int` does not read
pub data Cached : Type 0 where
  missing : Cached
  counted : ℕ → Cached
  garbled : Cached

pub record Board : Type 0 where
  pub likes : Likes
  pub cache : ℕ → Cached

abbrev pub put : ℕ → Cached → (ℕ → Cached) → ℕ → Cached
put persona v cache q = if q == persona then v else cache q

-- `_invalidate`, where `up` says whether Redis answers
unfoldable pub invalidate : (up : Bool) → ℕ → Board → Board
invalidate up persona b = if up then record b { cache = put persona missing b.cache } else b

-- `_set`
unfoldable pub set_count : (up : Bool) → ℕ → ℕ → Board → Board
set_count up persona n b = if up then record b { cache = put persona (counted n) b.cache } else b

-- `CachedLikeRepository.add`
unfoldable pub like : (up : Bool) → (persona user : ℕ) → Board → Board
like up persona user b = invalidate up persona (record b { likes = add_like persona user b.likes })

-- `CachedLikeRepository.remove`
unfoldable pub unlike : (up : Bool) → (persona user : ℕ) → Board → Board
unlike up persona user b =
    invalidate up persona (record b { likes = remove_like persona user b.likes })

-- `_get`, which drops a value that it cannot read
abbrev pub read_cache : (up : Bool) → ℕ → Board → Cached → Option ℕ × Board
read_cache up persona b missing = (none, b)
read_cache up persona b (counted n) = (some n, b)
read_cache up persona b garbled = (none, invalidate up persona b)

unfoldable pub get_cached : (up : Bool) → ℕ → Board → Option ℕ × Board
get_cached up persona b = if up then read_cache up persona b (b.cache persona) else (none, b)

abbrev pub fill : (up : Bool) → ℕ → Option ℕ × Board → ℕ × Board
fill up persona (some n, b) = (n, b)
fill up persona (none, b) =
    let n = count_by_persona persona b.likes in (n, set_count up persona n b)

-- `CachedLikeRepository.count_by_persona`
unfoldable pub count_likes : (up : Bool) → ℕ → Board → ℕ × Board
count_likes up persona b = fill up persona (get_cached up persona b)
