-- ===== src/Chat/Topic/Lexical.antt =====
-- chat/adapter/outbound/clustering/lexical.py: texts as sets of n-grams, and topics that grow
-- greedily. A set is a list without repetitions, in whatever order; its order shows nowhere.
use project_aria.Common.{
  ℕ, zero, suc, ◌+◌, ◌-◌, ◌*◌, Bool, true, false, ◌&&◌, ◌||◌, not, List, [], ◌∷◌, ◌++◌, ◌==◌,
  if◌then◌else◌, ltb, leb, min, length, take, drop, keep,
}
use project_aria.Common.Text.{Text, codes, text_eq}
use project_aria.Chat.Topic.{Candidate, Topic}

-- The numerator of `_SIMILARITY_THRESHOLD`, in hundredths
abbrev pub similarity_threshold : ℕ
similarity_threshold = 12

abbrev pub ngram : ℕ
ngram = 3

abbrev pub stopwords : List Text
stopwords =
    codes "그리고"
    ∷ codes "그래서"
    ∷ codes "하지만"
    ∷ codes "근데"
    ∷ codes "그냥"
    ∷ codes "너무"
    ∷ codes "진짜"
    ∷ codes "완전"
    ∷ codes "정말"
    ∷ codes "저는"
    ∷ codes "제가"
    ∷ codes "나는"
    ∷ codes "내가"
    ∷ codes "저도"
    ∷ codes "나도"
    ∷ codes "지금"
    ∷ codes "요즘"
    ∷ []

-- `word in words`
unfoldable pub is_in : Text → List Text → Bool
unfolding text_eq
is_in w [] = false
is_in w (v ∷ vs) = text_eq w v || is_in w vs

abbrev between : ℕ → ℕ → ℕ → Bool
between a b c = leb a c && leb c b

-- The characters of `_TOKEN`
abbrev is_token_char : ℕ → Bool
is_token_char c =
    between b'0' b'9' c || between b'A' b'Z' c || between b'a' b'z' c || between 0xac00 0xd7a3 c

-- `str.lower` of one character, as far as `_TOKEN` sees it: beside A to Z, the Kelvin sign and the
-- dotted capital I become token characters, and no other character does or ceases to be one.
abbrev lower_char : ℕ → Text
lower_char c =
    if between b'A' b'Z' c
    then (c + 32) ∷ []
    else if c == 0x212a
    then b'k' ∷ []
    else if c == 0x130
    then b'i' ∷ 0x307 ∷ []
    else c ∷ []

lower : Text → Text
lower [] = []
lower (c ∷ t) = lower_char c ++ lower t

abbrev flush : Text → List Text → List Text
flush [] ws = ws
flush (c ∷ w) ws = (c ∷ w) ∷ ws

abbrev grow : ℕ → Text × List Text → Text × List Text
grow c (w, ws) = if is_token_char c then (c ∷ w, ws) else ([], flush w ws)

-- The run of token characters that a text begins with, and the later ones
runs : Text → Text × List Text
runs [] = ([], [])
runs (c ∷ t) = grow c (runs t)

-- `_TOKEN.findall`
find_tokens : Text → List Text
unfolding runs
find_tokens t = let (w, ws) = runs t in flush w ws

is_telling : Text → Bool
unfolding is_in
is_telling w = ltb 1 (length w) && not (is_in w stopwords)

-- `set.add`
abbrev pub add : Text → List Text → List Text
add w s = if is_in w s then s else w ∷ s

-- `word[i : i + 3]` for so many places `i`, the first 0
abbrev pub windows : ℕ → Text → List Text
windows zero w = []
windows (suc n) w = take ngram w ∷ windows n (drop 1 w)

abbrev pub add_all : List Text → List Text → List Text
add_all [] s = s
add_all (w ∷ ws) s = add_all ws (add w s)

abbrev pub add_grams : Text → List Text → List Text
add_grams w s =
    if leb (length w) ngram then add w s else add_all (windows (length w - ngram + 1) w) s

abbrev pub grams_of : List Text → List Text → List Text
grams_of [] s = s
grams_of (w ∷ ws) s = grams_of ws (add_grams w s)

-- `_tokens`
unfoldable pub tokens : Text → List Text
unfolding lower find_tokens is_telling is_in
tokens t = grams_of (keep is_telling (find_tokens (lower t))) []

-- `len(a & b)`
abbrev pub shared : List Text → List Text → ℕ
shared a b = length (keep (λ w. is_in w b) a)

-- `_similarity(a, b) >= _SIMILARITY_THRESHOLD`
unfoldable pub is_similar : List Text → List Text → Bool
unfolding is_in
is_similar [] b = false
is_similar (w ∷ a) [] = false
is_similar (w ∷ a) (v ∷ b) =
    leb (similarity_threshold * min (length (w ∷ a)) (length (v ∷ b)))
      (100 * shared (w ∷ a) (v ∷ b))

-- A topic as it grows: its tokens and its members
pub record Bucket : Type 0 where
  pub tokens : List Text
  pub members : List Candidate

-- The inner loop with its `else`
abbrev pub place : List Text → Candidate → List Bucket → List Bucket
place ws c [] = record { tokens = ws; members = c ∷ [] } ∷ []
place ws c (b ∷ bs) =
    if is_similar ws b.tokens
    then record { tokens = add_all ws b.tokens; members = b.members ++ c ∷ [] } ∷ bs
    else b ∷ place ws c bs

-- The outer loop
abbrev pub place_all : List Candidate → List Bucket → List Bucket
place_all [] bs = bs
place_all (c ∷ cs) bs = place_all cs (place (tokens c.text) c bs)

-- How many members' texts have a token
abbrev pub count_in : Text → List Candidate → ℕ
count_in w [] = 0
count_in w (c ∷ cs) = (if is_in w (tokens c.text) then 1 else 0) + count_in w cs

-- Python's order of strings
abbrev pub text_le : Text → Text → Bool
text_le [] t = true
text_le (a ∷ s) [] = false
text_le (a ∷ s) (b ∷ t) = ltb a b || a == b && text_le s t

-- Whether the key `(-count, token)` of the first is at most that of the second
abbrev pub leads : Text × ℕ → Text × ℕ → Bool
leads (v, m) (w, n) = ltb n m || m == n && text_le v w

abbrev pub insert_count : Text × ℕ → List (Text × ℕ) → List (Text × ℕ)
insert_count x [] = x ∷ []
insert_count x (y ∷ ys) = if leads x y then x ∷ y ∷ ys else y ∷ insert_count x ys

abbrev pub sorted_counts : List Text → List Candidate → List (Text × ℕ)
sorted_counts [] cs = []
sorted_counts (w ∷ ws) cs = insert_count (w, count_in w cs) (sorted_counts ws cs)

-- `" ".join` of at most two tokens
abbrev join_names : List (Text × ℕ) → Text
join_names [] = []
join_names ((v, m) ∷ []) = v
join_names ((v, m) ∷ (w, n) ∷ xs) = v ++ (codes " " ++ w)

abbrev head_text : List Candidate → Text
head_text [] = []
head_text (c ∷ cs) = take 20 c.text

-- `_label`
unfoldable pub label_of : List Text → List Candidate → Text
unfolding tokens is_in
label_of [] cs = head_text cs
label_of (w ∷ ws) cs = join_names (take 2 (sorted_counts (w ∷ ws) cs))

abbrev pub topics_of : List Bucket → List Topic
topics_of [] = []
topics_of (b ∷ bs) =
    record { label = label_of b.tokens b.members; candidates = b.members } ∷ topics_of bs

-- `LexicalTopicClusterer.cluster`
unfoldable pub cluster : List Candidate → List Topic
unfolding tokens is_similar label_of
cluster cs = topics_of (place_all cs [])
