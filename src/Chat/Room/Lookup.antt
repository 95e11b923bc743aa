-- ===== src/Chat/Room/Lookup.antt =====
-- Looking a room up before and after the update of a row.
use project_aria.Common.{
  ℕ, ◌≡◌, refl, ap, sym, ◌∙◌, true, false, Option, none, some, List, [], ◌∷◌, ◌==◌, arith,
  if◌then◌else◌, Bool-cases, Option-cases, inl, inr,
}
use project_aria.Chat.Room.{Room, is_live}
use project_aria.Chat.Room.Service.{find_room, room_id_used, live_elsewhere, update_room}

pub find_room-id : (i : ℕ) (rs : List Room) (r : Room) → find_room i rs ≡ some r → r.id ≡ i
find_room-id i [] r h = cc
find_room-id i (q ∷ rs) r h = ground (arith, find_room-id i rs r)

pub find_room_used : (i : ℕ) (rs : List Room) → room_id_used i rs ≡ false → find_room i rs ≡ none
find_room_used i [] h = refl
find_room_used i (q ∷ rs) h = ground (arith, find_room_used i rs)

-- No other live room has the persona.
pub live_elsewhere-find_room :
    (i persona j : ℕ) (rs : List Room) (q : Room)
    → live_elsewhere i persona rs ≡ false
    → find_room j rs ≡ some q
    → is_live q.status ≡ true
    → q.persona_id ≡ persona
    → j ≡ i
live_elsewhere-find_room i persona j [] q h found on same = cc
live_elsewhere-find_room i persona j (r ∷ rs) q h found on same = elim (Bool-cases (r.id == j)) [
  | inl hit ↦
      let e : r ≡ q = ground arith in
      ground (arith, ap (λ (x : Room). x.persona_id) e, ap (λ (x : Room). x.status) e, same, on)
  | inr miss ↦ live_elsewhere-find_room i persona j rs q (ground arith) (rw miss at found) on same
]

-- What `update_room` makes of one row
abbrev pub touch : Room → Room → Room
touch r q =
    if q.id == r.id
    then record q {
      status = r.status;
      name = r.name;
      description = r.description;
      thumbnail_url = r.thumbnail_url;
      closed_at = r.closed_at;
    }
    else q

touch-id : (r q : Room) → (touch r q).id ≡ q.id
touch-id r q = elim (Bool-cases (q.id == r.id)) [ inl hit ↦ rw hit | inr miss ↦ rw miss ]

pub find_room-update_room :
    (i : ℕ) (r : Room) (rs : List Room) (q : Room)
    → find_room i rs ≡ some q
    → find_room i (update_room r rs) ≡ some (touch r q)
find_room-update_room i r [] q h = cc
find_room-update_room i r (p ∷ rs) q h = elim (Bool-cases (p.id == i)) [
  | inl hit ↦ let e : p ≡ q = ground arith in rw (touch-id r p, hit, e)
  | inr miss ↦ rw (touch-id r p, miss) (find_room-update_room i r rs q (rw miss at h))
]

find_room-update_room-none :
    (i : ℕ) (r : Room) (rs : List Room)
    → find_room i rs ≡ none
    → find_room i (update_room r rs) ≡ none
find_room-update_room-none i r [] h = refl
find_room-update_room-none i r (p ∷ rs) h = elim (Bool-cases (p.id == i)) [
  | inl hit ↦ cc (rw hit at h)
  | inr miss ↦ rw (touch-id r p, miss) (find_room-update_room-none i r rs (rw miss at h))
]

abbrev or_room : Room → Option Room → Room
or_room d none = d
or_room d (some r) = r

pub some_injective : (x y : Room) → ◌≡◌ {A = Option Room} (some x) (some y) → x ≡ y
some_injective x y h = ap (or_room x) h

pub before_update :
    (i : ℕ) (r : Room) (rs : List Room) (x : Room)
    → find_room i (update_room r rs) ≡ some x
    → (q : Room) × (find_room i rs ≡ some q) × (x ≡ touch r q)
before_update i r rs x h = elim (Option-cases (find_room i rs)) [
  | inl missing ↦ cc (h, find_room-update_room-none i r rs missing)
  | inr (q, found) ↦
      (q, found, some_injective x (touch r q) (sym h ∙ find_room-update_room i r rs q found))
]
