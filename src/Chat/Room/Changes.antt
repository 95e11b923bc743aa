-- ===== src/Chat/Room/Changes.antt =====
-- The operations on rooms as requests, and what each may do to the table.
use project_aria.Common.{
  ℕ, ◌≡◌, ◌⊎◌, refl, sym, subst, true, false, Option, none, some, List, ◌∷◌, arith, Bool-cases, inl,
  inr, ltb,
}
use project_aria.Common.Int.{ℤ, ltb_ℤ}
use project_aria.Common.Error.{Error, Result, ok, err, Result-cases, is_conflict}
use project_aria.Chat.Room.{
  Room, RoomStatus, pending, finished, is_allowed, is_live, closing, validate_room, transition_to,
  silent_for,
}
use project_aria.Chat.Room.Service.{
  find_room, room_id_used, live_elsewhere, add, update_room, save, open_room, get_room, transition,
  close_if_abandoned, closed,
}
use project_aria.Chat.Room.Lookup.{find_room-id}

-- One change of the rooms
pub data RoomRequest : Type 0 where
  open_request : ℤ → Room → RoomRequest
  transition_request : ℕ → RoomStatus → ℤ → RoomRequest
  abandon_check : ℤ → ℕ → Option ℤ → ℤ → Room → RoomRequest

abbrev pub kept {ℓ} : {A : Type ℓ} → List Room → Result (A × List Room) → List Room
kept rs (ok (a, rs')) = rs'
kept rs (err x) = rs

abbrev pub operate : RoomRequest → List Room → List Room
operate (open_request now r) rs = kept rs (open_room now r rs)
operate (transition_request i status now) rs = kept rs (transition i status now rs)
operate (abandon_check abandon viewers since now r) rs =
    (close_if_abandoned abandon viewers since now r rs).1

-- A room added, as `add` commits it
pub record IsOpened (rs rs' : List Room) : Type 0 where
  pub room : Room
  pub status : room.status ≡ pending
  pub closed_at : room.closed_at ≡ none
  pub fresh : room_id_used room.id rs ≡ false
  pub written : rs' ≡ room ∷ rs

-- A room moved, as `save` commits it
pub record IsMoved (rs rs' : List Room) : Type 0 where
  pub old : Room
  pub new : Room
  pub stored : find_room new.id rs ≡ some old
  pub persona : new.persona_id ≡ old.persona_id
  pub allowed : is_allowed old.status new.status ≡ true
  pub closed_at : (now : ℤ) × (new.closed_at ≡ closing new.status now old.closed_at)
  pub alone : is_live new.status ≡ true → live_elsewhere new.id new.persona_id rs ≡ false
  pub written : rs' ≡ update_room new rs

transition_to-ok :
    (status : RoomStatus) (now : ℤ) (r r' : Room)
    → transition_to status now r ≡ ok r'
    → (is_allowed r.status status ≡ true)
      × (r' ≡ record r { status = status; closed_at = closing status now r.closed_at })
unfolding transition_to
transition_to-ok status now r r' h = ground arith

save-ok :
    (r : Room) (rs rs' : List Room)
    → save r rs ≡ ok rs'
    → (is_live r.status ≡ true → live_elsewhere r.id r.persona_id rs ≡ false)
      × (rs' ≡ update_room r rs)
unfolding save
save-ok r rs rs' h = ground arith

get_room-ok : (i : ℕ) (rs : List Room) (r : Room) → get_room i rs ≡ ok r → find_room i rs ≡ some r
unfolding get_room
get_room-ok i rs r h = ground arith

transition-cases :
    (i : ℕ) (status : RoomStatus) (now : ℤ) (rs : List Room)
    → ((x : Error) × (transition i status now rs ≡ err x))
      ⊎ ((r : Room) × (rs' : List Room) × (transition i status now rs ≡ ok (r, rs'))
          × IsMoved rs rs')
unfolding transition
transition-cases i status now rs = elim (Result-cases (get_room i rs)) [
  | inr (x, bad) ↦ inl (x, rw bad)
  | inl (r, read) ↦ elim (Result-cases (transition_to status now r)) [
    | inr (x, bad) ↦ inl (x, rw (read, bad))
    | inl (m, moved) ↦ elim (Result-cases (save m rs)) [
      | inr (x, bad) ↦ inl (x, rw (read, moved, bad))
      | inl (rs', saved) ↦
          let (allowed, same) = transition_to-ok status now r m moved in
          let (alone, written) = save-ok m rs rs' saved in
          let stored = get_room-ok i rs r read in
          inr (
            m,
            rs',
            rw (read, moved, saved),
            record {
              old = r;
              new = m;
              stored =
                  subst (λ (x : Room). find_room x.id rs ≡ some r) (sym same)
                    (subst (λ j. find_room j rs ≡ some r) (sym (find_room-id i rs r stored))
                      stored);
              persona = rw same;
              allowed = rw same allowed;
              closed_at = (now, rw same);
              alone = alone;
              written = written;
            },
          )
    ]
  ]
]

add-ok :
    (now : ℤ) (r : Room) (rs rs' : List Room)
    → add now r rs ≡ ok rs'
    → (room_id_used r.id rs ≡ false) × (rs' ≡ record r { created_at = now; closed_at = none } ∷ rs)
unfolding add
add-ok now r rs rs' h = ground arith

validate_room-ok : (r r' : Room) → validate_room r ≡ ok r' → r' ≡ r
unfolding validate_room
validate_room-ok r r' h = ground arith

open_room-cases :
    (now : ℤ) (r : Room) (rs : List Room)
    → let rs' = kept rs (open_room now r rs) in (rs' ≡ rs) ⊎ IsOpened rs rs'
unfolding open_room
open_room-cases now r rs =
    let new = record r { status = pending; closed_at = none } in
    elim (Result-cases (validate_room new)) [
      | inr (x, bad) ↦ rw bad (inl refl)
      | inl (v, valid) ↦
          let same = validate_room-ok new v valid in
          elim (Result-cases (add now new rs)) [
            | inr (x, bad) ↦ rw (valid, same, bad) (inl refl)
            | inl (rs', added) ↦
                let (fresh, written) = add-ok now new rs rs' added in
                rw (valid, same, added)
                  (inr (record {
                    room = record new { created_at = now };
                    status = refl;
                    closed_at = refl;
                    fresh = fresh;
                    written = written;
                  }))
          ]
    ]

close_if_abandoned-cases :
    (abandon : ℤ) (viewers : ℕ) (since : Option ℤ) (now : ℤ) (r : Room) (rs : List Room)
    → let rs' = (close_if_abandoned abandon viewers since now r rs).1 in (rs' ≡ rs) ⊎ IsMoved rs rs'
unfolding close_if_abandoned
close_if_abandoned-cases abandon viewers since now r rs = elim (Bool-cases (ltb 0 viewers)) [
  | inl watched ↦ rw watched (inl refl)
  | inr nobody ↦ elim (Bool-cases (ltb_ℤ (silent_for since now r) abandon)) [
    | inl soon ↦ rw (nobody, soon) (inl refl)
    | inr silent ↦ elim (transition-cases r.id finished now rs) [
      | inl (x, bad) ↦ rw (nobody, silent, bad) (inl (unmoved x))
      | inr (m, rs', done, moved) ↦ rw (nobody, silent, done) (inr moved)
    ]
  ]
]
  where
    unmoved : (x : Error) → (closed rs (err x)).1 ≡ rs
    unmoved x = elim (Bool-cases (is_conflict x)) [ inl c ↦ rw c refl | inr c ↦ rw c refl ]

pub operate-cases :
    (op : RoomRequest) (rs : List Room)
    → (operate op rs ≡ rs) ⊎ (IsOpened rs (operate op rs) ⊎ IsMoved rs (operate op rs))
operate-cases (open_request now r) rs = elim (open_room-cases now r rs) [
  | inl same ↦ inl same
  | inr opened ↦ inr (inl opened)
]
operate-cases (transition_request i status now) rs = elim (transition-cases i status now rs) [
  | inl (x, bad) ↦ rw bad (inl refl)
  | inr (r, rs', done, moved) ↦ rw done (inr (inr moved))
]
operate-cases (abandon_check abandon viewers since now r) rs =
    elim (close_if_abandoned-cases abandon viewers since now r rs) [
      | inl same ↦ inl same
      | inr moved ↦ inr (inr moved)
    ]
