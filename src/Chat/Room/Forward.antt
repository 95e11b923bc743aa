-- ===== src/Chat/Room/Forward.antt =====
-- What holds of the rooms through any operations: no broadcast goes back, and no persona is live
-- twice.
use project_aria.Common.{
  ℕ, ◌≡◌, ◌↔◌, ◌⊎◌, refl, ap, sym, ◌∙◌, subst, Bool, true, false, none, some, is_some, List, ◌∷◌,
  ◌==◌, arith, Bool-cases, Option-cases, inl, inr, ==_iff,
}
use project_aria.Common.Error.{ok}
use project_aria.Chat.Room.{Room, RoomStatus, finished, is_allowed, is_live, is_open_for_chat}
use project_aria.Chat.Room.Service.{find_room, update_room, get_room, ensure_open}
use project_aria.Chat.Room.Lookup.{
  find_room-id, find_room_used, live_elsewhere-find_room, touch, find_room-update_room,
  before_update, some_injective,
}
use project_aria.Chat.Room.Changes.{RoomRequest, operate, operate-cases, IsOpened, IsMoved}

-- No persona has two live rooms.
abbrev pub IsOneLive : List Room → Type 0
IsOneLive rs =
    (i j : ℕ) (r q : Room)
    → find_room i rs ≡ some r
    → find_room j rs ≡ some q
    → is_live r.status ≡ true
    → is_live q.status ≡ true
    → r.persona_id ≡ q.persona_id
    → i ≡ j

abbrev is_finished : RoomStatus → Bool
is_finished finished = true
is_finished _ = false

-- Exactly the finished rooms have a time of closing.
abbrev pub IsStamped : List Room → Type 0
IsStamped rs =
    (i : ℕ) (r : Room) → find_room i rs ≡ some r → is_some r.closed_at ≡ is_finished r.status

module _ (rs rs' : List Room) (m : IsMoved rs rs') where
  touched_old : (i : ℕ) (r : Room) → find_room i rs ≡ some r → r.id == m.new.id ≡ true → r ≡ m.old
  touched_old i r found hit =
      let here : i ≡ m.new.id = ground (arith, find_room-id i rs r found) in
      some_injective r m.old (sym found ∙ ap (λ j. find_room j rs) here ∙ m.stored)

  touched-forward :
      (i : ℕ) (r : Room)
      → find_room i rs ≡ some r
      → (touch m.new r ≡ r)
        ⊎ (((touch m.new r).persona_id ≡ r.persona_id)
            × ((touch m.new r).host_id ≡ r.host_id)
            × (is_allowed r.status (touch m.new r).status ≡ true))
  touched-forward i r found = elim (Bool-cases (r.id == m.new.id)) [
    | inr miss ↦ inl (rw miss)
    | inl hit ↦ inr (
        rw hit (
          refl,
          refl,
          ap (λ (x : Room). is_allowed x.status m.new.status) (touched_old i r found hit)
              ∙ m.allowed,
        ))
  ]

  -- The room that moved, and a live one that did not
  moved_alone :
      (i j : ℕ) (r q : Room)
      → find_room i rs ≡ some r
      → find_room j rs ≡ some q
      → r.id == m.new.id ≡ true
      → is_live m.new.status ≡ true
      → is_live q.status ≡ true
      → r.persona_id ≡ q.persona_id
      → i ≡ j
  moved_alone i j r q fr fq hit on onq same =
      let own = ap (λ (x : Room). x.persona_id) (touched_old i r fr hit) in
      let at_j =
        live_elsewhere-find_room m.new.id m.new.persona_id j rs q (m.alone on) fq onq
          (sym same ∙ own ∙ sym m.persona) in
      ground (arith, find_room-id i rs r fr, at_j)

  IsMoved-IsOneLive : IsOneLive rs → IsOneLive (update_room m.new rs)
  IsMoved-IsOneLive one i j x y fx fy onx ony same =
      let (r, fr, er) = before_update i m.new rs x fx in
      let (q, fq, eq) = before_update j m.new rs y fy in
      settle_live i j r q fr fq (rw er at onx) (rw eq at ony) (rw (er, eq) at same) one
    where
      settle_live :
          (i j : ℕ) (r q : Room)
          → find_room i rs ≡ some r
          → find_room j rs ≡ some q
          → is_live (touch m.new r).status ≡ true
          → is_live (touch m.new q).status ≡ true
          → (touch m.new r).persona_id ≡ (touch m.new q).persona_id
          → IsOneLive rs
          → i ≡ j
      settle_live i j r q fr fq onr onq same one = elim (Bool-cases (r.id == m.new.id)) [
        | inl hitr ↦ elim (Bool-cases (q.id == m.new.id)) [
          | inl hitq ↦ ground (arith, find_room-id i rs r fr, find_room-id j rs q fq)
          | inr missq ↦
              moved_alone i j r q fr fq hitr (rw hitr at onr) (rw missq at onq)
                (rw (hitr, missq) at same)
        ]
        | inr missr ↦ elim (Bool-cases (q.id == m.new.id)) [
          | inl hitq ↦ sym (
              moved_alone j i q r fq fr hitq (rw hitq at onq) (rw missr at onr)
                (sym (rw (missr, hitq) at same)))
          | inr missq ↦
              one i j r q fr fq (rw missr at onr) (rw missq at onq) (rw (missr, missq) at same)
        ]
      ]

module _ (rs rs' : List Room) (o : IsOpened rs rs') where
  opened_keeps : (i : ℕ) (r : Room) → find_room i rs ≡ some r → find_room i (o.room ∷ rs) ≡ some r
  opened_keeps i r found = elim (Bool-cases (o.room.id == i)) [
    | inl hit ↦
        let free : find_room i rs ≡ none =
          subst (λ j. find_room j rs ≡ none) ((==_iff o.room.id i).0 hit)
            (find_room_used o.room.id rs o.fresh) in
        cc (free, found)
    | inr miss ↦ rw miss found
  ]

  -- What is found is the new room or an old one.
  opened_inv :
      (i : ℕ) (x : Room)
      → find_room i (o.room ∷ rs) ≡ some x
      → (x ≡ o.room) ⊎ (find_room i rs ≡ some x)
  opened_inv i x h = elim (Bool-cases (o.room.id == i)) [
    | inl hit ↦ inl (sym (some_injective o.room x (rw hit at h)))
    | inr miss ↦ inr (rw miss at h)
  ]

-- An operation keeps every room, with its persona and host, and its status is the same or a later
-- one that `_ALLOWED_TRANSITIONS` names.
pub operate-forward :
    (op : RoomRequest) (rs : List Room) (i : ℕ) (r : Room)
    → find_room i rs ≡ some r
    → (q : Room) × (find_room i (operate op rs) ≡ some q)
      × ((q ≡ r)
          ⊎ ((q.persona_id ≡ r.persona_id)
              × (q.host_id ≡ r.host_id)
              × (is_allowed r.status q.status ≡ true)))
operate-forward op rs i r found = elim (operate-cases op rs) [
  | inl same ↦ (r, rw same found, inl refl)
  | inr (inl o) ↦ (r, rw o.written (opened_keeps rs (operate op rs) o i r found), inl refl)
  | inr (inr m) ↦ (
    touch m.new r,
    rw m.written (find_room-update_room i m.new rs r found),
    touched-forward rs (operate op rs) m i r found,
  )
]

-- A finished room stays as it is, whatever is asked.
pub finished_stays :
    (op : RoomRequest) (rs : List Room) (i : ℕ) (r : Room)
    → find_room i rs ≡ some r
    → r.status ≡ finished
    → find_room i (operate op rs) ≡ some r
finished_stays op rs i r found over =
    let (q, later, step) = operate-forward op rs i r found in
    elim step [
      | inl same ↦ rw later (ap some same)
      | inr (p, h, allowed) ↦ cc (allowed, ap (λ s. is_allowed s q.status) over)
    ]

pub operate-IsOneLive :
    (op : RoomRequest) (rs : List Room) → IsOneLive rs → IsOneLive (operate op rs)
operate-IsOneLive op rs one = elim (operate-cases op rs) [
  | inl same ↦ rw same one
  | inr (inr m) ↦ rw m.written (IsMoved-IsOneLive rs (operate op rs) m one)
  | inr (inl o) ↦ rw o.written (λ i j x y fx fy onx ony same.
      elim (opened_inv rs (operate op rs) o i x fx) [
        | inl new ↦ cc (onx, ap (λ (r : Room). is_live r.status) new, ap is_live o.status)
        | inr oldx ↦ elim (opened_inv rs (operate op rs) o j y fy) [
          | inl new ↦ cc (ony, ap (λ (r : Room). is_live r.status) new, ap is_live o.status)
          | inr oldy ↦ one i j x y oldx oldy onx ony same
        ]
      ])
]

pub operate-IsStamped :
    (op : RoomRequest) (rs : List Room) → IsStamped rs → IsStamped (operate op rs)
operate-IsStamped op rs st = elim (operate-cases op rs) [
  | inl same ↦ rw same st
  | inr (inl o) ↦ rw o.written (λ i x fx. elim (opened_inv rs (operate op rs) o i x fx) [
    | inl new ↦ rw (new, o.status, o.closed_at)
    | inr old ↦ st i x old
  ])
  | inr (inr m) ↦ rw m.written (λ i x fx.
      let (r, fr, er) = before_update i m.new rs x fx in
      rw er (elim (Bool-cases (r.id == m.new.id)) [
        | inr miss ↦ rw miss (st i r fr)
        | inl hit ↦ rw hit (ground (arith, m.closed_at.1, m.allowed, st m.new.id m.old m.stored))
      ]))
]

-- `ensure_open` returns a room exactly if that room is in the table under the identifier and live.
pub ensure_open_iff :
    (i : ℕ) (rs : List Room) (r : Room)
    → (ensure_open i rs ≡ ok r) ↔ ((find_room i rs ≡ some r) × (is_live r.status ≡ true))
unfolding ensure_open get_room is_open_for_chat
ensure_open_iff i rs r = elim (Option-cases (find_room i rs)) [
  | inl missing ↦ ground arith
  | inr (q, found) ↦ ground arith
]
