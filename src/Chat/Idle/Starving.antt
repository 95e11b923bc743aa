-- ===== src/Chat/Idle/Starving.antt =====
-- The rooms beyond the cap of a turn of the idle worker.
use project_aria.Common.{
  ℕ, ◌<◌, ◌≡◌, ◌≢◌, refl, sym, ap, ◌∙◌, subst, true, false, List, [], ◌∷◌, ◌==◌, All, arith, ltb,
  if_true, if_false,
}
use project_aria.Common.Int.{pos}
use project_aria.Common.Error.{ok}
use project_aria.Chat.Room.{Room}
use project_aria.Chat.Room.Service.{list_live}
use project_aria.Chat.Idle.{Settings, Station, Visit, looked, visit, visit_all, tick}

-- Turns one after the other
abbrev pub ticks : Settings → List (ℕ → Visit) → Station → Station
ticks c [] st = st
ticks c (vs ∷ turns) st = ticks c turns (tick c vs st).1

-- Someone watches every room
abbrev pub IsWatched : (ℕ → Visit) → Type 0
IsWatched vs = (i : ℕ) → (n : ℕ) × ((vs i).viewers ≡ ok n) × (0 < n)

abbrev IsUntouched : ℕ → Station → Station → Type 0
IsUntouched i st st' = (st'.rooms ≡ st.rooms) × (st'.floors i ≡ st.floors i)

pub looked-watched :
    (c : Settings) (v : Visit) (room : Room) (rs : List Room) (n : ℕ)
    → v.viewers ≡ ok n
    → 0 < n
    → looked c v room rs v.viewers ≡ (ok false, rs)
looked-watched c v room rs n e h =
    let some_one : ltb 0 n ≡ true = ground arith in ap (looked c v room rs) e ∙ if_true _ _ some_one

visit-IsUntouched :
    (c : Settings) (vs : ℕ → Visit) (room : Room) (st : Station) (i : ℕ)
    → IsWatched vs
    → room.id ≢ i
    → IsUntouched i st (visit c vs room st).1
unfolding visit
visit-IsUntouched c vs room st i watched other =
    let (n, e, h) = watched room.id in
    let apart : (i == room.id) ≡ false = ground arith in
    rw (looked-watched c (vs room.id) room st.rooms n e h) (refl, if_false _ _ apart)

visit_all-IsUntouched :
    (c : Settings) (vs : ℕ → Visit) (rooms : List Room) (st : Station) (i : ℕ)
    → IsWatched vs
    → All (λ r. r.id ≢ i) rooms
    → IsUntouched i st (visit_all c vs rooms st).1
unfolding visit_all
visit_all-IsUntouched c vs [] st i watched other = (refl, refl)
visit_all-IsUntouched c vs (room ∷ rooms) st i watched (apart, other) =
    let (rows, floor) = visit-IsUntouched c vs room st i watched apart in
    let (rows', floor') = visit_all-IsUntouched c vs rooms (visit c vs room st).1 i watched other in
    (rows' ∙ rows, floor' ∙ floor)

-- A room that is not among those that a turn takes, because enough newer rooms are live, while
-- someone watches every room: however many turns follow, no row changes and nothing happens in that
-- room.
pub ticks_starve :
    (c : Settings) (turns : List (ℕ → Visit)) (st : Station) (i : ℕ)
    → All (λ r. r.id ≢ i) (list_live c.rooms_per_tick (pos 0) st.rooms)
    → All IsWatched turns
    → ((ticks c turns st).rooms ≡ st.rooms) × ((ticks c turns st).floors i ≡ st.floors i)
unfolding tick
ticks_starve c [] st i other watched = (refl, refl)
ticks_starve c (vs ∷ turns) st i other (watched, more) =
    let (rows, floor) =
      visit_all-IsUntouched c vs (list_live c.rooms_per_tick (pos 0) st.rooms) st i watched other in
    let next =
      subst (λ rs. All (λ r. r.id ≢ i) (list_live c.rooms_per_tick (pos 0) rs)) (sym rows) other in
    let (rows', floor') = ticks_starve c turns (tick c vs st).1 i next more in
    (rows' ∙ rows, floor' ∙ floor)
