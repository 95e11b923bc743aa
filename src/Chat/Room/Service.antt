-- ===== src/Chat/Room/Service.antt =====
-- chat/adapter/outbound/persistence/repository.py with its partial unique index,
-- chat/application/room.py and chat/application/abandon.py.
use project_aria.Common.{
  ℕ, Bool, true, false, ◌||◌, ◌&&◌, not, Option, none, some, List, [], ◌∷◌, ◌==◌, if◌then◌else◌,
  ltb, min, take, drop, keep,
}
use project_aria.Common.Int.{ℤ, ltb_ℤ, leb_ℤ, pos_part}
use project_aria.Common.Error.{
  Result, ok, err, not_found, room_closed, already_live, is_conflict, guard, ◌>>=◌, ◌>>◌,
}
use project_aria.Chat.Room.{
  Room, RoomStatus, pending, finished, is_live, validate_room, transition_to, silent_for,
  is_open_for_chat,
}

abbrev pub find_room : ℕ → List Room → Option Room
find_room i [] = none
find_room i (r ∷ rs) = if r.id == i then some r else find_room i rs

abbrev pub room_id_used : ℕ → List Room → Bool
room_id_used i [] = false
room_id_used i (r ∷ rs) = r.id == i || room_id_used i rs

-- Whether a live row of another room holds the persona: the entry of `uq_chat_room_live_persona`
abbrev pub live_elsewhere : ℕ → ℕ → List Room → Bool
live_elsewhere i persona [] = false
live_elsewhere i persona (r ∷ rs) =
    (not (r.id == i) && r.persona_id == persona && is_live r.status) || live_elsewhere i persona rs

-- `_add` at the time that the table stamps: every IntegrityError is answered with `already_live`.
unfoldable pub add : ℤ → Room → List Room → Result (List Room)
add now r rs =
    if room_id_used r.id rs || (is_live r.status && live_elsewhere r.id r.persona_id rs)
    then err already_live
    else ok (record r { created_at = now; closed_at = none } ∷ rs)

-- The columns that `_save` sets on the row of the room
abbrev pub update_room : Room → List Room → List Room
update_room r [] = []
update_room r (q ∷ qs) =
    (if q.id == r.id
      then record q {
        status = r.status;
        name = r.name;
        description = r.description;
        thumbnail_url = r.thumbnail_url;
        closed_at = r.closed_at;
      }
      else q)
    ∷ update_room r qs

-- `_save` of a room that the caller has read: without a row it does nothing.
unfoldable pub save : Room → List Room → Result (List Room)
save r rs =
    if is_live r.status && live_elsewhere r.id r.persona_id rs
    then err already_live
    else ok (update_room r rs)

-- `ORDER BY created_at DESC`
abbrev pub insert_newest : Room → List Room → List Room
insert_newest r [] = r ∷ []
insert_newest r (q ∷ qs) =
    let rest = insert_newest r qs in
    if leb_ℤ q.created_at r.created_at then r ∷ q ∷ qs else q ∷ rest

abbrev pub newest_first : List Room → List Room
newest_first [] = []
newest_first (r ∷ rs) = insert_newest r (newest_first rs)

abbrev is_live_room : Room → Bool
is_live_room r = is_live r.status

-- `list_by_status` of the live rooms
unfoldable pub list_live_rows : ℕ → ℕ → List Room → List Room
list_live_rows limit offset rs = take limit (drop offset (keep is_live_room (newest_first rs)))

-- `RoomService.open`
unfoldable pub open_room : ℤ → Room → List Room → Result (Room × List Room)
open_room now r rs = do
  room ← validate_room (record r { status = pending; closed_at = none })
  rs' ← add now room rs
  ok (room, rs')

abbrev found : Option Room → Result Room
found none = err not_found
found (some r) = ok r

-- `RoomService.get`
unfoldable pub get_room : ℕ → List Room → Result Room
get_room i rs = found (find_room i rs)

-- `RoomService.transition`
unfoldable pub transition : ℕ → RoomStatus → ℤ → List Room → Result (Room × List Room)
transition i status now rs = do
  room ← get_room i rs
  moved ← transition_to status now room
  rs' ← save moved rs
  ok (moved, rs')

-- `RoomService.list_live`
unfoldable pub list_live : ℕ → ℤ → List Room → List Room
list_live limit offset rs = list_live_rows (min limit 100) (pos_part offset) rs

-- `RoomService.ensure_open`
unfoldable pub ensure_open : ℕ → List Room → Result Room
ensure_open i rs = do room ← get_room i rs; guard (is_open_for_chat room) room_closed; ok room

-- `_close`, after its transition
abbrev pub closed : List Room → Result (Room × List Room) → Result Bool × List Room
closed rs (ok (room, rs')) = (ok true, rs')
closed rs (err x) = if is_conflict x then (ok false, rs) else (err x, rs)

-- `AbandonedRoomCloser.close_if_abandoned` of a room, with the viewers and the last activity that
-- it is told
unfoldable pub close_if_abandoned :
    (abandon : ℤ) (viewers : ℕ) → Option ℤ → ℤ → Room → List Room → Result Bool × List Room
close_if_abandoned abandon viewers since now room rs =
    if ltb 0 viewers
    then (ok false, rs)
    else if ltb_ℤ (silent_for since now room) abandon
    then (ok false, rs)
    else closed rs (transition room.id finished now rs)
