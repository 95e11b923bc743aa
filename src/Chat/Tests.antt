-- ===== src/Chat/Tests.antt =====
-- The chat theorems at concrete inputs.
use project_aria.Common.{◌≡◌, ◌⊎◌, refl, true, none, some, List, [], ◌∷◌, arith}
use project_aria.Common.Int.{pos}
use project_aria.Common.Text.{codes, text_eq}
use project_aria.Chat.Room.{Room, live, finished, is_allowed}
use project_aria.Chat.Room.Service.{find_room}
use project_aria.Chat.Room.Changes.{RoomRequest, open_request, abandon_check, operate}
use project_aria.Chat.Room.Forward.{IsOneLive, IsStamped, operate-forward, operate-IsOneLive}
use project_aria.Chat.Coordinator.{
  superchat, chat, idle, ResponseSlot, lock_value, try_acquire, still_holds, release,
}
use project_aria.Chat.Coordinator.Slots.{commands-refine}

abbrev on_air : Room
on_air = record {
  id = 1;
  persona_id = 5;
  host_id = 2;
  name = codes "evening";
  description = none;
  thumbnail_url = none;
  topic = [];
  status = live;
  created_at = pos 0;
  closed_at = none;
}

abbrev over : Room
over = record on_air { id = 2; status = finished; closed_at = some (pos 9) }

abbrev rooms : List Room
rooms = on_air ∷ over ∷ []

-- Nobody watches, and the room has been silent for an hour.
abbrev sweep : RoomRequest
sweep = abandon_check (pos 1800000000) 0 none (pos 3600000000) on_air

operate-forward_example :
    (q : Room) × (find_room 1 (operate sweep rooms) ≡ some q)
    × ((q ≡ on_air) ⊎ ((q.persona_id ≡ 5) × (q.host_id ≡ 2) × (is_allowed live q.status ≡ true)))
operate-forward_example = operate-forward sweep rooms 1 on_air refl

rooms-IsOneLive : IsOneLive rooms
rooms-IsOneLive i j r q fr fq onr onq same = ground arith

operate-IsOneLive_example :
    IsOneLive (operate (open_request (pos 20) (record on_air { id = 3 })) rooms)
operate-IsOneLive_example =
    operate-IsOneLive (open_request (pos 20) (record on_air { id = 3 })) rooms rooms-IsOneLive

rooms-IsStamped : IsStamped rooms
rooms-IsStamped i r found = ground arith

abbrev answering : ResponseSlot
answering = record { source = chat; token = codes "aa" }

commands-refine_example :
    (try_acquire idle (codes "bb") [] (some (lock_value answering))
      ≡ (none, some (lock_value answering)))
    × (still_holds answering (some (lock_value answering)) ≡ true)
    × (release answering [] (some (lock_value answering)) ≡ none)
unfolding text_eq
commands-refine_example =
    commands-refine idle (codes "bb") answering (some answering) (refl, (refl, tt))

abbrev thanking : ResponseSlot
thanking = record { source = superchat; token = codes "dd" }
