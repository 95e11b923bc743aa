-- ===== src/Chat/Worker/Delivering.antt =====
-- What deliveries of one generation request do, however often it comes.
use project_aria.Common.{
  ℕ, ◌+◌, ◌≤◌, ◌≡◌, ◌⊎◌, refl, ap, sym, subst, ◌∙◌, Bool, true, false, List, [], ◌∷◌, if◌then◌else◌,
  arith, Bool-cases, inl, inr, eq_refl, keep, length,
}
use project_aria.Common.Error.{Error, Result, ok, err, Call, returns, fails, loses}
use project_aria.Common.Json.{Payload}
use project_aria.Common.Text.{Text}
use project_aria.Chat.Generation.{GenerationRequest, from_payload, Reply, Studio, handle}
use project_aria.Chat.Generation.Answering.{is_loose, handle-IsOneReply}
use project_aria.Chat.Worker.{
  is_member, claim, other_than, release_claim, Site, dead_letter, to_dlq, put_room, after_handle,
  after_freeing, after_claim, Delivery, work, consume,
}

is_member-keep : (i : ℕ) (js : List ℕ) → is_member i (keep (other_than i) js) ≡ false
is_member-keep i [] = refl
is_member-keep i (j ∷ js) = ground (arith, is_member-keep i js)

put_room_same : (i : ℕ) (v : Studio) (rooms : ℕ → Studio) → put_room i v rooms i ≡ v
put_room_same i v rooms = rw (eq_refl i)

to_dlq-same :
    (up : Bool) (topic : Text) (p : Payload) (x : Error) (w : Site)
    → ((to_dlq up topic p x w).rooms ≡ w.rooms)
      × ((to_dlq up topic p x w).claimed ≡ w.claimed)
      × ((to_dlq up topic p x w).dead_letters
          ≡ (if up then dead_letter topic p x ∷ w.dead_letters else w.dead_letters))
to_dlq-same true topic p x w = (refl, refl, refl)
to_dlq-same false topic p x w = (refl, refl, refl)

rooms-after_freeing :
    (up : Bool) (topic : Text) (p : Payload) (x : Error) (msg : ℕ) (w : Site) (call : Call)
    → (after_freeing up topic p x msg w call).1.rooms ≡ w.rooms
rooms-after_freeing up topic p x msg w returns =
    (to_dlq-same up topic p x (record w { claimed = release_claim msg w.claimed })).0
rooms-after_freeing up topic p x msg w (fails y) = refl
rooms-after_freeing up topic p x msg w (loses y) = refl

-- The rooms after a turn, whether that ended well or not
rooms-after_handle :
    (d : Delivery) (topic : Text) (p : Payload) (msg : ℕ) (end : Result (Unit {0})) (w : Site)
    → (after_handle d topic p msg end w).1.rooms ≡ w.rooms
rooms-after_handle d topic p msg (ok u) w = refl
rooms-after_handle d topic p msg (err x) w = rooms-after_freeing d.up topic p x msg w d.freeing

-- What one delivery adds to a room's broadcasts. After a reply the message is claimed, or the turn
-- was loose.
abbrev pub IsStep : Delivery → ℕ → ℕ → Site → Site → Type 0
IsStep d msg i w w' =
    ((w'.rooms i).broadcasts ≡ (w.rooms i).broadcasts)
    ⊎ (((is_member msg w'.claimed ≡ true) ⊎ (is_loose d.turn ≡ true))
        × ((reply : Reply) × ((w'.rooms i).broadcasts ≡ reply ∷ (w.rooms i).broadcasts)))

broadcasts-work :
    (d : Delivery) (topic : Text) (p : Payload) (r : GenerationRequest) (w : Site)
    → ((work d topic p r w).1.rooms r.room_id).broadcasts
      ≡ (handle d.turn r (w.rooms r.room_id)).1.broadcasts
broadcasts-work d topic p r w =
    let (end, room) = handle d.turn r (w.rooms r.room_id) in
    ap (λ (f : ℕ → Studio). (f r.room_id).broadcasts)
      (rooms-after_handle d topic p r.msg_id end
        (record w { rooms = put_room r.room_id room w.rooms }))
    ∙ ap (λ (v : Studio). v.broadcasts) (put_room_same r.room_id room w.rooms)

claimed-work :
    (d : Delivery) (topic : Text) (p : Payload) (r : GenerationRequest) (w : Site)
    → (handle d.turn r (w.rooms r.room_id)).0 ≡ ok tt
    → (work d topic p r w).1.claimed ≡ w.claimed
claimed-work d topic p r w fine = rw fine refl

work-IsStep :
    (d : Delivery) (topic : Text) (p : Payload) (r : GenerationRequest) (w : Site)
    → IsStep d r.msg_id r.room_id w
        (work d topic p r (record w { claimed = r.msg_id ∷ w.claimed })).1
work-IsStep d topic p r w =
    let taken : Site = record w { claimed = r.msg_id ∷ w.claimed } in
    let shown = broadcasts-work d topic p r taken in
    elim (handle-IsOneReply d.turn r (w.rooms r.room_id)) [
      | inl same ↦ inl (shown ∙ same)
      | inr (reply, inl fine, more) ↦ inr (
        inl (
            ap (is_member r.msg_id) (claimed-work d topic p r taken fine)
            ∙ rw (eq_refl r.msg_id) refl),
        (reply, shown ∙ more),
      )
      | inr (reply, inr loose, more) ↦ inr (inr loose, (reply, shown ∙ more))
    ]

after_claim-IsStep :
    (d : Delivery) (topic : Text) (p : Payload) (r : GenerationRequest) (w : Site) (call : Call)
    → is_member r.msg_id w.claimed ≡ false
    → IsStep d r.msg_id r.room_id w (after_claim d topic p r w call (true, r.msg_id ∷ w.claimed)).1
after_claim-IsStep d topic p r w returns free = work-IsStep d topic p r w
after_claim-IsStep d topic p r w (fails x) free = inl refl
after_claim-IsStep d topic p r w (loses x) free = inl refl

after_claim-claimed :
    (d : Delivery) (topic : Text) (p : Payload) (r : GenerationRequest) (w : Site) (call : Call)
    → (after_claim d topic p r w call (false, w.claimed)).1 ≡ w
after_claim-claimed d topic p r w returns = refl
after_claim-claimed d topic p r w (fails x) = refl
after_claim-claimed d topic p r w (loses x) = refl

-- How many of some deliveries have a loose turn
abbrev pub loose : List Delivery → ℕ
loose [] = 0
loose (d ∷ ds) = (if is_loose d.turn then 1 else 0) + loose ds

module _ (is_time : Text → Bool) (topic : Text) (p : Payload) (r : GenerationRequest)
    (read : from_payload is_time p ≡ ok r) where
  -- A readable request whose message identifier is claimed changes nothing: no second response, and
  -- no dead letter.
  pub consume_claimed :
      (d : Delivery) (w : Site)
      → is_member r.msg_id w.claimed ≡ true
      → (consume is_time d topic p w).1 ≡ w
  unfolding consume claim
  consume_claimed d w mine = rw (read, mine) (after_claim-claimed d topic p r w d.claiming)

  consume-IsStep :
      (d : Delivery) (w : Site) → IsStep d r.msg_id r.room_id w (consume is_time d topic p w).1
  unfolding consume claim
  consume-IsStep d w = elim (Bool-cases (is_member r.msg_id w.claimed)) [
    | inl mine ↦ subst (IsStep d r.msg_id r.room_id w) (sym (consume_claimed d w mine)) (inl refl)
    | inr free ↦ rw (read, free) (after_claim-IsStep d topic p r w d.claiming free)
  ]

  unfoldable pub redeliver : List Delivery → Site → Site
  redeliver [] w = w
  redeliver (d ∷ ds) w = redeliver ds (consume is_time d topic p w).1

  redeliver_claimed :
      (ds : List Delivery) (w : Site) → is_member r.msg_id w.claimed ≡ true → redeliver ds w ≡ w
  unfolding redeliver
  redeliver_claimed [] w mine = refl
  redeliver_claimed (d ∷ ds) w mine =
      ap (redeliver ds) (consume_claimed d w mine) ∙ redeliver_claimed ds w mine

  -- However often one readable request is delivered, and however the calls of each delivery end, the
  -- replies to it that go out to its room are at most one, and one more for each delivery with a
  -- loose turn: one whose publication was done with its answer lost, or whose release of the slot
  -- raised. Without such a delivery a viewer never sees a second reply, as long as no claim expires.
  pub redeliver_once :
      (ds : List Delivery) (w : Site)
      → length ((redeliver ds w).rooms r.room_id).broadcasts
        ≤ length (w.rooms r.room_id).broadcasts + 1 + loose ds
  unfolding redeliver
  redeliver_once [] w = omega arith
  redeliver_once (d ∷ ds) w =
      let w1 = (consume is_time d topic p w).1 in
      let rest = redeliver_once ds w1 in
      elim (consume-IsStep d w) [
        | inl same ↦ omega (arith, ap length same, rest)
        | inr (inl mine, (reply, more)) ↦
            rw (redeliver_claimed ds w1 mine) (omega (arith, ap length more))
        | inr (inr wild, (reply, more)) ↦ rw wild (omega (arith, ap length more, rest))
      ]
