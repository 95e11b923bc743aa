-- ===== src/Chat/Generation/Answering.antt =====
-- What one turn of the worker does to its room.
use project_aria.Common.{
  ◌≡◌, ◌⊎◌, refl, ap, Bool, true, false, Option, none, some, [], ◌∷◌, Bool-cases, inl, inr, ◌∙◌,
  ◌||◌, not, if_true, if_false, if◌then◌else◌, sym, subst,
}
use project_aria.Common.Error.{
  Result, ok, err, Call, returns, fails, loses, result_of, is_done, is_returned, is_lost,
}
use project_aria.Common.Json.{text, get, item, to_uuid}
use project_aria.Common.Text.{Text, text_eq}
use project_aria.Common.Uuid
use project_aria.Common.Uuid.{IsUuid}
use project_aria.Chat.Coordinator.{
  ChatSource, superchat, chat, story, idle, system, source_value, holds, ResponseSlot, Lock,
  try_acquire, still_holds, release,
}
use project_aria.Chat.Message.{RoomMessage, from_persona}
use project_aria.Chat.Generation.{
  GenerationRequest, to_source, to_payload, from_payload, Reply, Studio, Turn, appended,
  record_reply, reply_of, after_check, after_generation, after_profile, answer, ended,
  finally_release, after_acquire, handle_in_trace, is_spread, handle,
}

to_source-source_value : (s : ChatSource) → to_source (text (source_value s)) ≡ ok s
unfolding text_eq
to_source-source_value superchat = refl
to_source-source_value chat = refl
to_source-source_value story = refl
to_source-source_value idle = refl
to_source-source_value system = refl

-- A request with UUIDs and a time that `fromisoformat` reads comes back from its own payload as it
-- was, so that the worker answers what was asked.
pub from_payload-to_payload :
    (is_time : Text → Bool) (r : GenerationRequest)
    → IsUuid r.msg_id
    → IsUuid r.room_id
    → IsUuid r.persona_id
    → is_time r.requested_at ≡ true
    → from_payload is_time (to_payload r) ≡ ok r
unfolding from_payload to_payload get item to_uuid text_eq
from_payload-to_payload is_time r hm hr hp ht = rw (
  Uuid.parse-to_text r.msg_id hm,
  Uuid.parse-to_text r.room_id hr,
  Uuid.parse-to_text r.persona_id hp,
  to_source-source_value r.source,
  ht,
)

still_holds-release : (s : ResponseSlot) (lock : Lock) → still_holds s (release s [] lock) ≡ false
unfolding still_holds release
still_holds-release s lock = elim (Bool-cases (holds s lock)) [
  | inl own ↦ rw own
  | inr other ↦ rw other other
]

-- The reply is made, and its slot is still held at the check.
pub record IsReady (turn : Turn) (s : ResponseSlot) (w : Studio) (t : Text) (version : Option Text)
    : Type 0 where
  pub profile : turn.profile ≡ ok tt
  pub made : turn.generated ≡ ok (t, version)
  pub checked : turn.checking ≡ ok tt
  pub held : still_holds s (turn.meanwhile w.lock) ≡ true

-- A turn of which nothing is seen: it raised before its reply was ready, or it lost its slot.
pub record IsSilent (turn : Turn) (s : ResponseSlot) (w : Studio) (out : Result (Unit {0}) × Studio)
    : Type 0 where
  pub unready : (t : Text) (version : Option Text) → IsReady turn s w t version → ⊥
  pub broadcasts : out.1.broadcasts ≡ w.broadcasts
  pub transcript : out.1.transcript ≡ w.transcript
  pub lost : out.0 ≡ ok tt → still_holds s (turn.meanwhile w.lock) ≡ false

-- A turn with a reply: its line was offered to the timeline however the publication ends, the reply
-- is out if the publication was done, and the turn ends as the publication does, but for what the
-- release raises.
pub record IsAnswered (turn : Turn) (r : GenerationRequest) (s : ResponseSlot) (w : Studio)
    (call : Call) (out : Result (Unit {0}) × Studio) : Type 0 where
  pub reply : Text
  pub version : Option Text
  pub ready : IsReady turn s w reply version
  pub transcript : out.1.transcript ≡ (record_reply turn r reply version w).transcript
  pub broadcasts :
      out.1.broadcasts
      ≡ (if is_done turn.sending then reply_of r reply version ∷ w.broadcasts else w.broadcasts)
  pub end : out.0 ≡ ended (result_of turn.sending) call

broadcasts-record_reply :
    (turn : Turn) (r : GenerationRequest) (t : Text) (version : Option Text) (w : Studio)
    → (record_reply turn r t version w).broadcasts ≡ w.broadcasts
unfolding record_reply
broadcasts-record_reply turn r t version w = elim (Bool-cases turn.is_stored) [
  | inr lost ↦ rw lost
  | inl kept ↦ rw kept (
      stored
        (from_persona turn.message_id r.room_id r.persona_id r.source t version turn.replied_to))
]
  where
    stored : (m : Result RoomMessage) → (appended m w).broadcasts ≡ w.broadcasts
    stored (ok m) = refl
    stored (err x) = refl

transcript-record_reply :
    (turn : Turn) (r : GenerationRequest) (t : Text) (version : Option Text) (w : Studio)
    (lock : Lock)
    → (record_reply turn r t version (record w { lock = lock })).transcript
      ≡ (record_reply turn r t version w).transcript
unfolding record_reply
transcript-record_reply turn r t version w lock = elim (Bool-cases turn.is_stored) [
  | inr lost ↦ rw lost
  | inl kept ↦ rw kept (
      stored
        (from_persona turn.message_id r.room_id r.persona_id r.source t version turn.replied_to))
]
  where
    stored :
        (m : Result RoomMessage)
        → (appended m (record w { lock = lock })).transcript ≡ (appended m w).transcript
    stored (ok m) = refl
    stored (err x) = refl

-- How a turn with a slot may end, when its release ends in a certain way
abbrev pub IsTurn :
    Turn → GenerationRequest → ResponseSlot → Studio → Call → Result (Unit {0}) × Studio → Type 0
IsTurn turn r s w call out = IsSilent turn s w out ⊎ IsAnswered turn r s w call out

module _ (turn : Turn) (r : GenerationRequest) (s : ResponseSlot) (w : Studio) where
  abbrev checked : Studio
  checked = record w { lock = turn.meanwhile w.lock }

  after_check-IsTurn :
      (t : Text) (version : Option Text) (c : Result (Unit {0}))
      → turn.profile ≡ ok tt
      → turn.generated ≡ ok (t, version)
      → turn.checking ≡ c
      → IsTurn turn r s w returns (after_check turn r s checked t version c)
  after_check-IsTurn t version (err x) known made e = inl (record {
    unready = λ u v ready. (let no = ready.checked in cc);
    broadcasts = refl;
    transcript = refl;
    lost = λ h. cc;
  })
  after_check-IsTurn t version (ok u) known made e =
      elim (Bool-cases (still_holds s (turn.meanwhile w.lock))) [
        | inl held ↦ rw held (
            inr (record {
              reply = t;
              version = version;
              ready = record { profile = known; made = made; checked = e; held = held };
              transcript = transcript-record_reply turn r t version w (turn.meanwhile w.lock);
              broadcasts =
                  ap (λ bs. if is_done turn.sending then reply_of r t version ∷ bs else bs)
                    (broadcasts-record_reply turn r t version checked);
              end = refl;
            }))
        | inr gone ↦ rw gone (
            inl (record {
              unready = λ t' v ready. (let yes = ready.held in cc);
              broadcasts = refl;
              transcript = refl;
              lost = λ h. gone;
            }))
      ]

  after_generation-IsTurn :
      (g : Result (Text × Option Text))
      → turn.profile ≡ ok tt
      → turn.generated ≡ g
      → IsTurn turn r s w returns (after_generation turn r s checked g)
  after_generation-IsTurn (ok (t, version)) known made =
      after_check-IsTurn t version turn.checking known made refl
  after_generation-IsTurn (err x) known made = inl (record {
    unready = λ u v ready. (let no = ready.made in cc);
    broadcasts = refl;
    transcript = refl;
    lost = λ h. cc;
  })

  after_profile-IsTurn :
      (p : Result (Unit {0}))
      → turn.profile ≡ p
      → IsTurn turn r s w returns (after_profile turn r s w p)
  after_profile-IsTurn (ok u) known = after_generation-IsTurn turn.generated known refl
  after_profile-IsTurn (err x) known = inl (record {
    unready = λ u v ready. (let no = ready.profile in cc);
    broadcasts = refl;
    transcript = refl;
    lost = λ h. cc;
  })

  answer-IsTurn : IsTurn turn r s w returns (answer turn r s w)
  unfolding answer
  answer-IsTurn = after_profile-IsTurn turn.profile refl

ended-ok : (end : Result (Unit {0})) (call : Call) → ended end call ≡ ok tt → end ≡ ok tt
ended-ok end returns h = h
ended-ok end (fails x) h = cc
ended-ok end (loses x) h = cc

finally_release-IsTurn :
    (turn : Turn) (r : GenerationRequest) (s : ResponseSlot) (w : Studio)
    (out : Result (Unit {0}) × Studio)
    → IsTurn turn r s w returns out
    → IsTurn turn r s w turn.releasing (finally_release turn s out)
finally_release-IsTurn turn r s w out (inl still) = inl (record {
  unready = still.unready;
  broadcasts = still.broadcasts;
  transcript = still.transcript;
  lost = λ h. still.lost (ended-ok out.0 turn.releasing h);
})
finally_release-IsTurn turn r s w out (inr told) = inr (record {
  reply = told.reply;
  version = told.version;
  ready = told.ready;
  transcript = told.transcript;
  broadcasts = told.broadcasts;
  end = ap (λ e. ended e turn.releasing) told.end;
})

-- A turn that gets no slot changes nothing but the key and is no error.
pub handle_refused :
    (turn : Turn) (r : GenerationRequest) (w : Studio) (lock : Lock)
    → is_spread turn.is_object r.selection ≡ true
    → turn.acquiring ≡ returns
    → try_acquire r.source turn.token [] w.lock ≡ (none, lock)
    → handle turn r w ≡ (ok tt, record w { lock = lock })
unfolding handle handle_in_trace
handle_refused turn r w lock spread asked refused = rw (spread, asked, refused) refl

handle_with_slot :
    (turn : Turn) (r : GenerationRequest) (w : Studio) (s : ResponseSlot) (lock : Lock)
    → is_spread turn.is_object r.selection ≡ true
    → turn.acquiring ≡ returns
    → try_acquire r.source turn.token [] w.lock ≡ (some s, lock)
    → handle turn r w ≡ finally_release turn s (answer turn r s (record w { lock = lock }))
unfolding handle handle_in_trace
handle_with_slot turn r w s lock spread asked got =
    if_true _ _ spread
    ∙ ap (λ call. after_acquire turn r w call (try_acquire r.source turn.token [] w.lock)) asked
    ∙ ap (λ g. after_acquire turn r w returns g) got

-- A turn that gets a slot, for a request with a selection that `handle` can read. If the model has
-- answered, nothing before has raised and the slot is still held at the check, the reply's line is
-- offered to the timeline however the publication ends, and the reply is out exactly if the
-- publication was done. Otherwise no reply is out and the timeline is as it was, and the turn ends
-- well only if its slot was lost. Its end is that of the publication, or what the release of the
-- slot raises in its place, be the reply out or not; and it holds the slot no longer if the
-- release was done.
pub handle_acquired :
    (turn : Turn) (r : GenerationRequest) (w : Studio) (s : ResponseSlot) (lock : Lock)
    → is_spread turn.is_object r.selection ≡ true
    → turn.acquiring ≡ returns
    → try_acquire r.source turn.token [] w.lock ≡ (some s, lock)
    → IsTurn turn r s (record w { lock = lock }) turn.releasing (handle turn r w)
      × (is_done turn.releasing ≡ true → still_holds s (handle turn r w).1.lock ≡ false)
handle_acquired turn r w s lock spread asked got =
    let w1 : Studio = record w { lock = lock } in
    subst
      (λ out.
        IsTurn turn r s w1 turn.releasing out
        × (is_done turn.releasing ≡ true → still_holds s out.1.lock ≡ false))
      (sym (handle_with_slot turn r w s lock spread asked got))
      (
        finally_release-IsTurn turn r s w1 (answer turn r s w1) (answer-IsTurn turn r s w1),
        λ h.
            ap (still_holds s) (if_true _ _ h)
            ∙ still_holds-release s (turn.later (answer turn r s w1).1.lock),
      )

-- Whether a turn may have a reply out and raise: its publication was done with its answer lost, or
-- its release raised.
abbrev pub is_loose : Turn → Bool
is_loose turn = is_lost turn.sending || not (is_returned turn.releasing)

-- What goes out in any turn: nothing, or one reply, and then an exception only if the turn is loose
abbrev pub IsOneReply : Turn → Studio → Result (Unit {0}) × Studio → Type 0
IsOneReply turn w out =
    (out.1.broadcasts ≡ w.broadcasts)
    ⊎ ((reply : Reply) × ((out.0 ≡ ok tt) ⊎ (is_loose turn ≡ true))
        × (out.1.broadcasts ≡ reply ∷ w.broadcasts))

one_reply :
    (turn : Turn) (w v : Studio) (reply : Reply) (out : Result (Unit {0}) × Studio)
    (sending releasing : Call)
    → turn.sending ≡ sending
    → turn.releasing ≡ releasing
    → v.broadcasts ≡ w.broadcasts
    → out.0 ≡ ended (result_of sending) releasing
    → out.1.broadcasts ≡ (if is_done sending then reply ∷ v.broadcasts else v.broadcasts)
    → IsOneReply turn w out
one_reply turn w v reply out (fails x) releasing e f same end sent = inl (sent ∙ same)
one_reply turn w v reply out (loses x) releasing e f same end sent =
    inr (reply, inr (rw e refl), sent ∙ ap (λ bs. reply ∷ bs) same)
one_reply turn w v reply out returns returns e f same end sent =
    inr (reply, inl end, sent ∙ ap (λ bs. reply ∷ bs) same)
one_reply turn w v reply out returns (fails x) e f same end sent =
    inr (reply, inr (rw (e, f) refl), sent ∙ ap (λ bs. reply ∷ bs) same)
one_reply turn w v reply out returns (loses x) e f same end sent =
    inr (reply, inr (rw (e, f) refl), sent ∙ ap (λ bs. reply ∷ bs) same)

IsTurn-IsOneReply :
    (turn : Turn) (r : GenerationRequest) (s : ResponseSlot) (w v : Studio)
    (out : Result (Unit {0}) × Studio)
    → v.broadcasts ≡ w.broadcasts
    → IsTurn turn r s v turn.releasing out
    → IsOneReply turn w out
IsTurn-IsOneReply turn r s w v out same (inl still) = inl (still.broadcasts ∙ same)
IsTurn-IsOneReply turn r s w v out same (inr told) =
    one_reply turn w v (reply_of r told.reply told.version) out turn.sending turn.releasing refl
      refl same told.end told.broadcasts

after_acquire-IsOneReply :
    (turn : Turn) (r : GenerationRequest) (w : Studio) (call : Call)
    (got : Option ResponseSlot × Lock)
    → IsOneReply turn w (after_acquire turn r w call got)
after_acquire-IsOneReply turn r w returns (none, lock) = inl refl
after_acquire-IsOneReply turn r w returns (some s, lock) =
    let w1 : Studio = record w { lock = lock } in
    IsTurn-IsOneReply turn r s w w1 (finally_release turn s (answer turn r s w1)) refl
      (finally_release-IsTurn turn r s w1 (answer turn r s w1) (answer-IsTurn turn r s w1))
after_acquire-IsOneReply turn r w (fails x) got = inl refl
after_acquire-IsOneReply turn r w (loses x) got = inl refl

pub handle-IsOneReply :
    (turn : Turn) (r : GenerationRequest) (w : Studio) → IsOneReply turn w (handle turn r w)
unfolding handle handle_in_trace
handle-IsOneReply turn r w = elim (Bool-cases (is_spread turn.is_object r.selection)) [
  | inl spread ↦
      subst (IsOneReply turn w) (sym (if_true _ _ spread)) (
        after_acquire-IsOneReply turn r w turn.acquiring
          (try_acquire r.source turn.token [] w.lock))
  | inr other ↦ subst (IsOneReply turn w) (sym (if_false _ _ other)) (inl refl)
]
