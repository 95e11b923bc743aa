-- ===== src/Persona/Reading.antt =====
-- The cached profile against the tables.
use project_aria.Common.{
  ℕ, ◌≡◌, ◌≢◌, refl, sym, ap, ◌∙◌, Bool, true, false, Option, none, some, List, [], ◌∷◌, arith,
  eq_refl,
}
use project_aria.Common.Error.{Result, ok, err}
use project_aria.Common.Text.{Text}
use project_aria.Persona.Model.{Persona, fits_name, edit}
use project_aria.Persona.Repository.{Db, find_persona, replace_persona, update}
use project_aria.Persona.Service.{get_owned, update_persona}
use project_aria.Persona.Profile.{
  PersonaProfile, Books, missing, kept, build, remember, profile_of, Write, subject, written,
  hooked, write,
}

remember-fst : (up : Bool) (o : Option PersonaProfile) (b : Books) → (remember up o b).0 ≡ o
remember-fst up none b = refl
remember-fst up (some p) b = refl

profile_of_missing :
    (up : Bool) (i : ℕ) (b : Books) → b.cache i ≡ missing → (profile_of up i b).0 ≡ build i b.db
unfolding profile_of
profile_of_missing true i b h = rw h (remember-fst true (build i b.db) b)
profile_of_missing false i b h = remember-fst false (build i b.db) b

hooked_missing :
    (i : ℕ) (end : Result (Unit {0})) (db : Db) (b : Books)
    → (hooked true i (end, db) b).0 ≡ ok tt
    → (hooked true i (end, db) b).1.cache i ≡ missing
hooked_missing i (ok _) db b h = rw (eq_refl i)
hooked_missing i (err x) db b h = cc

-- After a write to a persona's profile that succeeds while Redis answers, the next read of that
-- profile, with Redis up or down, is answered with what the tables hold.
pub write-profile_of :
    (w : Write) (up : Bool) (b : Books)
    → (write true w b).0 ≡ ok tt
    → (profile_of up (subject w) (write true w b).1).0 ≡ build (subject w) (write true w b).1.db
unfolding write
write-profile_of w up b h =
    profile_of_missing up (subject w) (write true w b).1
      (hooked_missing (subject w) (written w b.db).0 (written w b.db).1 b h)

find_persona-replace_persona :
    (i : ℕ) (q p : Persona) (ps : List Persona)
    → find_persona i ps ≡ some p
    → q.id ≡ i
    → find_persona i (replace_persona q ps)
      ≡ some (record p {
        name = q.name;
        tagline = q.tagline;
        description = q.description;
        is_active = q.is_active;
      })
find_persona-replace_persona i q p [] h e = cc
find_persona-replace_persona i q p (r ∷ ps) h e =
    ground (arith, find_persona-replace_persona i q p ps)

find_persona-id : (i : ℕ) (p : Persona) (ps : List Persona) → find_persona i ps ≡ some p → p.id ≡ i
find_persona-id i p [] h = cc
find_persona-id i p (q ∷ ps) h = ground (arith, find_persona-id i p ps)

abbrev name_in : Option PersonaProfile → Text
name_in none = []
name_in (some c) = c.name

build-name :
    (i : ℕ) (db : Db) (p : Persona) (c : PersonaProfile)
    → find_persona i db.personas ≡ some p
    → build i db ≡ some c
    → c.name ≡ p.name
unfolding build
build-name i db p c there e =
    let named : name_in (build i db) ≡ p.name = rw there refl in sym (ap name_in e) ∙ named

-- A cached profile of a persona that its owner gives another name: the next read while Redis answers
-- returns the profile with the old name, which is not the one that the tables hold.
pub update_persona_unseen :
    (owner i : ℕ) (t : Text) (p : Persona) (c : PersonaProfile) (b : Books)
    → find_persona i b.db.personas ≡ some p
    → p.owner_id ≡ owner
    → fits_name t ≡ true
    → t ≢ p.name
    → b.cache i ≡ kept c
    → build i b.db ≡ some c
    → (q : Persona) × (db : Db) × (update_persona owner i (some t) none none b.db ≡ ok (q, db))
      × ((profile_of true i (record b { db = db })).0 ≡ some c)
      × (build i db ≢ some c)
unfolding update_persona get_owned edit profile_of update
update_persona_unseen owner i t p c b there mine fits other cached fresh = (
  record p { name = t },
  update (record p { name = t }) b.db,
  renamed,
  recalled,
  λ e. other (
      sym (build-name i (update (record p { name = t }) b.db) (record p { name = t }) c changed e)
      ∙ build-name i b.db p c there fresh),
)
  where
    renamed :
        update_persona owner i (some t) none none b.db
        ≡ ok (record p { name = t }, update (record p { name = t }) b.db)
    renamed = rw (there, mine, eq_refl owner, fits) refl

    recalled :
        (profile_of true i (record b { db = update (record p { name = t }) b.db })).0 ≡ some c
    recalled = rw cached refl

    changed :
        find_persona i (update (record p { name = t }) b.db).personas ≡ some (record p { name = t })
    changed =
        find_persona-replace_persona i (record p { name = t }) p b.db.personas there
          (find_persona-id i p b.db.personas there)
