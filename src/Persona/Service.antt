-- ===== src/Persona/Service.antt =====
-- persona/application/service.py: personas and the ownership rule.
use project_aria.Common.{
  ℕ, Bool, true, false, ◌||◌, Option, none, some, List, [], ◌∷◌, ◌==◌, if◌then◌else◌,
}
use project_aria.Common.Error.{
  Result, ok, err, not_found, permission_denied, validation_error, guard, ◌>>=◌, ◌>>◌,
}
use project_aria.Common.Text.{Text, text_eq}
use project_aria.Persona.Model.{
  Persona, CommunicationStyle, MoralCompass, validate_persona, validate_style, validate_compass,
  edit,
}
use project_aria.Persona.Repository.{
  Db, Named, find_persona, add, update, delete, get_style, set_style, get_compass, set_compass,
  set_core_values, list_core_values,
}

-- `PersonaService.create`
unfoldable pub create : Persona → Db → Result (Persona × Db)
create p db = do
  persona ← validate_persona (record p { is_active = true })
  db' ← add persona db
  ok (persona, db')

abbrev found : Option Persona → Result Persona
found none = err not_found
found (some p) = ok p

-- `PersonaService.get_public`
unfoldable pub get_public : ℕ → Db → Result Persona
get_public i db = found (find_persona i db.personas)

-- `PersonaService.get_owned`
unfoldable pub get_owned : (owner i : ℕ) → Db → Result Persona
get_owned owner i db = do
  p ← found (find_persona i db.personas)
  guard (p.owner_id == owner) permission_denied
  ok p

-- `PersonaService.update`
unfoldable pub update_persona :
    (owner i : ℕ) → (name tagline description : Option Text) → Db → Result (Persona × Db)
unfolding get_owned
update_persona owner i name tagline description db = do
  p ← get_owned owner i db
  edited ← edit name tagline description p
  ok (edited, update edited db)

-- `PersonaService.delete`
unfoldable pub delete_persona : (owner i : ℕ) → Db → Result Db
unfolding get_owned
delete_persona owner i db = do p ← get_owned owner i db; ok (delete p db)

-- `Voice`
pub record Voice : Type 0 where
  pub style : Option CommunicationStyle
  pub compass : Option MoralCompass
  pub core_values : List Text

-- `PersonaProfileService.get`
unfoldable pub get_voice : ℕ → Db → Result Voice
unfolding get_public
get_voice i db = do
  p ← get_public i db
  ok (record {
    style = get_style i db.styles;
    compass = get_compass i db.compasses;
    core_values = list_core_values i db;
  })

-- `len(set(value_names)) != len(value_names)`
abbrev pub is_repeated : Text → List Text → Bool
is_repeated t [] = false
is_repeated t (u ∷ us) = text_eq u t || is_repeated t us

abbrev pub has_repeats : List Text → Bool
has_repeats [] = false
has_repeats (t ∷ ts) = is_repeated t ts || has_repeats ts

abbrev pub names : List Named → List Text
names [] = []
names (n ∷ ns) = n.name ∷ names ns

-- What follows the check of the owner
abbrev pub permitted : Result Persona → Result (Unit {0}) × Db → Db → Result (Unit {0}) × Db
permitted (ok p) rest db = rest
permitted (err x) rest db = (err x, db)

-- What is written of a value that its constructor has validated
abbrev pub saved {ℓ} : {A : Type ℓ} → Result A → (A → Db → Db) → Db → Result (Unit {0}) × Db
saved (ok a) f db = (ok tt, f a db)
saved (err x) f db = (err x, db)

-- The three writes of `PersonaProfileService`, without the hook that follows each
-- `set_style`
unfoldable pub write_style : (owner : ℕ) → CommunicationStyle → Db → Result (Unit {0}) × Db
write_style owner s db =
    permitted (get_owned owner s.persona_id db) (saved (validate_style s) set_style db) db

-- `set_compass`
unfoldable pub write_compass : (owner : ℕ) → MoralCompass → Db → Result (Unit {0}) × Db
write_compass owner c db =
    permitted (get_owned owner c.persona_id db) (saved (validate_compass c) set_compass db) db

-- `set_core_values`
unfoldable pub write_core_values : (owner i : ℕ) → List Named → Db → Result (Unit {0}) × Db
unfolding text_eq
write_core_values owner i ns db =
    permitted (get_owned owner i db)
      (if has_repeats (names ns) then (err validation_error, db) else set_core_values i ns db) db
