-- ===== src/Persona/Profile.antt =====
-- common/persona_profile.py, persona/adapter/outbound/profile.py, and the cache in front of it,
-- persona/adapter/outbound/cache/profile.py, with Redis up or down. A cached profile is kept as the
-- value that its JSON stands for; `garbled` is a text that `_from_json` refuses. The expiry of a key
-- is left out.
use project_aria.Common.{
  ℕ, Bool, true, false, ◌||◌, Option, none, some, List, [], ◌∷◌, ◌==◌, if◌then◌else◌,
}
use project_aria.Common.Int.{ℤ}
use project_aria.Common.Error.{Result, ok, err}
use project_aria.Common.Text.{Text}
use project_aria.Persona.Model.{Persona, CommunicationStyle, MoralCompass}
use project_aria.Persona.Repository.{
  Db, Named, find_persona, get_style, get_compass, list_core_values,
}
use project_aria.Persona.Service.{write_style, write_compass, write_core_values}

pub record PersonaProfile : Type 0 where
  pub persona_id : ℕ
  pub name : Text
  pub description : Text
  pub tone : Option Text
  pub sentence_length : Option Text
  pub question_style : Option Text
  pub directness : Option ℤ
  pub empathy_expression : Option Text
  pub core_values : List Text
  pub moral_standard : Option Text
  pub rule_adherence : Option Text
  pub fairness : Option Text

abbrev is_full : Option Text → Bool
is_full none = false
is_full (some []) = false
is_full (some (c ∷ t)) = true

abbrev is_any : List Text → Bool
is_any [] = false
is_any (t ∷ ts) = true

-- `has_voice`
unfoldable pub has_voice : PersonaProfile → Bool
has_voice p = is_full p.tone || is_any p.core_values || is_full p.moral_standard

-- `has_compass`
unfoldable pub has_compass : PersonaProfile → Bool
has_compass p = is_full p.moral_standard

abbrev field {ℓ κ} : {A : Type ℓ} {B : Type κ} → (A → B) → Option A → Option B
field f none = none
field f (some a) = some (f a)

abbrev built :
    Persona → Option CommunicationStyle → Option MoralCompass → List Text → PersonaProfile
built p s c vs = record {
  persona_id = p.id;
  name = p.name;
  description = p.description;
  tone = field (λ t. t.tone) s;
  sentence_length = field (λ t. t.sentence_length) s;
  question_style = field (λ t. t.question_style) s;
  directness = field (λ t. t.directness) s;
  empathy_expression = field (λ t. t.empathy_expression) s;
  core_values = vs;
  moral_standard = field (λ m. m.standard) c;
  rule_adherence = field (λ m. m.rule_adherence) c;
  fairness = field (λ m. m.fairness) c;
}

-- `PersonaProfileProvider._build`
unfoldable pub build : ℕ → Db → Option PersonaProfile
build i db =
    field
      (λ p. built p (get_style i db.styles) (get_compass i db.compasses) (list_core_values i db))
      (find_persona i db.personas)

pub data Cached : Type 0 where
  missing garbled : Cached
  kept : PersonaProfile → Cached

-- The tables and the cache
pub record Books : Type 0 where
  pub db : Db
  pub cache : ℕ → Cached

abbrev pub put : ℕ → Cached → (ℕ → Cached) → ℕ → Cached
put i v cache j = if j == i then v else cache j

-- `_set`, which a failing Redis does not stop
abbrev store : Bool → PersonaProfile → Books → Books
store up p b = if up then record b { cache = put p.persona_id (kept p) b.cache } else b

abbrev pub remember : Bool → Option PersonaProfile → Books → Option PersonaProfile × Books
remember up none b = (none, b)
remember up (some p) b = (some p, store up p b)

-- `_get`, with a garbled text deleted
abbrev recall : Bool → ℕ → Cached → Books → Option PersonaProfile × Books
recall up i (kept p) b = (some p, b)
recall up i missing b = remember up (build i b.db) b
recall up i garbled b = remember up (build i b.db) (record b { cache = put i missing b.cache })

-- `CachedPersonaProfiles.profile_of`
unfoldable pub profile_of : Bool → ℕ → Books → Option PersonaProfile × Books
unfolding build
profile_of up i b = recall up i (if up then b.cache i else missing) b

-- `invalidate`
abbrev pub invalidate : Bool → ℕ → Books → Books
invalidate up i b = if up then record b { cache = put i missing b.cache } else b

-- A write and, if it succeeds, the hook
abbrev pub hooked : Bool → ℕ → Result (Unit {0}) × Db → Books → Result (Unit {0}) × Books
hooked up i (ok _, db) b = (ok tt, invalidate up i (record b { db = db }))
hooked up i (err x, db) b = (err x, record b { db = db })

-- A write to a profile, by its owner's identifier
pub data Write : Type 0 where
  style : (owner : ℕ) → CommunicationStyle → Write
  compass : (owner : ℕ) → MoralCompass → Write
  core_values : (owner persona : ℕ) → List Named → Write

abbrev pub subject : Write → ℕ
subject (style owner s) = s.persona_id
subject (compass owner c) = c.persona_id
subject (core_values owner i ns) = i

abbrev pub written : Write → Db → Result (Unit {0}) × Db
written (style owner s) db = write_style owner s db
written (compass owner c) db = write_compass owner c db
written (core_values owner i ns) db = write_core_values owner i ns db

-- `PersonaProfileService.set_style`, `set_compass` and `set_core_values`
unfoldable pub write : Bool → Write → Books → Result (Unit {0}) × Books
write up w b = hooked up (subject w) (written w b.db) b
