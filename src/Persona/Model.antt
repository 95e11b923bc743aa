-- ===== src/Persona/Model.antt =====
-- persona/domain/model.py: a persona, its style and its moral compass, with their validators.
use project_aria.Common.{ℕ, Bool, ◌&&◌, Option, none, some, leb, length}
use project_aria.Common.Int.{ℤ, pos, leb_ℤ}
use project_aria.Common.Error.{Result, ok, value_error, guard, ◌>>=◌, ◌>>◌}
use project_aria.Common.Text.{Text}

pub record Persona : Type 0 where
  pub id : ℕ
  pub owner_id : ℕ
  pub name : Text
  pub tagline : Text
  pub description : Text
  pub is_active : Bool

abbrev pub fits_name : Text → Bool
fits_name t = leb 1 (length t) && leb (length t) 30

abbrev pub fits : ℕ → Text → Bool
fits n t = leb (length t) n

-- The constructor with its validation
unfoldable pub validate_persona : Persona → Result Persona
validate_persona p = do
  guard (fits_name p.name) value_error
  guard (fits 100 p.tagline) value_error
  guard (fits 2000 p.description) value_error
  ok p

abbrev set_name : Option Text → Persona → Result Persona
set_name none p = ok p
set_name (some t) p = do guard (fits_name t) value_error; ok (record p { name = t })

abbrev set_tagline : Option Text → Persona → Result Persona
set_tagline none p = ok p
set_tagline (some t) p = do guard (fits 100 t) value_error; ok (record p { tagline = t })

abbrev set_description : Option Text → Persona → Result Persona
set_description none p = ok p
set_description (some t) p = do guard (fits 2000 t) value_error; ok (record p { description = t })

-- `Persona.edit`: each assignment validates what it sets. The object of a refused one is dropped.
unfoldable pub edit : (name tagline description : Option Text) → Persona → Result Persona
edit name tagline description p = do
  named ← set_name name p
  tagged ← set_tagline tagline named
  set_description description tagged

pub record CommunicationStyle : Type 0 where
  pub persona_id : ℕ
  pub tone : Text
  pub sentence_length : Text
  pub question_style : Text
  pub directness : ℤ
  pub empathy_expression : Text

unfoldable pub validate_style : CommunicationStyle → Result CommunicationStyle
validate_style s = do
  guard (leb 1 (length s.tone) && fits 100 s.tone) value_error
  guard (fits 100 s.sentence_length) value_error
  guard (fits 200 s.question_style) value_error
  guard (leb_ℤ (pos 1) s.directness && leb_ℤ s.directness (pos 5)) value_error
  guard (fits 200 s.empathy_expression) value_error
  ok s

pub record MoralCompass : Type 0 where
  pub persona_id : ℕ
  pub standard : Text
  pub rule_adherence : Text
  pub fairness : Text

unfoldable pub validate_compass : MoralCompass → Result MoralCompass
validate_compass c = do
  guard (leb 1 (length c.standard) && fits 200 c.standard) value_error
  guard (fits 200 c.rule_adherence) value_error
  guard (fits 200 c.fairness) value_error
  ok c

-- `CoreValue`
pub record CoreValue : Type 0 where
  pub id : ℕ
  pub value_name : Text

unfoldable pub validate_core_value : CoreValue → Result CoreValue
validate_core_value v = do
  guard (leb 1 (length v.value_name) && fits 50 v.value_name) value_error
  ok v

-- `PersonaCoreValue`, the row of a link
pub record PersonaCoreValue : Type 0 where
  pub persona_id : ℕ
  pub core_value_id : ℕ
  pub priority : ℕ
