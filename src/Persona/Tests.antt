-- ===== src/Persona/Tests.antt =====
-- The persona context at concrete inputs.
use project_aria.Common.{List, ◌≡◌, ◌≢◌, refl, true, false, All, none, some, [], ◌∷◌, arith}
use project_aria.Common.Int.{pos}
use project_aria.Common.Error.{ok, err, permission_denied, external}
use project_aria.Common.Text.{codes, text_eq}
use project_aria.Persona.Model.{Persona, CommunicationStyle, validate_style, validate_core_value}
use project_aria.Persona.Repository.{Db, Named, set_style, set_core_values, list_core_values}
use project_aria.Persona.Service.{get_owned, write_style, update_persona}
use project_aria.Persona.Profile.{PersonaProfile, Books, kept, build, profile_of, style, write}
use project_aria.Persona.Owning.{deletes, act, act_refused}
use project_aria.Persona.Reading.{write-profile_of, update_persona_unseen}
use project_aria.Persona.Values.{set_core_values_lost}
use project_aria.Persona.Links.{IsKeyed, AreNew}
use project_aria.Persona.Listing.{set_core_values-list_core_values}
use project_aria.Persona.Service.{has_repeats, names}

abbrev luna : Persona
luna = record {
  id = 7;
  owner_id = 1;
  name = codes "루나";
  tagline = [];
  description = codes "밤의 상담사";
  is_active = true;
}

abbrev tables : Db
tables = record {
  personas = luna ∷ [];
  styles = [];
  compasses = [];
  vocabulary = record { id = 40; value_name = codes "정직" } ∷ [];
  links = record { persona_id = 7; core_value_id = 40; priority = 1 } ∷ [];
}

-- Another user asks for the persona to be deleted.
act_refused_example : act 2 7 deletes tables ≡ (err permission_denied, tables)
act_refused_example = act_refused 2 7 deletes tables permission_denied refl

abbrev soft : CommunicationStyle
soft = record {
  persona_id = 7;
  tone = codes "따뜻하고 나긋한";
  sentence_length = [];
  question_style = [];
  directness = pos 2;
  empathy_expression = [];
}

abbrev plain : PersonaProfile
plain = record {
  persona_id = 7;
  name = codes "루나";
  description = codes "밤의 상담사";
  tone = none;
  sentence_length = none;
  question_style = none;
  directness = none;
  empathy_expression = none;
  core_values = codes "정직" ∷ [];
  moral_standard = none;
  rule_adherence = none;
  fairness = none;
}

abbrev books : Books
books = record { db = tables; cache = λ _. kept plain }

write-ok : (write true (style 1 soft) books).0 ≡ ok tt
unfolding write write_style get_owned validate_style set_style
write-ok = refl

write-profile_of_example :
    (profile_of true 7 (write true (style 1 soft) books).1).0
    ≡ build 7 (write true (style 1 soft) books).1.db
write-profile_of_example = write-profile_of (style 1 soft) true books write-ok

build-plain : build 7 tables ≡ some plain
unfolding build list_core_values
build-plain = refl

renamed_differs : codes "문" ≢ codes "루나"
renamed_differs e = cc

update_persona_unseen_example :
    (q : Persona) × (db : Db) × (update_persona 1 7 (some (codes "문")) none none tables
      ≡ ok (q, db))
    × ((profile_of true 7 (record { db = db; cache = λ _. kept plain })).0 ≡ some plain)
    × (build 7 db ≢ some plain)
update_persona_unseen_example =
    update_persona_unseen 1 7 (codes "문") luna plain books refl refl refl renamed_differs refl
      build-plain

abbrev brave : Named
brave = record { name = codes "용기"; id = 41; rival = none }

abbrev wordy : Named
wordy = record {
  name = codes "abcdefghijklmnopqrstuvwxyzabcdefghijklmnopqrstuvwxyz";
  id = 42;
  rival = none;
}

-- The persona had a core value before.
before : list_core_values 7 tables ≡ codes "정직" ∷ []
unfolding list_core_values
before = refl

set_core_values_lost_example :
    let (end, db) = set_core_values 7 (brave ∷ wordy ∷ []) tables in
    (end ≡ err external) × (list_core_values 7 db ≡ [])
unfolding text_eq
set_core_values_lost_example =
    set_core_values_lost 7 brave wordy tables refl (omega arith) (omega arith) refl refl
      (omega arith)

abbrev chosen : List Named
chosen = brave ∷ record { name = codes "정직"; id = 43; rival = none } ∷ []

tables-IsKeyed : All (IsKeyed tables.vocabulary) tables.vocabulary
unfolding validate_core_value
tables-IsKeyed = ((refl, refl), tt)

chosen-AreNew : AreNew tables.vocabulary chosen
chosen-AreNew = (
  (omega arith, omega arith),
  refl,
  refl,
  ((omega arith), tt),
  ((omega arith, omega arith), refl, refl, tt, tt),
)

distinct : has_repeats (names chosen) ≡ false
unfolding text_eq
distinct = refl

-- One of the names is in the vocabulary, and the persona had it in another place.
set_core_values-list_core_values_example :
    let (end, db) = set_core_values 7 chosen tables in
    (end ≡ ok tt) × (list_core_values 7 db ≡ codes "용기" ∷ codes "정직" ∷ [])
set_core_values-list_core_values_example =
    set_core_values-list_core_values 7 chosen tables tables-IsKeyed chosen-AreNew distinct
