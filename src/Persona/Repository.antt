-- ===== src/Persona/Repository.antt =====
-- persona/adapter/outbound/persistence: the five tables, and a session, whose transaction sees its
-- own rows, which a commit keeps and a rollback drops.
use project_aria.Common.{
  ℕ, suc, Bool, false, ◌&&◌, ◌||◌, not, Option, none, some, List, [], ◌∷◌, ◌++◌, ◌==◌,
  if◌then◌else◌, leb, length, keep,
}
use project_aria.Common.Error.{Result, ok, err, integrity_error, external}
use project_aria.Common.Text.{Text, text_eq}
use project_aria.Persona.Model.{
  Persona, CommunicationStyle, MoralCompass, CoreValue, validate_core_value, PersonaCoreValue,
}

-- Rows in the order of their insertion
pub record Db : Type 0 where
  pub personas : List Persona
  pub styles : List CommunicationStyle
  pub compasses : List MoralCompass
  pub vocabulary : List CoreValue
  pub links : List PersonaCoreValue

-- `get_by_id`
abbrev pub find_persona : ℕ → List Persona → Option Persona
find_persona i [] = none
find_persona i (p ∷ ps) = if p.id == i then some p else find_persona i ps

abbrev insert_persona : Option Persona → Persona → Db → Result Db
insert_persona none p db = ok (record db { personas = db.personas ++ p ∷ [] })
insert_persona (some q) p db = err integrity_error

-- `SqlModelPersonaRepository.add`
unfoldable pub add : Persona → Db → Result Db
add p db = insert_persona (find_persona p.id db.personas) p db

-- `list_by_owner`
unfoldable pub list_by_owner : ℕ → Db → List Persona
list_by_owner owner db = keep (λ p. p.owner_id == owner) db.personas

abbrev pub replace_persona : Persona → List Persona → List Persona
replace_persona p [] = []
replace_persona p (q ∷ qs) =
    (if q.id == p.id
      then record q {
        name = p.name;
        tagline = p.tagline;
        description = p.description;
        is_active = p.is_active;
      }
      else q)
    ∷ replace_persona p qs

-- `update`
unfoldable pub update : Persona → Db → Db
update p db = record db { personas = replace_persona p db.personas }

-- `delete`
unfoldable pub delete : Persona → Db → Db
delete p db = record db { personas = keep (λ q. not (q.id == p.id)) db.personas }

-- `get_style`
abbrev pub get_style : ℕ → List CommunicationStyle → Option CommunicationStyle
get_style i [] = none
get_style i (s ∷ ss) = if s.persona_id == i then some s else get_style i ss

abbrev put_style : CommunicationStyle → List CommunicationStyle → List CommunicationStyle
put_style s [] = s ∷ []
put_style s (t ∷ ts) = if t.persona_id == s.persona_id then s ∷ ts else t ∷ put_style s ts

-- `set_style`
unfoldable pub set_style : CommunicationStyle → Db → Db
set_style s db = record db { styles = put_style s db.styles }

-- `get_compass`
abbrev pub get_compass : ℕ → List MoralCompass → Option MoralCompass
get_compass i [] = none
get_compass i (c ∷ cs) = if c.persona_id == i then some c else get_compass i cs

abbrev put_compass : MoralCompass → List MoralCompass → List MoralCompass
put_compass c [] = c ∷ []
put_compass c (d ∷ ds) = if d.persona_id == c.persona_id then c ∷ ds else d ∷ put_compass c ds

-- `set_compass`
unfoldable pub set_compass : MoralCompass → Db → Db
set_compass c db = record db { compasses = put_compass c db.compasses }

pub record Session : Type 0 where
  pub committed : Db
  pub working : Db

-- A name of the list, the identifier that a new row for it would draw, and the row that another
-- transaction has committed for it in the meantime, if any
pub record Named : Type 0 where
  pub name : Text
  pub id : ℕ
  pub rival : Option ℕ

-- `WHERE value_name = name`
abbrev pub find_value : Text → List CoreValue → Option CoreValue
find_value t [] = none
find_value t (v ∷ vs) = if text_eq v.value_name t then some v else find_value t vs

abbrev pub with_value : CoreValue → Db → Db
with_value v db = record db { vocabulary = db.vocabulary ++ v ∷ [] }

-- `rollback`
abbrev pub rolled_back : Session → Session
rolled_back s = record s { working = s.committed }

-- `commit`
abbrev pub commit : Session → Session
commit s = record s { committed = s.working }

-- The INSERT of a new value with its `commit`. The column holds fifty characters. A rival's row
-- makes the commit fail, and after the rollback that row is there.
abbrev insert_value : Named → Session → Result CoreValue × Session
insert_value n s =
    let mine : CoreValue = record { id = n.id; value_name = n.name } in
    if leb (length n.name) 50
    then elim n.rival [
      | none ↦ (validate_core_value mine, commit (record s { working = with_value mine s.working }))
      | some i ↦
          let theirs : CoreValue = record { id = i; value_name = n.name } in
          let db = with_value theirs s.committed in
          (validate_core_value theirs, record { committed = db; working = db })
    ]
    else (err external, rolled_back s)

abbrev value_or_new : Option CoreValue → Named → Session → Result CoreValue × Session
value_or_new (some v) n s = (validate_core_value v, s)
value_or_new none n s = insert_value n s

-- `ensure_value`
unfoldable pub ensure_value : Named → Session → Result CoreValue × Session
unfolding text_eq
ensure_value n s = value_or_new (find_value n.name s.working.vocabulary) n s

-- Whether two rows collide in one of the two unique constraints
abbrev pub collides : PersonaCoreValue → PersonaCoreValue → Bool
collides a b =
    a.persona_id == b.persona_id && (a.core_value_id == b.core_value_id || a.priority == b.priority)

abbrev pub any_collides : PersonaCoreValue → List PersonaCoreValue → Bool
any_collides a [] = false
any_collides a (b ∷ bs) = collides b a || any_collides a bs

-- The row of a link, which is refused no later than at the next flush
abbrev pub add_link : PersonaCoreValue → Session → Result (Unit {0}) × Session
add_link l s =
    if any_collides l s.working.links
    then (err integrity_error, rolled_back s)
    else (ok tt, record s { working = record s.working { links = s.working.links ++ l ∷ [] } })

abbrev pub then_ok {ℓ κ} :
    {A : Type ℓ} {B : Type κ}
    → Result A × Session
    → (A → Session → Result B × Session)
    → Result B × Session
then_ok (ok a, s) rest = rest a s
then_ok (err x, s) rest = (err x, rolled_back s)

-- The loop over the names, from a priority on
abbrev pub add_values : (persona priority : ℕ) → List Named → Session → Result (Unit {0}) × Session
add_values persona k [] s = (ok tt, s)
add_values persona k (n ∷ ns) s = then_ok (ensure_value n s) λ v s1.
    then_ok (add_link (record { persona_id = persona; core_value_id = v.id; priority = k }) s1)
      λ _ s2. add_values persona (suc k) ns s2

-- The links of other personas
abbrev pub without : ℕ → List PersonaCoreValue → List PersonaCoreValue
without persona ls = keep (λ l. not (l.persona_id == persona)) ls

-- `set_core_values`, in a session with nothing pending: the rows that are committed in the end
unfoldable pub set_core_values : ℕ → List Named → Db → Result (Unit {0}) × Db
unfolding ensure_value
set_core_values persona ns db =
    let cleared : Db = record db { links = without persona db.links } in
    let (end, s) =
      then_ok (add_values persona 1 ns (record { committed = db; working = cleared }))
        λ _ s1. (ok tt, commit s1) in
    (end, s.committed)

abbrev pub insert_link : PersonaCoreValue → List PersonaCoreValue → List PersonaCoreValue
insert_link l [] = l ∷ []
insert_link l (m ∷ ms) = if leb l.priority m.priority then l ∷ m ∷ ms else m ∷ insert_link l ms

-- `ORDER BY priority`
abbrev pub by_priority : List PersonaCoreValue → List PersonaCoreValue
by_priority [] = []
by_priority (l ∷ ls) = insert_link l (by_priority ls)

abbrev pub name_of : ℕ → List CoreValue → Option Text
name_of i [] = none
name_of i (v ∷ vs) = if v.id == i then some v.value_name else name_of i vs

abbrev pub joined : List PersonaCoreValue → List CoreValue → List Text
joined [] vs = []
joined (l ∷ ls) vs = elim (name_of l.core_value_id vs) [
  | none ↦ joined ls vs
  | some t ↦ t ∷ joined ls vs
]

-- `list_core_values`
unfoldable pub list_core_values : ℕ → Db → List Text
list_core_values persona db =
    joined (by_priority (keep (λ l. l.persona_id == persona) db.links)) db.vocabulary
