-- ===== src/Persona/Owning.antt =====
-- The ownership rule over the operations that change a persona.
use project_aria.Common.{
  ℕ, ◌≡◌, refl, Bool, false, Option, none, some, List, ◌==◌, arith, Option-cases, Bool-cases, inl,
  inr,
}
use project_aria.Common.Error.{Error, Result, ok, err, not_found, permission_denied}
use project_aria.Common.Text.{Text}
use project_aria.Persona.Model.{Persona, CommunicationStyle, MoralCompass}
use project_aria.Persona.Repository.{Db, Named, find_persona}
use project_aria.Persona.Service.{
  get_owned, update_persona, delete_persona, write_style, write_compass, write_core_values,
}

-- A change that a caller asks of one persona
pub data Act : Type 0 where
  updates : (name tagline description : Option Text) → Act
  deletes : Act
  sets_style : CommunicationStyle → Act
  sets_compass : MoralCompass → Act
  sets_values : List Named → Act

abbrev of_result {ℓ} : {A : Type ℓ} → (A → Db) → Db → Result A → Result (Unit {0}) × Db
of_result f db (ok a) = (ok tt, f a)
of_result f db (err x) = (err x, db)

-- The operation with the persona's identifier put in, and the database after it
unfoldable pub act : (owner i : ℕ) → Act → Db → Result (Unit {0}) × Db
act owner i (updates n t d) db = of_result (λ r. r.1) db (update_persona owner i n t d db)
act owner i deletes db = of_result (λ r. r) db (delete_persona owner i db)
act owner i (sets_style s) db = write_style owner (record s { persona_id = i }) db
act owner i (sets_compass c) db = write_compass owner (record c { persona_id = i }) db
act owner i (sets_values ns) db = write_core_values owner i ns db

-- Why a caller may not
abbrev pub refusal : (owner : ℕ) → Option Persona → Option Error
refusal owner none = some not_found
refusal owner (some p) = elim (p.owner_id == owner) [
  | Bool.true ↦ none
  | false ↦ some permission_denied
]

get_owned_refused :
    (owner i : ℕ) (db : Db) (x : Error)
    → refusal owner (find_persona i db.personas) ≡ some x
    → get_owned owner i db ≡ err x
unfolding get_owned
get_owned_refused owner i db x h = elim (Option-cases (find_persona i db.personas)) [
  | inl gone ↦ ground (arith, gone)
  | inr (p, there) ↦ elim (Bool-cases (p.owner_id == owner)) [
    | inl mine ↦ ground (arith, there)
    | inr theirs ↦ ground (arith, there)
  ]
]

-- A caller who asks to update or delete a persona, or to set its style, its compass or its core
-- values, when the persona is not there or another user owns it, gets the error that says so, and no
-- row of any table changes.
pub act_refused :
    (owner i : ℕ) (a : Act) (db : Db) (x : Error)
    → refusal owner (find_persona i db.personas) ≡ some x
    → act owner i a db ≡ (err x, db)
unfolding act update_persona delete_persona write_style write_compass write_core_values
act_refused owner i (updates n t d) db x h = rw (get_owned_refused owner i db x h) refl
act_refused owner i deletes db x h = rw (get_owned_refused owner i db x h) refl
act_refused owner i (sets_style s) db x h = rw (get_owned_refused owner i db x h) refl
act_refused owner i (sets_compass c) db x h = rw (get_owned_refused owner i db x h) refl
act_refused owner i (sets_values ns) db x h = rw (get_owned_refused owner i db x h) refl
