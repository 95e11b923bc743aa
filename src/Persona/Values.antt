-- ===== src/Persona/Values.antt =====
-- The core values of a persona: what a list of names becomes, and what is left when it fails.
use project_aria.Common.{
  ℕ, ◌≤◌, ◌<◌, ◌≡◌, refl, sym, ap, ◌∙◌, true, false, if◌then◌else◌, Option, none, some, List, [],
  ◌∷◌, ◌++◌, ◌==◌, arith, leb, length, keep, Bool-cases, inl, inr, if_true, if_false,
}
use project_aria.Common.Error.{ok, err, external}
use project_aria.Common.Text.{Text, text_eq, text_eq_iff}
use project_aria.Persona.Model.{CoreValue, validate_core_value, PersonaCoreValue}
use project_aria.Persona.Repository.{
  Db, Session, Named, find_value, with_value, commit, ensure_value, any_collides, without,
  set_core_values, list_core_values,
}

pub keep-without :
    (persona : ℕ) (ls : List PersonaCoreValue)
    → keep (λ l. l.persona_id == persona) (without persona ls) ≡ []
keep-without persona [] = refl
keep-without persona (l ∷ ls) = ground (arith, keep-without persona ls)

found-ne-none : (u : CoreValue) (o : Option CoreValue) → o ≡ some u → o ≡ none → ⊥
found-ne-none u o e h = cc

find_value-append :
    (t : Text) (v : CoreValue) (vs : List CoreValue)
    → find_value t vs ≡ none
    → find_value t (vs ++ v ∷ []) ≡ (if text_eq v.value_name t then some v else none)
find_value-append t v [] h = refl
find_value-append t v (u ∷ vs) h = elim (Bool-cases (text_eq u.value_name t)) [
  | inl hit ↦ absurd (found-ne-none u _ (if_true _ _ hit) h)
  | inr miss ↦ rw miss (find_value-append t v vs (sym (if_false _ _ miss) ∙ h))
]

longer-differs : (s t : Text) → length s < length t → text_eq s t ≡ false
longer-differs s t h = elim (Bool-cases (text_eq s t)) [
  | inl same ↦ let equal = ap length ((text_eq_iff s t).0 same) in absurd (omega arith)
  | inr other ↦ other
]

-- The row that `ensure_value` makes of a name
abbrev pub fresh_value : Named → CoreValue
fresh_value n = record { id = n.id; value_name = n.name }

abbrev pub Fits : Named → Type 0
Fits n = (1 ≤ length n.name) × (length n.name ≤ 50)

pub validate-fresh_value :
    (n : Named) → Fits n → validate_core_value (fresh_value n) ≡ ok (fresh_value n)
unfolding validate_core_value
validate-fresh_value n (some_text, short) =
    let long : leb (length n.name) 50 ≡ true = ground arith in
    let full : leb 1 (length n.name) ≡ true = ground arith in rw (full, long) refl

pub ensure_value-new :
    (n : Named) (s : Session)
    → find_value n.name s.working.vocabulary ≡ none
    → Fits n
    → n.rival ≡ none
    → ensure_value n s
      ≡ (ok (fresh_value n), commit (record s { working = with_value (fresh_value n) s.working }))
unfolding ensure_value
ensure_value-new n s new (some_text, short) alone =
    let long : leb (length n.name) 50 ≡ true = ground arith in
    rw (new, long, alone, validate-fresh_value n (some_text, short)) refl

ensure_value-long :
    (n : Named) (s : Session)
    → find_value n.name s.working.vocabulary ≡ none
    → 50 < length n.name
    → ensure_value n s ≡ (err external, record s { working = s.committed })
unfolding ensure_value
ensure_value-long n s new h =
    let long : leb (length n.name) 50 ≡ false = ground arith in rw (new, long) refl

any_collides-without :
    (persona : ℕ) (l : PersonaCoreValue) (ls : List PersonaCoreValue)
    → l.persona_id ≡ persona
    → any_collides l (without persona ls) ≡ false
any_collides-without persona l [] e = refl
any_collides-without persona l (m ∷ ls) e = ground (arith, any_collides-without persona l ls)

-- A name that is new and fits, then one that the column cannot hold: `set_core_values` raises, and
-- the persona has no core value any more, since the commit for the first name has also committed
-- the deletion of the old ones.
pub set_core_values_lost :
    (persona : ℕ) (n m : Named) (db : Db)
    → find_value n.name db.vocabulary ≡ none
    → 1 ≤ length n.name
    → length n.name ≤ 50
    → n.rival ≡ none
    → find_value m.name db.vocabulary ≡ none
    → 50 < length m.name
    → let (end, db') = set_core_values persona (n ∷ m ∷ []) db in
      (end ≡ err external) × (list_core_values persona db' ≡ [])
unfolding set_core_values list_core_values
set_core_values_lost persona n m db new some_text fits alone new_too long =
    let cleared : Db = record db { links = without persona db.links } in
    let s : Session = record { committed = db; working = cleared } in
    let first = ensure_value-new n s new (some_text, fits) alone in
    let link : PersonaCoreValue = record {
      persona_id = persona;
      core_value_id = n.id;
      priority = 1;
    } in
    let apart = any_collides-without persona link db.links refl in
    let saved : Session = record {
      committed = with_value (fresh_value n) cleared;
      working = record cleared {
        links = without persona db.links ++ link ∷ [];
        vocabulary = db.vocabulary ++ fresh_value n ∷ [];
      };
    } in
    let missing : find_value m.name (db.vocabulary ++ fresh_value n ∷ []) ≡ none =
      find_value-append m.name (fresh_value n) db.vocabulary new_too
      ∙ if_false _ _ (longer-differs n.name m.name (omega arith)) in
    let second = ensure_value-long m saved missing long in
    let end : set_core_values persona (n ∷ m ∷ []) db
        ≡ (err external, with_value (fresh_value n) cleared) =
      rw (first, apart, second) refl in
    (ap (λ r. r.0) end, rw end (rw (keep-without persona db.links) refl))
