-- ===== src/Persona/Listing.antt =====
-- The core values of a persona before and after `set_core_values`.
use project_aria.Common.{
  ℕ, suc, ◌≡◌, ◌≢◌, refl, sym, ap, ◌∙◌, true, false, not, none, some, List, [], ◌∷◌, ◌++◌, ◌==◌,
  arith, All, All-append, append-nil, append_assoc, All-map, All-keep, Option-cases, inl, inr,
  eq_refl, if_true,
}
use project_aria.Common.Error.{ok}
use project_aria.Common.Text.{Text}
use project_aria.Persona.Model.{CoreValue, validate_core_value, PersonaCoreValue}
use project_aria.Persona.Repository.{
  Db, Session, Named, find_value, with_value, commit, ensure_value, any_collides, add_values,
  without, set_core_values, name_of, list_core_values,
}
use project_aria.Persona.Service.{is_repeated, has_repeats, names}
use project_aria.Persona.Values.{
  fresh_value, Fits, ensure_value-new, keep-without, validate-fresh_value,
}
use project_aria.Persona.Links.{
  IsKeyed, AreNew, name_of-append, name_of-append_new, found_value, IsBefore, IsWider, listed,
}
use project_aria.Persona.Linking.{or_false_right, link-apart, link-before, link-listed}

-- What the loop over the names adds to the list
abbrev pub IsAdded : (persona k : ℕ) → List Named → Session → List Text → Type 0
IsAdded persona k ns s ts =
    (s' : Session) × (add_values persona k ns s ≡ (ok tt, s'))
    × (listed persona s'.working.links s'.working.vocabulary ≡ ts ++ names ns)

add_values-cons :
    (persona k : ℕ) (n : Named) (ns : List Named) (s s1 s' : Session) (v : CoreValue)
    → ensure_value n s ≡ (ok v, s1)
    → any_collides
        (record { persona_id = persona; core_value_id = v.id; priority = k })
        s1.working.links
      ≡ false
    → add_values persona (suc k) ns (record s1 {
      working = record s1.working {
        links =
            s1.working.links
            ++ record { persona_id = persona; core_value_id = v.id; priority = k } ∷ [];
      };
    })
      ≡ (ok tt, s')
    → add_values persona k (n ∷ ns) s ≡ (ok tt, s')
add_values-cons persona k n ns s s1 s' v ensured apart rest = rw (ensured, apart) rest

named-fresh_value :
    (vs : List CoreValue) (n : Named)
    → name_of n.id vs ≡ none
    → name_of n.id (vs ++ fresh_value n ∷ []) ≡ some n.name
named-fresh_value vs n new =
    name_of-append_new vs (fresh_value n) n.id new ∙ if_true _ _ (eq_refl n.id)

IsKeyed-append :
    (vs : List CoreValue) (n : Named)
    → All (IsKeyed vs) vs
    → Fits n
    → name_of n.id vs ≡ none
    → All (IsKeyed (vs ++ fresh_value n ∷ [])) (vs ++ fresh_value n ∷ [])
IsKeyed-append vs n keyed fits new =
    All-append _ vs (fresh_value n ∷ [])
      (All-map (IsKeyed vs) (IsKeyed (vs ++ fresh_value n ∷ []))
        (λ v h. (h.0, name_of-append v.id vs (fresh_value n) v.value_name h.1)) vs keyed)
      ((validate-fresh_value n fits, named-fresh_value vs n new), tt)

AreNew-append :
    (vs : List CoreValue) (n : Named) (ns : List Named)
    → name_of n.id vs ≡ none
    → All (λ m. m.id ≢ n.id) ns
    → AreNew vs ns
    → AreNew (vs ++ fresh_value n ∷ []) ns
AreNew-append vs n [] none_there other new = tt
AreNew-append vs n (m ∷ ns) none_there (apart, other) (fits, alone, free, differ, new) = (
  fits,
  alone,
  name_of-append_new vs (fresh_value n) m.id free ∙ ground (arith, apart),
  differ,
  AreNew-append vs n ns none_there other new,
)

ensure_value-found :
    (n : Named) (s : Session) (v : CoreValue)
    → find_value n.name s.working.vocabulary ≡ some v
    → validate_core_value v ≡ ok v
    → ensure_value n s ≡ (ok v, s)
unfolding ensure_value
ensure_value-found n s v there valid = rw (there, valid) refl

-- The state after a name whose value is there, with its link
abbrev linked : (persona k : ℕ) → CoreValue → Session → Session
linked persona k v s =
    let link : PersonaCoreValue = record {
      persona_id = persona;
      core_value_id = v.id;
      priority = k;
    } in
    record s { working = record s.working { links = s.working.links ++ link ∷ [] } }

IsAdded-cons :
    (persona k : ℕ) (n : Named) (ns : List Named) (s s1 : Session) (vs : List CoreValue)
    (v : CoreValue)
    → ensure_value n s ≡ (ok v, s1)
    → IsWider vs s1.working.vocabulary
    → name_of v.id s1.working.vocabulary ≡ some n.name
    → has_repeats (names (n ∷ ns)) ≡ false
    → All (IsBefore persona k (n ∷ ns) vs) s1.working.links
    → (has_repeats (names ns) ≡ false
        → All
            (IsBefore persona (suc k) ns s1.working.vocabulary)
            (linked persona k v s1).working.links
        → IsAdded persona
            (suc k)
            ns
            (linked persona k v s1)
            (listed persona (linked persona k v s1).working.links s1.working.vocabulary))
    → IsAdded persona k (n ∷ ns) s (listed persona s1.working.links vs)
IsAdded-cons persona k n ns s s1 vs v ensured wider named apart before next =
    let ws = s1.working.vocabulary in
    let ls = s1.working.links in
    let (s', added, shown) =
      next (or_false_right (is_repeated n.name (names ns)) _ apart)
        (link-before persona k v.id n ns vs ws ls wider named apart before) in
    (
      s',
      add_values-cons persona k n ns s s1 s' v ensured
          (link-apart persona k v.id n ns vs ws ls wider named apart before) added,
      shown
          ∙ ap (λ ts. ts ++ names ns)
              (link-listed persona k v.id n ns vs ws ls wider named apart before)
          ∙ append_assoc (listed persona ls vs) (n.name ∷ []) (names ns),
    )

add_values-IsAdded :
    (persona k : ℕ) (ns : List Named) (s : Session)
    → All (IsKeyed s.working.vocabulary) s.working.vocabulary
    → AreNew s.working.vocabulary ns
    → has_repeats (names ns) ≡ false
    → All (IsBefore persona k ns s.working.vocabulary) s.working.links
    → IsAdded persona k ns s (listed persona s.working.links s.working.vocabulary)
add_values-IsAdded persona k [] s keyed new apart before = (s, refl, sym (append-nil _))
add_values-IsAdded persona k (n ∷ ns) s keyed (fits, alone, free, differ, new) apart before =
    let vs = s.working.vocabulary in
    elim (Option-cases (find_value n.name vs)) [
      | inl gone ↦
          let v = fresh_value n in
          let s1 = commit (record s { working = with_value v s.working }) in
          IsAdded-cons persona k n ns s s1 vs v (ensure_value-new n s gone fits alone)
            (λ i t h. name_of-append i vs v t h) (named-fresh_value vs n free) apart before
            (add_values-IsAdded persona (suc k) ns (linked persona k v s1)
              (IsKeyed-append vs n keyed fits free) (AreNew-append vs n ns free differ new))
      | inr (v, there) ↦
          let ((valid, own), same) = found_value (IsKeyed vs) n.name vs v keyed there in
          IsAdded-cons persona k n ns s s vs v (ensure_value-found n s v there valid) (λ i t h. h)
            (own ∙ ap some same) apart before
            (add_values-IsAdded persona (suc k) ns (linked persona k v s) keyed new)
    ]

without-IsBefore :
    (persona : ℕ) (ns : List Named) (vs : List CoreValue) (ls : List PersonaCoreValue)
    → All (IsBefore persona 1 ns vs) (without persona ls)
without-IsBefore persona ns vs ls =
    All-keep (IsBefore persona 1 ns vs) (λ l. not (l.persona_id == persona)) ls (every ls)
  where
    every :
        (ms : List PersonaCoreValue)
        → All (λ l. not (l.persona_id == persona) ≡ true → IsBefore persona 1 ns vs l) ms
    every [] = tt
    every (m ∷ ms) = ((λ h e. absurd (ground (arith))), every ms)

-- A persona is given core values, each name once. Each fits the column, no other transaction adds
-- one of them, the identifiers of new rows are new, and the vocabulary holds only rows that its
-- constructor takes, with one identifier each: `set_core_values` succeeds, and the persona's core
-- values are those names in that order, whatever it had before.
pub set_core_values-list_core_values :
    (persona : ℕ) (ns : List Named) (db : Db)
    → All (IsKeyed db.vocabulary) db.vocabulary
    → AreNew db.vocabulary ns
    → has_repeats (names ns) ≡ false
    → let (end, db') = set_core_values persona ns db in
      (end ≡ ok tt) × (list_core_values persona db' ≡ names ns)
unfolding set_core_values list_core_values
set_core_values-list_core_values persona ns db keyed new apart =
    let cleared : Db = record db { links = without persona db.links } in
    let (s', added, shown) =
      add_values-IsAdded persona 1 ns (record { committed = db; working = cleared }) keyed new apart
        (without-IsBefore persona ns db.vocabulary db.links) in
    let end : set_core_values persona ns db ≡ (ok tt, s'.working) = rw added refl in
    let none_before : listed persona (without persona db.links) db.vocabulary ≡ [] =
      rw (keep-without persona db.links) refl in
    (
      ap (λ r. r.0) end,
      ap (λ r. list_core_values persona r.1) end ∙ shown ∙ ap (λ ts. ts ++ names ns) none_before,
    )
