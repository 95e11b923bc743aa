-- ===== src/Persona/Links.antt =====
-- Links of a persona to core values, and the lists that are read through them.
use project_aria.Common.{
  ℕ, ◌≤◌, ◌<◌, ◌≡◌, ◌≢◌, refl, sym, ap, ◌∙◌, subst, true, false, none, some, List, [], ◌∷◌, ◌++◌,
  ◌==◌, arith, leb, keep, All, Bool-cases, Option-cases, inl, inr, if_true, if_false, if◌then◌else◌,
}
use project_aria.Common.Error.{ok}
use project_aria.Common.Text.{Text, text_eq, text_eq_iff, text_eq_refl}
use project_aria.Persona.Model.{CoreValue, validate_core_value, PersonaCoreValue}
use project_aria.Persona.Repository.{
  Named, find_value, any_collides, insert_link, by_priority, name_of, joined,
}
use project_aria.Persona.Service.{is_repeated, names}
use project_aria.Persona.Values.{Fits}

-- A row of the vocabulary that the constructor takes and that its identifier finds
abbrev pub IsKeyed : List CoreValue → CoreValue → Type 0
IsKeyed vs v = (validate_core_value v ≡ ok v) × (name_of v.id vs ≡ some v.value_name)

-- Each name fits, no other transaction adds it, and the identifier that its row would get is new
abbrev pub AreNew : List CoreValue → List Named → Type 0
AreNew vs [] = Unit {0}
AreNew vs (n ∷ ns) =
    Fits n × (n.rival ≡ none) × (name_of n.id vs ≡ none) × All (λ m. m.id ≢ n.id) ns × AreNew vs ns

pub name_of-append :
    (i : ℕ) (vs : List CoreValue) (v : CoreValue) (t : Text)
    → name_of i vs ≡ some t
    → name_of i (vs ++ v ∷ []) ≡ some t
name_of-append i [] v t h = cc
name_of-append i (u ∷ vs) v t h = ground (arith, name_of-append i vs v t)

pub name_of-append_new :
    (vs : List CoreValue) (v : CoreValue) (i : ℕ)
    → name_of i vs ≡ none
    → name_of i (vs ++ v ∷ []) ≡ (if v.id == i then some v.value_name else none)
name_of-append_new [] v i h = refl
name_of-append_new (u ∷ vs) v i h = ground (arith, name_of-append_new vs v i)

pub found_value {ℓ} :
    (P : CoreValue → Type ℓ) (t : Text) (vs : List CoreValue) (v : CoreValue)
    → All P vs
    → find_value t vs ≡ some v
    → P v × (v.value_name ≡ t)
found_value P t [] v all h = cc
found_value P t (u ∷ vs) v (p, all) h = elim (Bool-cases (text_eq u.value_name t)) [
  | inl hit ↦
      let same : some u ≡ some v = sym (if_true _ _ hit) ∙ h in
      let equal : u ≡ v = cc in
      (subst P equal p, sym (ap (λ w. w.value_name) equal) ∙ (text_eq_iff u.value_name t).0 hit)
  | inr miss ↦ found_value P t vs v all (sym (if_false _ _ miss) ∙ h)
]

insert_link-last :
    (l m : PersonaCoreValue) (ls : List PersonaCoreValue)
    → l.priority ≤ m.priority
    → insert_link l (ls ++ m ∷ []) ≡ insert_link l ls ++ m ∷ []
insert_link-last l m [] h = ground (arith)
insert_link-last l m (k ∷ ls) h = ground (arith, insert_link-last l m ls h)

pub by_priority-last :
    (m : PersonaCoreValue) (ls : List PersonaCoreValue)
    → All (λ l. l.priority ≤ m.priority) ls
    → by_priority (ls ++ m ∷ []) ≡ by_priority ls ++ m ∷ []
by_priority-last m [] all = refl
by_priority-last m (l ∷ ls) (h, all) =
    rw (by_priority-last m ls all) (insert_link-last l m (by_priority ls) h)

-- A link of the persona stands before a priority, and its value has a name that is none of a list's
abbrev pub IsBefore : (persona k : ℕ) → List Named → List CoreValue → PersonaCoreValue → Type 0
IsBefore persona k ns vs l =
    l.persona_id ≡ persona
    → (l.priority < k)
      × (t : Text) × (name_of l.core_value_id vs ≡ some t)
      × (is_repeated t (names ns) ≡ false)

name_of_unique :
    (i j : ℕ) (vs : List CoreValue) (s t : Text)
    → name_of i vs ≡ some s
    → name_of j vs ≡ some t
    → i ≡ j
    → s ≡ t
name_of_unique i j vs s t a b e =
    let same : some s ≡ some t = sym a ∙ ap (λ m. name_of m vs) e ∙ b in cc

own_name :
    (n : Named) (t : Text) (ns : List Named) → t ≡ n.name → is_repeated t (names (n ∷ ns)) ≢ false
own_name n t ns e h =
    let yes : is_repeated t (names (n ∷ ns)) ≡ true = rw (e, text_eq_refl n.name) refl in cc

pub any_collides-before :
    (persona k i : ℕ) (n : Named) (ns : List Named) (vs : List CoreValue)
    (ls : List PersonaCoreValue)
    → name_of i vs ≡ some n.name
    → All (IsBefore persona k (n ∷ ns) vs) ls
    → any_collides (record { persona_id = persona; core_value_id = i; priority = k }) ls ≡ false
any_collides-before persona k i n ns vs [] named all = refl
any_collides-before persona k i n ns vs (l ∷ ls) named (before, all) =
    elim (Bool-cases (l.persona_id == persona)) [
      | inl its ↦
          let (low, t, its_name, apart) = before (ground arith) in
          elim (Bool-cases (l.core_value_id == i)) [
            | inl same ↦ absurd (
                own_name n t ns (name_of_unique _ i vs t n.name its_name named (ground arith))
                  apart)
            | inr other ↦
                let late : (l.priority == k) ≡ false = ground arith in
                rw (its, other, late) (any_collides-before persona k i n ns vs ls named all)
          ]
      | inr not_its ↦ rw not_its (any_collides-before persona k i n ns vs ls named all)
    ]

All-insert_link {κ} :
    (P : PersonaCoreValue → Type κ) (l : PersonaCoreValue) (ls : List PersonaCoreValue)
    → P l
    → All P ls
    → All P (insert_link l ls)
All-insert_link P l [] p all = (p, tt)
All-insert_link P l (m ∷ ls) p (q, all) = elim (Bool-cases (leb l.priority m.priority)) [
  | inl hit ↦ rw hit (p, (q, all))
  | inr miss ↦ rw miss (q, All-insert_link P l ls p all)
]

pub All-by_priority {κ} :
    (P : PersonaCoreValue → Type κ) (ls : List PersonaCoreValue) → All P ls → All P (by_priority ls)
All-by_priority P [] all = tt
All-by_priority P (l ∷ ls) (p, all) =
    All-insert_link P l (by_priority ls) p (All-by_priority P ls all)

pub joined-append :
    (ls ms : List PersonaCoreValue) (vs : List CoreValue)
    → joined (ls ++ ms) vs ≡ joined ls vs ++ joined ms vs
joined-append [] ms vs = refl
joined-append (l ∷ ls) ms vs = elim (Option-cases (name_of l.core_value_id vs)) [
  | inl gone ↦ rw (joined, gone, joined-append ls ms vs) refl
  | inr (t, there) ↦ rw (joined, there, joined-append ls ms vs) refl
]

-- `list_core_values` of a list of links and a vocabulary
abbrev pub listed : ℕ → List PersonaCoreValue → List CoreValue → List Text
listed persona ls vs = joined (by_priority (keep (λ l. l.persona_id == persona) ls)) vs

-- Two vocabularies of which the second has the names of the first
abbrev pub IsWider : List CoreValue → List CoreValue → Type 0
IsWider vs ws = (i : ℕ) (t : Text) → name_of i vs ≡ some t → name_of i ws ≡ some t

pub joined-IsWider :
    (ls : List PersonaCoreValue) (vs ws : List CoreValue)
    → IsWider vs ws
    → All (λ l. (t : Text) × (name_of l.core_value_id vs ≡ some t)) ls
    → joined ls ws ≡ joined ls vs
joined-IsWider [] vs ws wider all = refl
joined-IsWider (l ∷ ls) vs ws wider ((t, named), all) =
    rw (joined, named, wider l.core_value_id t named, joined-IsWider ls vs ws wider all) refl
