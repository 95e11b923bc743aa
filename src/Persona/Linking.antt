-- ===== src/Persona/Linking.antt =====
-- One link more in the list of a persona's core values.
use project_aria.Common.{
  ℕ, suc, ◌<◌, ◌≡◌, refl, ap, ◌∙◌, Bool, true, false, ◌||◌, some, List, [], ◌∷◌, ◌++◌, ◌==◌, arith,
  keep, All, All-append, All-map, All-keep, keep-append, eq_refl, if◌then◌else◌,
}
use project_aria.Common.Text.{Text, text_eq}
use project_aria.Persona.Model.{CoreValue, PersonaCoreValue}
use project_aria.Persona.Repository.{Named, any_collides, by_priority, name_of, joined}
use project_aria.Persona.Service.{is_repeated, has_repeats, names}
use project_aria.Persona.Links.{
  by_priority-last, IsBefore, any_collides-before, All-by_priority, joined-append, IsWider,
  joined-IsWider, listed,
}

or_false_left : (a b : Bool) → (a || b) ≡ false → a ≡ false
or_false_left true b h = h
or_false_left false b h = refl

pub or_false_right : (a b : Bool) → (a || b) ≡ false → b ≡ false
or_false_right true b h = absurd (cc)
or_false_right false b h = h

-- One link more
module _ (persona k i : ℕ) (n : Named) (ns : List Named) (vs ws : List CoreValue)
    (ls : List PersonaCoreValue) (wider : IsWider vs ws) (named : name_of i ws ≡ some n.name)
    (apart : has_repeats (names (n ∷ ns)) ≡ false)
    (before : All (IsBefore persona k (n ∷ ns) vs) ls) where
  widen :
      (l : PersonaCoreValue) → IsBefore persona k (n ∷ ns) vs l → IsBefore persona k (n ∷ ns) ws l
  widen l f e =
      let (low, t, its_name, other) = f e in (low, t, wider l.core_value_id t its_name, other)

  later :
      (l : PersonaCoreValue) → IsBefore persona k (n ∷ ns) ws l → IsBefore persona (suc k) ns ws l
  later l f e =
      let (low, t, its_name, other) = f e in
      (omega (arith, low), t, its_name, or_false_right (text_eq n.name t) _ other)

  before_ws : All (IsBefore persona k (n ∷ ns) ws) ls
  before_ws =
      All-map (IsBefore persona k (n ∷ ns) vs) (IsBefore persona k (n ∷ ns) ws) widen ls before

  pub link-apart :
      any_collides (record { persona_id = persona; core_value_id = i; priority = k }) ls ≡ false
  link-apart = any_collides-before persona k i n ns ws ls named before_ws

  pub link-before :
      All
        (IsBefore persona (suc k) ns ws)
        (ls ++ record { persona_id = persona; core_value_id = i; priority = k } ∷ [])
  link-before =
      All-append _ ls _
        (All-map (IsBefore persona k (n ∷ ns) ws) (IsBefore persona (suc k) ns ws) later ls
          before_ws)
        (
          (λ e.
              (omega arith, n.name, named, or_false_left (is_repeated n.name (names ns)) _ apart)),
          tt,
        )

  pub link-listed :
      listed persona
        (ls ++ record { persona_id = persona; core_value_id = i; priority = k } ∷ [])
        ws
      ≡ listed persona ls vs ++ n.name ∷ []
  link-listed =
      let link : PersonaCoreValue = record {
        persona_id = persona;
        core_value_id = i;
        priority = k;
      } in
      let own = keep (λ l. l.persona_id == persona) ls in
      let known : All
          (λ l.
            (l.priority < k)
            × (t : Text) × (name_of l.core_value_id vs ≡ some t)
            × (is_repeated t (names (n ∷ ns)) ≡ false))
          own =
        All-keep _ (λ l. l.persona_id == persona) ls
          (All-map (IsBefore persona k (n ∷ ns) vs) _ (λ l f e. f (ground arith)) ls before) in
      let split : keep (λ l. l.persona_id == persona) (ls ++ link ∷ []) ≡ own ++ link ∷ [] =
        keep-append (λ l. l.persona_id == persona) ls (link ∷ [])
        ∙ ap (λ b. own ++ (if b then link ∷ [] else [])) (eq_refl persona) in
      let last : joined (link ∷ []) ws ≡ n.name ∷ [] = rw (joined, named) refl in
      ap (λ ms. joined (by_priority ms) ws) split
      ∙ ap (λ ms. joined ms ws)
          (by_priority-last link own
            (All-map _ _ (λ l f. let low = f.0 in omega (arith, low)) own known))
      ∙ joined-append (by_priority own) (link ∷ []) ws
      ∙ ap (λ ts. joined (by_priority own) ws ++ ts) last
      ∙ ap (λ ts. ts ++ n.name ∷ [])
          (joined-IsWider (by_priority own) vs ws wider
            (All-by_priority _ own (All-map _ _ (λ l f. (f.1, f.2)) own known)))
