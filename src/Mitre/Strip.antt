-- ===== src/Mitre/Strip.antt =====
-- The kill-chain strip shows the observed tactics.
use sentinel_edr.Common.{
  ◌≡◌, refl, sym, ap, ◌∙◌, Bool, true, false, ◌&&◌, ◌||◌, Option, none, some, List, [], ◌∷◌, ◌++◌,
  any, contains, ◌===◌, arith, contains-append, Bool-cases, inl, inr, map, get_or, find, list_same,
  nat_same,
}
use sentinel_edr.Common.Text.{Text, to_lower}
use sentinel_edr.Mitre.Table.{Tactic, tactics, tactic_name, tactic_same}
use sentinel_edr.Mitre.Stages.{
  is_tactic, contains-tactics, contains-add_tactic, contains-tactics_from_techniques,
}
use sentinel_edr.Mitre.{
  tactics_from_techniques, window, Stage, stage, strip_of, observed, kill_chain_strip,
  technique_tactic, add_named,
}
use sentinel_edr.Mitre.Window.{window-split}

-- A stage of the tactic that is lit.
abbrev pub lights : Tactic → Stage → Bool
lights t s = s.title === t && s.hot

any-stage :
    (seen ts : List Tactic) (t : Tactic)
    → any (lights t) (map (stage seen) ts) ≡ contains seen t && contains ts t
any-stage seen [] t = ground arith
any-stage seen (u ∷ ts) t = elim (Bool-cases (u === t)) [
  | inl y ↦
      ap (λ b. b && contains seen u || any (lights t) (map (stage seen) ts)) y
      ∙ ground (arith, y, any-stage seen ts t, ap (contains seen) ((tactic_same.same_iff u t).0 y))
  | inr n ↦
      ap (λ b. b && contains seen u || any (lights t) (map (stage seen) ts)) n
      ∙ ground (arith, n, any-stage seen ts t)
]

contains-cold :
    (p : Tactic → Bool) (ts : List Tactic) (t : Tactic)
    → any p ts ≡ false
    → p t ≡ true
    → contains ts t ≡ false
contains-cold p [] t cold hot = refl
contains-cold p (u ∷ ts) t cold hot = elim (Bool-cases (u === t)) [
  | inl y ↦ ground (arith, ap p ((tactic_same.same_iff u t).0 y))
  | inr n ↦ ground (arith, contains-cold p ts t)
]

contains-window :
    (seen : List Tactic) (t : Tactic)
    → contains seen t && contains (window (contains seen) tactics) t ≡ contains seen t
contains-window seen t = elim (Bool-cases (contains seen t)) [
  | inl hot ↦
      let (before, (after, (all, (cold, cold_after)))) = window-split (contains seen) tactics in
      let split =
        sym (contains-tactics t)
        ∙ ap (λ ts. contains ts t) all
        ∙ contains-append before (window (contains seen) tactics ++ after) t in
      ground (
        arith,
        hot,
        split,
        contains-append (window (contains seen) tactics) after t,
        contains-cold (contains seen) before t cold hot,
        contains-cold (contains seen) after t cold_after hot,
      )
  | inr new ↦ rw new refl
]

-- The strip lights a stage of this tactic; no strip lights none.
abbrev pub lit : Tactic → Option (List Stage) → Bool
lit t none = false
lit t (some stages) = any (lights t) stages

lit-strip_of : (seen : List Tactic) (t : Tactic) → lit t (strip_of seen) ≡ contains seen t
lit-strip_of [] t = refl
lit-strip_of (u ∷ seen) t =
    any-stage (u ∷ seen) (window (contains (u ∷ seen)) tactics) t ∙ contains-window (u ∷ seen) t

-- The tactic that the server's text names, if it names one.
abbrev pub named : Option Text → Option Tactic
named none = none
named (some []) = none
named (some (c ∷ text)) = find (λ t. to_lower (tactic_name t) === to_lower (c ∷ text)) tactics

contains-add_named :
    (text : Option Text) (set : List Tactic) (t : Tactic)
    → contains (add_named text set) t ≡ contains set t || is_tactic (named text) t
contains-add_named none set t = ground arith
contains-add_named (some []) set t = ground arith
contains-add_named (some (c ∷ text)) set t = contains-add_tactic (named (some (c ∷ text))) set t

-- The kill-chain strip lights a tactic exactly where one of the technique ids has it or the
-- server's text names it, whatever the window leaves out; there is no strip where there is none.
pub kill_chain_strip-lit :
    (ids : Option (List Text)) (text : Option Text) (t : Tactic)
    → lit t (kill_chain_strip ids text)
      ≡ any (λ id. is_tactic (technique_tactic id) t) (get_or ids []) || is_tactic (named text) t
unfolding kill_chain_strip observed
kill_chain_strip-lit ids text t =
    lit-strip_of (add_named text (tactics_from_techniques (get_or ids []))) t
    ∙ contains-add_named text (tactics_from_techniques (get_or ids [])) t
    ∙ ap (λ b. b || is_tactic (named text) t) (contains-tactics_from_techniques (get_or ids []) t)
