-- ===== src/Mitre/Stages.antt =====
-- The tactics that a set of technique ids shows.
use sentinel_edr.Common.{
  ◌≡◌, refl, sym, Bool, true, false, ◌&&◌, ◌||◌, Option, none, some, List, [], ◌∷◌, any, all,
  contains, filter, ltb, StrictEq, ◌===◌, arith, contains-append, Bool-cases, inl, inr,
}
use sentinel_edr.Common.Text.{Text}
use sentinel_edr.Mitre.Table.{Tactic, tactics, place, tactic_same}
use sentinel_edr.Mitre.{technique_tactic, add_tactic, observe, tactics_from_techniques}

-- The tactic is present, and it is this one.
abbrev pub is_tactic : Option Tactic → Tactic → Bool
is_tactic none t = false
is_tactic (some u) t = u === t

abbrev pub in_order : List Tactic → Bool
in_order [] = true
in_order (t ∷ ts) = all (λ u. ltb (place t) (place u)) ts && in_order ts

module _ {ℓ} {A : Type ℓ} where
  pub all-filter : (p q : A → Bool) (xs : List A) → all p xs ≡ true → all p (filter q xs) ≡ true
  all-filter p q [] h = refl
  all-filter p q (x ∷ xs) h = ground (arith, all-filter p q xs)

module _ {ℓ} {A : Type ℓ} ⦃e : StrictEq A⦄ where
  pub contains-filter_all :
      (p : A → Bool) (xs : List A) (a : A) → contains (filter p xs) a ≡ contains xs a && p a
  contains-filter_all p [] a = refl
  contains-filter_all p (x ∷ xs) a = elim (Bool-cases (x === a)) [
    | inl y ↦
        rw (sym ((e.same_iff x a).0 y)) (ground (arith, contains-filter_all p xs x, e.same_iff x x))
    | inr n ↦ ground (arith, contains-filter_all p xs a)
  ]

in_order-filter :
    (p : Tactic → Bool) (ts : List Tactic) → in_order ts ≡ true → in_order (filter p ts) ≡ true
in_order-filter p [] h = refl
in_order-filter p (t ∷ ts) h =
    ground (arith, in_order-filter p ts, all-filter (λ u. ltb (place t) (place u)) p ts)

pub contains-tactics : (t : Tactic) → contains tactics t ≡ true
contains-tactics Tactic.reconnaissance = refl
contains-tactics Tactic.resource_development = refl
contains-tactics Tactic.initial_access = refl
contains-tactics Tactic.execution = refl
contains-tactics Tactic.persistence = refl
contains-tactics Tactic.privilege_escalation = refl
contains-tactics Tactic.defense_evasion = refl
contains-tactics Tactic.credential_access = refl
contains-tactics Tactic.discovery = refl
contains-tactics Tactic.lateral_movement = refl
contains-tactics Tactic.collection = refl
contains-tactics Tactic.command_and_control = refl
contains-tactics Tactic.exfiltration = refl
contains-tactics Tactic.impact = refl

pub contains-add_tactic :
    (o : Option Tactic) (set : List Tactic) (t : Tactic)
    → contains (add_tactic o set) t ≡ contains set t || is_tactic o t
contains-add_tactic none set t = ground arith
contains-add_tactic (some u) set t =
    ground (arith, contains-append set (u ∷ []) t, tactic_same.same_iff u t)

contains-observe :
    (ids : List Text) (set : List Tactic) (t : Tactic)
    → contains (observe ids set) t
      ≡ contains set t || any (λ id. is_tactic (technique_tactic id) t) ids
contains-observe [] set t = ground arith
contains-observe (id ∷ ids) set t =
    rw (contains-observe ids _ t)
      (rw (contains-add_tactic (technique_tactic id) set t) (ground arith))

pub contains-tactics_from_techniques :
    (ids : List Text) (t : Tactic)
    → contains (tactics_from_techniques ids) t ≡ any (λ id. is_tactic (technique_tactic id) t) ids
unfolding tactics_from_techniques
contains-tactics_from_techniques ids t =
    rw (contains-filter_all (contains (observe ids [])) tactics t)
      (rw (contains-tactics t, contains-observe ids [] t) refl)

-- The tactics of a set of technique ids are those of its techniques, and they stand in the order
-- of the kill chain, each once.
pub tactics_from_techniques-in_order :
    (ids : List Text)
    → ((t : Tactic)
        → contains (tactics_from_techniques ids) t
          ≡ any (λ id. is_tactic (technique_tactic id) t) ids)
      × (in_order (tactics_from_techniques ids) ≡ true)
unfolding tactics_from_techniques
tactics_from_techniques-in_order ids =
    (contains-tactics_from_techniques ids, in_order-filter (contains (observe ids [])) tactics refl)
