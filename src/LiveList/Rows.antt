-- ===== src/LiveList/Rows.antt =====
-- What holds of the rows on screen, whatever replies and pushes arrive in whatever order.
use sentinel_edr.Common.{
  ℕ, zero, suc, ◌≡◌, refl, ap, true, false, ◌||◌, String, List, [], ◌∷◌, ◌++◌, arith, All, All-of,
  take, contains, Distinct, Bool-cases, inl, inr, string_same,
}
use sentinel_edr.LiveList.{Row, State, ids, add, add_all, unseen}

pub contains-add :
    (k : String) (seen : List String) (j : String)
    → contains (add k seen) j ≡ string_same.same k j || contains seen j
contains-add k seen j = ground (arith, string_same.same_iff k j)

pub contains-add_all :
    (xs : List Row) (seen : List String) (j : String)
    → contains (add_all xs seen) j ≡ contains (ids xs) j || contains seen j
contains-add_all [] seen j = refl
contains-add_all (x ∷ xs) seen j =
    ground (arith, contains-add_all xs (add x.id seen) j, contains-add x.id seen j)

-- A known id stays known.
pub kept :
    (xs : List Row) (seen : List String) (j : String)
    → contains seen j ≡ true
    → contains (add_all xs seen) j ≡ true
kept xs seen j h = ground (arith, contains-add_all xs seen j)

pub added :
    (xs : List Row) (seen : List String) → All (λ x. contains (add_all xs seen) x.id ≡ true) xs
added [] seen = tt
added (x ∷ xs) seen = (
  kept xs (add x.id seen) x.id
      (ground (arith, contains-add x.id seen x.id, string_same.same_iff x.id x.id)),
  added xs (add x.id seen),
)

pub unseen-new :
    (seen : List String) (xs : List Row) → All (λ x. contains seen x.id ≡ false) (unseen seen xs)
unseen-new seen [] = tt
unseen-new seen (x ∷ xs) = elim (Bool-cases (contains seen x.id)) [
  | inl e ↦ rw e (unseen-new seen xs)
  | inr e ↦ rw e (e, unseen-new seen xs)
]

pub ids-unseen :
    (seen : List String) (xs : List Row) (k : String)
    → contains (ids xs) k ≡ false
    → contains (ids (unseen seen xs)) k ≡ false
ids-unseen seen [] k h = refl
ids-unseen seen (x ∷ xs) k h = ground (arith, ids-unseen seen xs k)

pub unseen-Distinct :
    (seen : List String) (xs : List Row) → Distinct (ids xs) → Distinct (ids (unseen seen xs))
unseen-Distinct seen [] h = tt
unseen-Distinct seen (x ∷ xs) h = elim (Bool-cases (contains seen x.id)) [
  | inl e ↦ rw e (unseen-Distinct seen xs h.1)
  | inr e ↦ rw e (ids-unseen seen xs x.id h.0, unseen-Distinct seen xs h.1)
]

pub ids-append : (xs ys : List Row) → ids (xs ++ ys) ≡ ids xs ++ ids ys
ids-append [] ys = refl
ids-append (x ∷ xs) ys = ap (◌∷◌ x.id) (ids-append xs ys)

pub ids-take : (n : ℕ) (xs : List Row) → ids (take n xs) ≡ take n (ids xs)
ids-take zero xs = refl
ids-take (suc n) [] = refl
ids-take (suc n) (x ∷ xs) = ap (◌∷◌ x.id) (ids-take n xs)

-- No id twice on screen, and every row on screen is known.
pub record IsValid (s : State) : Type 0 where
  pub distinct : Distinct (ids s.items)
  pub known : All (λ x. contains s.seen x.id ≡ true) s.items

-- An unknown row is not on screen.
pub not-shown :
    (seen : List String) (items : List Row) (k : String)
    → All (λ x. contains seen x.id ≡ true) items
    → contains seen k ≡ false
    → contains (ids items) k ≡ false
not-shown seen [] k h u = refl
not-shown seen (x ∷ xs) k h u =
    ground (arith, not-shown seen xs k h.1 u, string_same.same_iff x.id k)

pub fresh-ids :
    (seen : List String) (items xs : List Row)
    → All (λ x. contains seen x.id ≡ true) items
    → All (λ x. contains seen x.id ≡ false) xs
    → All (λ k. contains (ids items) k ≡ false) (ids xs)
fresh-ids seen items [] h n = tt
fresh-ids seen items (x ∷ xs) h n = (not-shown seen items x.id h n.0, fresh-ids seen items xs h n.1)

pub known-All :
    (xs items : List Row) (seen : List String)
    → All (λ x. contains seen x.id ≡ true) items
    → All (λ x. contains (add_all xs seen) x.id ≡ true) items
known-All xs items seen h = All-of items (λ x e. kept xs seen x.id e) h
