-- ===== src/Screens/Counts.antt =====
-- Counting by a name, as the pages do on a plain object. The names that every object inherits are out
-- of the model.
use sentinel_edr.Common.{
  ℕ, suc, ◌+◌, ◌≡◌, refl, false, List, [], ◌∷◌, length, filter, if◌then◌else◌, String, ◌===◌,
  string_same, arith,
}

abbrev pub Tally : Type 0
Tally = List (String × ℕ)

-- `c[k] || 0`
unfoldable pub count : String → Tally → ℕ
count k [] = 0
count k ((n, c) ∷ m) = let rest = count k m in if n === k then c else rest

-- `c[k] = (c[k] || 0) + 1`
unfoldable pub bump : String → Tally → Tally
bump k [] = (k, 1) ∷ []
bump k ((n, c) ∷ m) = let rest = bump k m in if n === k then (n, suc c) ∷ m else (n, c) ∷ rest

count-bump :
    (k j : String) (m : Tally)
    → count k (bump j m) ≡ (if j === k then suc (count k m) else count k m)
unfolding count bump
count-bump k j [] = ground arith
count-bump k j ((n, c) ∷ m) = ground (
  arith,
  count-bump k j m,
  string_same.same_iff n j,
  string_same.same_iff n k,
  string_same.same_iff j k,
)

module _ {A : Type 0} (name : A → String) where
  -- `xs.forEach((x) => (c[name(x)] = (c[name(x)] || 0) + 1))`
  unfoldable pub tally : List A → Tally → Tally
  tally [] m = m
  tally (x ∷ xs) m = tally xs (bump (name x) m)

  -- A name's count has grown by the number of the elements of that name.
  pub count-tally :
      (k : String) (xs : List A) (m : Tally)
      → count k (tally xs m) ≡ count k m + length (filter (λ x. name x === k) xs)
  unfolding tally
  count-tally k [] m = omega arith
  count-tally k (x ∷ xs) m =
      ground (arith, count-tally k xs (bump (name x) m), count-bump k (name x) m)

  -- A name that starts from 0.
  pub count-tally_new :
      (k : String) (xs : List A) (m : Tally)
      → count k m ≡ 0
      → count k (tally xs m) ≡ length (filter (λ x. name x === k) xs)
  count-tally_new k xs m h = omega (arith, count-tally k xs m, h)

  -- A name that no element has.
  pub count-tally_none :
      (k : String) (xs : List A) (m : Tally)
      → ((x : A) → name x === k ≡ false)
      → count k (tally xs m) ≡ count k m
  unfolding tally
  count-tally_none k [] m h = refl
  count-tally_none k (x ∷ xs) m h =
      ground (arith, count-tally_none k xs (bump (name x) m) h, count-bump k (name x) m, h x)
