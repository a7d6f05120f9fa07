-- ===== src/Filters/Order.antt =====
-- The order that a table is shown in.
use Prim.Native.Nat.{Ordering}
use sentinel_edr.Common.{
  ℕ, String, ◌≡◌, refl, ap, ◌∙◌, Bool, true, false, not, Option, none, some, List, [], ◌∷◌, ◌++◌,
  ◌===◌, string_same, nat_same, is_some, filter, leb, arith, Bool-cases, Option-cases, inl, inr,
}
use sentinel_edr.Common.Text.{Text}
use sentinel_edr.Common.Sorting.{sort, insert, IsSorted, IsSorted-of, sort-IsSorted, filter-sort}
use sentinel_edr.Filters.{Direction, State, Cell, at_most, compare_cells, before, sort_rows}

module _ {ℓ} {A : Type ℓ} (collate : Text → Text → Ordering) (get : A → String → Option Cell)
    (s : State) where
  abbrev pub filled : A → Bool
  filled a = is_some (get a s.sort_key)

  abbrev pub blank : A → Bool
  blank a = not (filled a)

  before-filled : (a b : A) → filled a ≡ true → filled b ≡ false → before collate get s a b ≡ true
  unfolding compare_cells
  before-filled a b fa fb = elim (Option-cases (get a s.sort_key)) [
    | inl e ↦ ground (arith, e)
    | inr (v, e) ↦ elim (Option-cases (get b s.sort_key)) [
      | inl n ↦ rw (e, n) refl
      | inr (w, n) ↦ ground (arith, n)
    ]
  ]

  before-blank : (a b : A) → filled a ≡ false → before collate get s a b ≡ not (filled b)
  unfolding compare_cells
  before-blank a b fa = elim (Option-cases (get a s.sort_key)) [
    | inr (v, e) ↦ ground (arith, e)
    | inl e ↦ elim (Option-cases (get b s.sort_key)) [
      | inl n ↦ rw (e, n) refl
      | inr (w, n) ↦ rw (e, n) refl
    ]
  ]

  insert-blank :
      (a : A) (xs ys : List A)
      → filled a ≡ false
      → filter blank xs ≡ []
      → filter filled ys ≡ []
      → insert (before collate get s) a (xs ++ ys) ≡ xs ++ a ∷ ys
  insert-blank a [] [] f hx hy = refl
  insert-blank a [] (y ∷ ys) f hx hy = ground (arith, before-blank a y f)
  insert-blank a (x ∷ xs) ys f hx hy = ground (arith, before-blank a x f, insert-blank a xs ys f)

  insert-filled :
      (a : A) (xs ys : List A)
      → filled a ≡ true
      → filter filled ys ≡ []
      → insert (before collate get s) a (xs ++ ys) ≡ insert (before collate get s) a xs ++ ys
  insert-filled a [] [] f hy = refl
  insert-filled a [] (y ∷ ys) f hy = ground (arith, before-filled a y f)
  insert-filled a (x ∷ xs) ys f hy = ground (arith, insert-filled a xs ys f)

  filter-blank-insert :
      (a : A) (xs : List A)
      → filled a ≡ true
      → filter blank xs ≡ []
      → filter blank (insert (before collate get s) a xs) ≡ []
  filter-blank-insert a [] f h = ground arith
  filter-blank-insert a (x ∷ xs) f h = ground (arith, filter-blank-insert a xs f)

  filter-blank-sort :
      (rows : List A) → filter blank (sort (before collate get s) (filter filled rows)) ≡ []
  filter-blank-sort [] = refl
  filter-blank-sort (x ∷ rows) = elim (Bool-cases (filled x)) [
    | inl f ↦ rw f (filter-blank-insert x _ f (filter-blank-sort rows))
    | inr f ↦ rw f (filter-blank-sort rows)
  ]

  filter-filled-blank : (rows : List A) → filter filled (filter blank rows) ≡ []
  filter-filled-blank [] = refl
  filter-filled-blank (x ∷ rows) = ground (arith, filter-filled-blank rows)

  -- In either direction the rows without a value come last, in the order they had, behind the
  -- sorted rows that have one.
  pub sort_rows-blank :
      (rows : List A)
      → sort_rows collate get s rows
        ≡ sort (before collate get s) (filter filled rows) ++ filter blank rows
  unfolding sort_rows
  sort_rows-blank [] = refl
  sort_rows-blank (x ∷ rows) = elim (Bool-cases (filled x)) [
    | inl f ↦ rw f (
        ap (insert (before collate get s) x) (sort_rows-blank rows)
        ∙ insert-filled x _ (filter blank rows) f (filter-filled-blank rows))
    | inr f ↦ rw f (
        ap (insert (before collate get s) x) (sort_rows-blank rows)
        ∙ insert-blank x _ (filter blank rows) f (filter-blank-sort rows)
            (filter-filled-blank rows))
  ]

abbrev pub IsNumber : Option Cell → Type 0
IsNumber none = Unit
IsNumber (some (Cell.number n)) = Unit
IsNumber (some (Cell.text t)) = ⊥

abbrev pub is_number : ℕ → Option Cell → Bool
is_number n (some (Cell.number m)) = m === n
is_number n _ = false

module _ (collate : Text → Text → Ordering) where
  total :
      (d : Direction) (a b : Option Cell)
      → IsNumber a
      → IsNumber b
      → at_most (compare_cells collate d a b) ≡ false
      → at_most (compare_cells collate d b a) ≡ true
  unfolding compare_cells
  total d none none ha hb h = refl
  total d none (some b) ha hb h = refl
  total d (some a) none ha hb h = cc
  total Direction.ascending (some (Cell.number m)) (some (Cell.number n)) ha hb h = ground arith
  total Direction.descending (some (Cell.number m)) (some (Cell.number n)) ha hb h = ground arith
  total d (some (Cell.number m)) (some (Cell.text n)) ha hb h = elim hb [ ]
  total d (some (Cell.text m)) (some n) ha hb h = elim ha [ ]

  trans :
      (d : Direction) (a b c : Option Cell)
      → IsNumber a
      → IsNumber b
      → IsNumber c
      → at_most (compare_cells collate d a b) ≡ true
      → at_most (compare_cells collate d b c) ≡ true
      → at_most (compare_cells collate d a c) ≡ true
  unfolding compare_cells
  trans d none b none ha hb hc h k = refl
  trans d (some a) b none ha hb hc h k = refl
  trans d a none (some c) ha hb hc h k = cc
  trans d none (some b) (some c) ha hb hc h k = cc
  trans Direction.ascending (some (Cell.number m)) (some (Cell.number n)) (some (Cell.number o)) ha
        hb hc h k =
      ground arith
  trans Direction.descending (some (Cell.number m)) (some (Cell.number n)) (some (Cell.number o)) ha
        hb hc h k =
      ground arith
  trans d (some (Cell.text m)) (some b) (some c) ha hb hc h k = elim ha [ ]
  trans d (some (Cell.number m)) (some (Cell.text b)) (some c) ha hb hc h k = elim hb [ ]
  trans d (some (Cell.number m)) (some (Cell.number n)) (some (Cell.text c)) ha hb hc h k =
      elim hc [ ]

  level :
      (d : Direction) (n : ℕ) (a b : Option Cell)
      → is_number n a ≡ true
      → is_number n b ≡ true
      → at_most (compare_cells collate d a b) ≡ true
  unfolding compare_cells
  level Direction.ascending n (some (Cell.number a)) (some (Cell.number b)) ha hb = ground arith
  level Direction.descending n (some (Cell.number a)) (some (Cell.number b)) ha hb = ground arith
  level d n none b ha hb = cc
  level d n (some (Cell.text a)) b ha hb = cc
  level d n (some (Cell.number a)) none ha hb = cc
  level d n (some (Cell.number a)) (some (Cell.text b)) ha hb = cc

sort_rows-before :
    (collate : Text → Text → Ordering) {A : Type 0} (get : A → String → Option Cell) (s : State)
    → ((a : A) → IsNumber (get a s.sort_key))
    → (rows : List A)
    → IsSorted (before collate get s) (sort_rows collate get s rows)
      × ((n : ℕ)
          → filter (λ a. is_number n (get a s.sort_key)) (sort_rows collate get s rows)
            ≡ filter (λ a. is_number n (get a s.sort_key)) rows)
unfolding sort_rows
sort_rows-before collate get s numbers rows = (
  sort-IsSorted (before collate get s)
      (λ x y. total collate s.dir (get x s.sort_key) (get y s.sort_key) (numbers x) (numbers y))
      (λ x y z.
        trans collate s.dir (get x s.sort_key) (get y s.sort_key) (get z s.sort_key) (numbers x)
          (numbers y) (numbers z))
      rows,
  λ n.
      filter-sort (before collate get s) (λ a. is_number n (get a s.sort_key))
        (λ x y. level collate s.dir n (get x s.sort_key) (get y s.sort_key)) rows,
)

-- The order that the direction names: numbers rising or falling, and what has none at the end.
abbrev pub in_order : Direction → Option Cell → Option Cell → Bool
in_order d none none = true
in_order d none (some b) = false
in_order d (some a) none = true
in_order Direction.ascending (some (Cell.number m)) (some (Cell.number n)) = leb m n
in_order Direction.descending (some (Cell.number m)) (some (Cell.number n)) = leb n m
in_order d (some a) (some b) = false

compare_cells-in_order :
    (collate : Text → Text → Ordering) (d : Direction) (a b : Option Cell)
    → IsNumber a
    → IsNumber b
    → at_most (compare_cells collate d a b) ≡ true
    → in_order d a b ≡ true
unfolding compare_cells
compare_cells-in_order collate d none none ha hb h = refl
compare_cells-in_order collate d none (some b) ha hb h = cc
compare_cells-in_order collate d (some a) none ha hb h = refl
compare_cells-in_order collate Direction.ascending (some (Cell.number m)) (some (Cell.number n)) ha
      hb h =
    ground arith
compare_cells-in_order collate Direction.descending (some (Cell.number m)) (some (Cell.number n)) ha
      hb h =
    ground arith
compare_cells-in_order collate d (some (Cell.number m)) (some (Cell.text n)) ha hb h = elim hb [ ]
compare_cells-in_order collate d (some (Cell.text m)) (some n) ha hb h = elim ha [ ]

-- On a column whose values are all numbers, or missing, each shown row stands before all whose
-- number is greater, if the direction is ascending, or smaller, if it is descending, and before all
-- that have none; rows with the same number keep their order.
pub sort_rows-IsSorted :
    (collate : Text → Text → Ordering) {A : Type 0} (get : A → String → Option Cell) (s : State)
    → ((a : A) → IsNumber (get a s.sort_key))
    → (rows : List A)
    → IsSorted
        (λ a b. in_order s.dir (get a s.sort_key) (get b s.sort_key))
        (sort_rows collate get s rows)
      × ((n : ℕ)
          → filter (λ a. is_number n (get a s.sort_key)) (sort_rows collate get s rows)
            ≡ filter (λ a. is_number n (get a s.sort_key)) rows)
sort_rows-IsSorted collate get s numbers rows =
    let (sorted, stable) = sort_rows-before collate get s numbers rows in
    (
      IsSorted-of (before collate get s)
          (λ a b. in_order s.dir (get a s.sort_key) (get b s.sort_key))
          (λ x y.
            compare_cells-in_order collate s.dir (get x s.sort_key) (get y s.sort_key) (numbers x)
              (numbers y))
          (sort_rows collate get s rows) sorted,
      stable,
    )
