-- ===== src/Store/Rows.antt =====
-- Lists of rows that are told apart by an id.
use sentinel_edr.Common.{
  ℕ, zero, suc, String, ◌≡◌, refl, sym, ap, ◌∙◌, Bool, false, not, some, List, [], ◌∷◌, ◌++◌, ◌===◌,
  string_same, any, find, filter, take, if◌then◌else◌, arith, Bool-cases, inl, inr, any-append,
}
use sentinel_edr.Common.Sorting.{sort, insert, any-insert, any-sort}
use sentinel_edr.Store.{put}

module _ {ℓ} {A : Type ℓ} (id : A → String) where
  abbrev pub is : String → A → Bool
  is i x = id x === i

  abbrev pub has : String → List A → Bool
  has i xs = any (is i) xs

  -- No two rows have the same id.
  abbrev pub Unique : List A → Type 0
  Unique [] = Unit
  Unique (x ∷ xs) = (has (id x) xs ≡ false) × Unique xs

  pub has-filter :
      (p : A → Bool) (i : String) (xs : List A) → has i xs ≡ false → has i (filter p xs) ≡ false
  has-filter p i [] h = refl
  has-filter p i (x ∷ xs) h = ground (arith, has-filter p i xs)

  pub has-filter-not :
      (i : String) (xs : List A) → has i (filter (λ y. not (id y === i)) xs) ≡ false
  has-filter-not i [] = refl
  has-filter-not i (x ∷ xs) = ground (arith, has-filter-not i xs)

  has-take : (n : ℕ) (i : String) (xs : List A) → has i xs ≡ false → has i (take n xs) ≡ false
  has-take zero i xs h = refl
  has-take (suc n) i [] h = refl
  has-take (suc n) i (x ∷ xs) h = ground (arith, has-take n i xs)

  pub Unique-filter : (p : A → Bool) (xs : List A) → Unique xs → Unique (filter p xs)
  Unique-filter p [] h = tt
  Unique-filter p (x ∷ xs) h = elim (Bool-cases (p x)) [
    | inl e ↦ rw e (has-filter p (id x) xs h.0, Unique-filter p xs h.1)
    | inr e ↦ rw e (Unique-filter p xs h.1)
  ]

  pub Unique-take : (n : ℕ) (xs : List A) → Unique xs → Unique (take n xs)
  Unique-take zero xs h = tt
  Unique-take (suc n) [] h = tt
  Unique-take (suc n) (x ∷ xs) h = (has-take n (id x) xs h.0, Unique-take n xs h.1)

  pub Unique-put : (x : A) (xs : List A) → Unique xs → Unique (put id x xs)
  Unique-put x xs h = (has-filter-not (id x) xs, Unique-filter (λ y. not (id y === id x)) xs h)

  Unique-snoc : (xs : List A) (x : A) → has (id x) xs ≡ false → Unique xs → Unique (xs ++ x ∷ [])
  Unique-snoc [] x h u = (refl, tt)
  Unique-snoc (y ∷ ys) x h u = (
    any-append (is (id y)) ys (x ∷ [])
        ∙ ground (arith, string_same.same_iff (id y) (id x), string_same.same_iff (id x) (id y)),
    Unique-snoc ys x (ground arith) u.1,
  )

  pub Unique-replace :
      (x : A) (xs : List A) → Unique xs → Unique (filter (λ y. not (id y === id x)) xs ++ x ∷ [])
  Unique-replace x xs u =
      Unique-snoc (filter (λ y. not (id y === id x)) xs) x (has-filter-not (id x) xs)
        (Unique-filter (λ y. not (id y === id x)) xs u)

  pub find-filter-not :
      (j i : String) (xs : List A)
      → (j === i) ≡ false
      → find (is i) (filter (λ y. not (id y === j)) xs) ≡ find (is i) xs
  find-filter-not j i [] ne = refl
  find-filter-not j i (x ∷ xs) ne = ground (
    arith,
    find-filter-not j i xs ne,
    string_same.same_iff (id x) i,
    string_same.same_iff (id x) j,
    string_same.same_iff j i,
  )

  find-snoc :
      (i : String) (xs : List A) (x : A)
      → has i xs ≡ false
      → find (is i) (xs ++ x ∷ []) ≡ find (is i) (x ∷ [])
  find-snoc i [] x h = refl
  find-snoc i (y ∷ ys) x h = ground (arith, find-snoc i ys x)

  find-append_no :
      (i : String) (xs : List A) (x : A)
      → (id x === i) ≡ false
      → find (is i) (xs ++ x ∷ []) ≡ find (is i) xs
  find-append_no i [] x h = ground arith
  find-append_no i (y ∷ ys) x h = ground (arith, find-append_no i ys x)

  -- A row takes the place of the one with its id, and leaves the others as they are.
  pub find-replace :
      (i : String) (x : A) (xs : List A)
      → find (is i) (filter (λ y. not (id y === id x)) xs ++ x ∷ [])
        ≡ (if id x === i then some x else find (is i) xs)
  find-replace i x xs = elim (Bool-cases (id x === i)) [
    | inl e ↦
        find-snoc i (filter (λ y. not (id y === id x)) xs) x (
          ap (λ j. has j (filter (λ y. not (id y === id x)) xs))
            (sym ((string_same.same_iff (id x) i).0 e))
          ∙ has-filter-not (id x) xs)
        ∙ ground arith
    | inr e ↦
        find-append_no i (filter (λ y. not (id y === id x)) xs) x e
        ∙ find-filter-not (id x) i xs e
        ∙ ground arith
  ]

  module _ (before : A → A → Bool) where
    Unique-insert :
        (x : A) (ys : List A) → has (id x) ys ≡ false → Unique ys → Unique (insert before x ys)
    Unique-insert x [] h u = (refl, tt)
    Unique-insert x (y ∷ ys) h u = elim (Bool-cases (before x y)) [
      | inl e ↦ rw e (h, u)
      | inr e ↦ rw e (
        any-insert before (is (id y)) x ys
            ∙ ground
                (arith, string_same.same_iff (id y) (id x), string_same.same_iff (id x) (id y)),
        Unique-insert x ys (ground arith) u.1,
      )
    ]

    pub Unique-sort : (xs : List A) → Unique xs → Unique (sort before xs)
    Unique-sort [] u = tt
    Unique-sort (x ∷ xs) u =
        Unique-insert x (sort before xs) (any-sort before (is (id x)) xs ∙ u.0) (Unique-sort xs u.1)

    find-insert :
        (i : String) (x : A) (ys : List A)
        → has (id x) ys ≡ false
        → find (is i) (insert before x ys) ≡ find (is i) (x ∷ ys)
    find-insert i x [] h = refl
    find-insert i x (y ∷ ys) h = ground (
      arith,
      find-insert i x ys,
      string_same.same_iff (id y) i,
      string_same.same_iff (id x) i,
      string_same.same_iff (id y) (id x),
    )

    pub find-sort :
        (i : String) (xs : List A) → Unique xs → find (is i) (sort before xs) ≡ find (is i) xs
    find-sort i [] u = refl
    find-sort i (x ∷ xs) u =
        find-insert i x (sort before xs) (any-sort before (is (id x)) xs ∙ u.0)
        ∙ ground (arith, find-sort i xs u.1)
