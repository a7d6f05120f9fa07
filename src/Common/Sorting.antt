-- ===== src/Common/Sorting.antt =====
-- `xs.sort(f)`, which is stable: `before x y` is `f(x, y) <= 0`.
use Prim.Native.Nat.{suc, ◌≤◌}
use mathlib.Core.Path.{◌≡◌, refl}
use mathlib.Core.Bool.{Bool, true, false, ◌||◌}
use mathlib.Core.Logic.{inl, inr}
use mathlib.Core.List.{Memᴰ, List, [], ◌∷◌}
use native.Mathlib.Omega.{arith}
use sentinel_edr.Common.Tests.{if◌then◌else◌, Bool-cases}
use sentinel_edr.Common.Lists.{any, filter, length, All, All-of}

module _ {ℓ} {A : Type ℓ} {z : A} where
  Mem-swap : {x y : A} {xs : List A} → Memᴰ z (x ∷ y ∷ xs) → Memᴰ z (y ∷ x ∷ xs)
  Mem-swap (Memᴰ.head e) = Memᴰ.tail (Memᴰ.head e)
  Mem-swap (Memᴰ.tail (Memᴰ.head e)) = Memᴰ.head e
  Mem-swap (Memᴰ.tail (Memᴰ.tail m)) = Memᴰ.tail (Memᴰ.tail m)

  Mem-under : {x : A} {xs ys : List A} → (Memᴰ z xs → Memᴰ z ys) → Memᴰ z (x ∷ xs) → Memᴰ z (x ∷ ys)
  Mem-under f (Memᴰ.head e) = Memᴰ.head e
  Mem-under f (Memᴰ.tail m) = Memᴰ.tail (f m)

module _ {ℓ} {A : Type ℓ} (before : A → A → Bool) where
  abbrev pub insert : A → List A → List A
  insert x [] = x ∷ []
  insert x (y ∷ ys) = let rest = insert x ys in if before x y then x ∷ y ∷ ys else y ∷ rest

  abbrev pub sort : List A → List A
  sort [] = []
  sort (x ∷ xs) = insert x (sort xs)

  -- Every element stands before, or level with, all that follow.
  abbrev pub IsSorted : List A → Type 0
  IsSorted [] = Unit
  IsSorted (x ∷ xs) = All (λ y. before x y ≡ true) xs × IsSorted xs

  pub length-filter-insert :
      (p : A → Bool) (x : A) (ys : List A)
      → length (filter p (insert x ys)) ≡ length (filter p (x ∷ ys))
  length-filter-insert p x [] = refl
  length-filter-insert p x (y ∷ ys) = ground (arith, length-filter-insert p x ys)

  -- Sorting keeps how many elements of each kind there are.
  pub length-filter-sort :
      (p : A → Bool) (xs : List A) → length (filter p (sort xs)) ≡ length (filter p xs)
  length-filter-sort p [] = refl
  length-filter-sort p (x ∷ xs) =
      ground (arith, length-filter-insert p x (sort xs), length-filter-sort p xs)

  All-insert : (P : A → Type 0) (x : A) (ys : List A) → P x → All P ys → All P (insert x ys)
  All-insert P x [] hx h = (hx, tt)
  All-insert P x (y ∷ ys) hx h = elim (Bool-cases (before x y)) [
    | inl e ↦ rw e (hx, h)
    | inr e ↦ rw e (h.0, All-insert P x ys hx h.1)
  ]

  pub All-sort : (P : A → Type 0) (xs : List A) → All P xs → All P (sort xs)
  All-sort P [] h = tt
  All-sort P (x ∷ xs) h = All-insert P x (sort xs) h.0 (All-sort P xs h.1)

  pub any-insert : (p : A → Bool) (x : A) (ys : List A) → any p (insert x ys) ≡ p x || any p ys
  any-insert p x [] = refl
  any-insert p x (y ∷ ys) = ground (arith, any-insert p x ys)

  pub any-sort : (p : A → Bool) (xs : List A) → any p (sort xs) ≡ any p xs
  any-sort p [] = refl
  any-sort p (x ∷ xs) = ground (arith, any-insert p x (sort xs), any-sort p xs)

  pub length-insert : (x : A) (ys : List A) → length (insert x ys) ≡ suc (length ys)
  length-insert x [] = refl
  length-insert x (y ∷ ys) = ground (arith, length-insert x ys)

  pub length-sort : (xs : List A) → length (sort xs) ≡ length xs
  length-sort [] = refl
  length-sort (x ∷ xs) = ground (arith, length-insert x (sort xs), length-sort xs)

  module _ (total : (x y : A) → before x y ≡ false → before y x ≡ true)
      (trans : (x y z : A) → before x y ≡ true → before y z ≡ true → before x z ≡ true) where
    insert-IsSorted : (x : A) (ys : List A) → IsSorted ys → IsSorted (insert x ys)
    insert-IsSorted x [] h = (tt, tt)
    insert-IsSorted x (y ∷ ys) h = elim (Bool-cases (before x y)) [
      | inl e ↦ rw e ((e, All-of ys (λ z. trans x y z e) h.0), h)
      | inr e ↦
          rw e
            (All-insert (λ z. before y z ≡ true) x ys (total x y e) h.0, insert-IsSorted x ys h.1)
    ]

    pub sort-IsSorted : (xs : List A) → IsSorted (sort xs)
    sort-IsSorted [] = tt
    sort-IsSorted (x ∷ xs) = insert-IsSorted x (sort xs) (sort-IsSorted xs)

  -- Elements that are level keep their order.
  module _ (p : A → Bool) (level : (x y : A) → p x ≡ true → p y ≡ true → before x y ≡ true) where
    filter-insert :
        (x : A) (ys : List A)
        → filter p (insert x ys) ≡ (if p x then x ∷ filter p ys else filter p ys)
    filter-insert x [] = refl
    filter-insert x (y ∷ ys) = ground (arith, filter-insert x ys, level x y)

    pub filter-sort : (xs : List A) → filter p (sort xs) ≡ filter p xs
    filter-sort [] = refl
    filter-sort (x ∷ xs) = ground (arith, filter-insert x (sort xs), filter-sort xs)

  -- So does an element that is the only one of its kind.
  module _ (p : A → Bool) where
    filter-insert_single :
        (x : A) (ys : List A)
        → length (filter p (x ∷ ys)) ≤ 1
        → filter p (insert x ys) ≡ filter p (x ∷ ys)
    filter-insert_single x [] h = refl
    filter-insert_single x (y ∷ ys) h = ground (arith, filter-insert_single x ys)

    pub filter-sort_single :
        (xs : List A) → length (filter p xs) ≤ 1 → filter p (sort xs) ≡ filter p xs
    filter-sort_single [] h = refl
    filter-sort_single (x ∷ xs) h =
        let ih : filter p (sort xs) ≡ filter p xs = filter-sort_single xs (ground arith) in
        ground (arith, filter-insert_single x (sort xs))

  -- Sorting adds no element and drops none.
  Mem-insert : (z x : A) (ys : List A) → Memᴰ z (insert x ys) → Memᴰ z (x ∷ ys)
  Mem-insert z x [] m = m
  Mem-insert z x (y ∷ ys) m = elim (Bool-cases (before x y)) [
    | inl e ↦ rw e at m
    | inr e ↦ Mem-swap (Mem-under (Mem-insert z x ys) (rw e at m))
  ]

  pub Mem-sort : (z : A) (xs : List A) → Memᴰ z (sort xs) → Memᴰ z xs
  Mem-sort z [] m = m
  Mem-sort z (x ∷ xs) m = Mem-under (Mem-sort z xs) (Mem-insert z x (sort xs) m)

  module _ (P : A → Type 0) where
    All-of_insert : (x : A) (ys : List A) → All P (insert x ys) → P x × All P ys
    All-of_insert x [] h = (h.0, tt)
    All-of_insert x (y ∷ ys) h = elim (Bool-cases (before x y)) [
      | inl e ↦ rw e at h
      | inr e ↦
          let t : P y × All P (insert x ys) = rw e at h in
          let r = All-of_insert x ys t.1 in (r.0, (t.0, r.1))
    ]

    pub All-of_sort : (xs : List A) → All P (sort xs) → All P xs
    All-of_sort [] h = tt
    All-of_sort (x ∷ xs) h = let r = All-of_insert x (sort xs) h in (r.0, All-of_sort xs r.1)

pub IsSorted-of {ℓ} :
    {A : Type ℓ} (before below : A → A → Bool)
    → ((x y : A) → before x y ≡ true → below x y ≡ true)
    → (xs : List A) → IsSorted before xs
    → IsSorted below xs
IsSorted-of before below f [] h = tt
IsSorted-of before below f (x ∷ xs) h = (All-of xs (f x) h.0, IsSorted-of before below f xs h.1)
