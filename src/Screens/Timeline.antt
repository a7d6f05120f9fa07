-- ===== src/Screens/Timeline.antt =====
-- The timeline of a case.
use sentinel_edr.Common.{
  ℕ, ◌≤◌, ◌≡◌, refl, Bool, true, false, List, [], ◌∷◌, ◌++◌, length, filter, map, All, All-of, all,
  leb, arith, String, Bool-cases, inl, inr, ◌⊎◌,
}
use sentinel_edr.Common.Sorting.{
  sort, insert, IsSorted, sort-IsSorted, length-filter-sort, All-sort,
}
use sentinel_edr.Model.{Case, Detection}
use sentinel_edr.Screens.Cases.{
  Item, not_after, opened_item, items, timeline, detection_item, note_item,
}

module _ {A : Type 0} (before : A → A → Bool) where
  insert_first :
      (x : A) (ys : List A) → All (λ y. before x y ≡ true) ys → insert before x ys ≡ x ∷ ys
  insert_first x [] h = refl
  insert_first x (y ∷ ys) h = rw (h.0) refl

abbrev pub others : Case → List Detection → List Item
others c detections = map detection_item detections ++ map note_item c.notes

module _ (time : String → ℕ) where
  timeline-opened :
      (c : Case) (detections : List Detection)
      → All (λ i. not_after time (opened_item c) i ≡ true) (others c detections)
      → timeline time c detections ≡ opened_item c ∷ sort (not_after time) (others c detections)
  unfolding timeline
  timeline-opened c detections h =
      insert_first (not_after time) (opened_item c) (sort (not_after time) (others c detections)) (
        All-sort (not_after time) (λ i. not_after time (opened_item c) i ≡ true)
          (others c detections) h)

  not_after_total : (a b : Item) → not_after time a b ≡ false → not_after time b a ≡ true
  not_after_total a b h = ground arith

  not_after_trans :
      (a b c : Item)
      → not_after time a b ≡ true
      → not_after time b c ≡ true
      → not_after time a c ≡ true
  not_after_trans a b c h k = ground arith

  -- Each entry is no later than all that follow.
  abbrev pub Chronological : List Item → Type 0
  Chronological [] = Unit
  Chronological (x ∷ xs) = All (λ y. time x.ts ≤ time y.ts) xs × Chronological xs

  not_after-le : (a b : Item) → not_after time a b ≡ true → time a.ts ≤ time b.ts
  not_after-le a b h = ground arith

  IsSorted-Chronological : (xs : List Item) → IsSorted (not_after time) xs → Chronological xs
  IsSorted-Chronological [] h = tt
  IsSorted-Chronological (x ∷ xs) h =
      (All-of xs (not_after-le x) h.0, IsSorted-Chronological xs h.1)

  -- Whether nothing is older than the case.
  abbrev pub oldest : Case → List Item → Bool
  oldest c is = all (λ i. leb (time c.created_at) (time i.ts)) is

  oldest-All :
      (c : Case) (is : List Item)
      → oldest c is ≡ true
      → All (λ i. not_after time (opened_item c) i ≡ true) is
  oldest-All c [] h = tt
  oldest-All c (i ∷ is) h = (ground arith, oldest-All c is (ground arith))

  -- A case's timeline is in the order of time. Its entries are the opening, one for each detection
  -- and one for each note: of every kind it holds as many as there are of that kind among those.
  -- If none of them is older than the case, the opening stands first.
  pub timeline-IsSorted :
      (c : Case) (detections : List Detection) (kind : Item → Bool)
      → Chronological (timeline time c detections)
        × (length (filter kind (timeline time c detections))
            ≡ length (filter kind (opened_item c ∷ others c detections)))
        × ((oldest c (others c detections) ≡ false)
            ⊎ ((rest : List Item) × (timeline time c detections ≡ opened_item c ∷ rest)))
  timeline-IsSorted c detections kind = (
    unfold timeline in
        IsSorted-Chronological (timeline time c detections)
          (sort-IsSorted (not_after time) not_after_total not_after_trans (items c detections)),
    unfold timeline in length-filter-sort (not_after time) kind (items c detections),
    elim (Bool-cases (oldest c (others c detections))) [
      | inl e ↦ inr (
        sort (not_after time) (others c detections),
        timeline-opened c detections (oldest-All c (others c detections) e),
      )
      | inr e ↦ inl e
    ],
  )
