-- ===== src/Mitre/Window.antt =====
-- The window that the kill-chain strip cuts out of the tactics.
use sentinel_edr.Common.{
  ℕ, suc, zero, ◌≡◌, refl, ap, ◌∙◌, Bool, true, false, some, List, [], ◌∷◌, ◌++◌, any, arith,
  any-append, Bool-cases, Option-cases, inl, inr, take, drop, length, find_index, reverse, ◌<◌, ◌+◌,
  ◌≤◌, ◌-◌, length-append, reverse-cons, list_same, nat_same, subst, append_assoc,
}
use sentinel_edr.Mitre.Table.{tactic_same}
use sentinel_edr.Mitre.Stages.{}
use sentinel_edr.Mitre.{window, window_start, window_end}

module _ {ℓ} {A : Type ℓ} where
  take-drop : (n : ℕ) (xs : List A) → xs ≡ take n xs ++ drop n xs
  take-drop zero xs = refl
  take-drop (suc n) [] = refl
  take-drop (suc n) (x ∷ xs) = ap (λ ys. x ∷ ys) (take-drop n xs)

  length-reverse : (xs : List A) → length (reverse xs) ≡ length xs
  length-reverse [] = refl
  length-reverse (x ∷ xs) =
      rw (reverse-cons x xs, length-append (reverse xs) (x ∷ [])) (omega (arith, length-reverse xs))

module _ {ℓ} {A : Type ℓ} (p : A → Bool) where
  any-reverse : (xs : List A) → any p (reverse xs) ≡ any p xs
  any-reverse [] = refl
  any-reverse (x ∷ xs) =
      rw (reverse-cons x xs, any-append p (reverse xs) (x ∷ []), any-reverse xs) (ground arith)

  find_index-append :
      (xs ys : List A) (i : ℕ) → find_index p xs ≡ some i → find_index p (xs ++ ys) ≡ some i
  find_index-append [] ys i h = cc
  find_index-append (x ∷ xs) ys i h = elim (Bool-cases (p x)) [
    | inl y ↦ ground arith
    | inr n ↦ elim (Option-cases (find_index p xs)) [
      | inl none_in ↦ ground arith
      | inr (j, found) ↦ ground (arith, find_index-append xs ys j found)
    ]
  ]

  find_index-last :
      (xs : List A) (x : A)
      → any p xs ≡ false
      → p x ≡ true
      → find_index p (xs ++ x ∷ []) ≡ some (length xs)
  find_index-last [] x h y = ground arith
  find_index-last (z ∷ xs) x h y = ground (arith, find_index-last xs x)

  any-take-find_index :
      (xs : List A) (i n : ℕ) → find_index p xs ≡ some i → n ≤ i → any p (take n xs) ≡ false
  any-take-find_index [] i n h le = cc
  any-take-find_index (x ∷ xs) i zero h le = refl
  any-take-find_index (x ∷ xs) i (suc n) h le = elim (Bool-cases (p x)) [
    | inl y ↦ ground arith
    | inr fails ↦ elim (Option-cases (find_index p xs)) [
      | inl none_in ↦ ground arith
      | inr (j, found) ↦ ground (arith, any-take-find_index xs j n found)
    ]
  ]

  last_index :
      (xs : List A) (m : ℕ)
      → any p (drop m xs) ≡ true
      → (i : ℕ) × (find_index p (reverse xs) ≡ some i) × (i + m < length xs)
  last_index [] zero h = cc
  last_index [] (suc m) h = cc
  last_index (x ∷ xs) zero h = elim (Bool-cases (any p xs)) [
    | inl later ↦
        let (i, found, lt) = last_index xs zero later in
        (i, rw (reverse-cons x xs) (find_index-append (reverse xs) (x ∷ []) i found), omega arith)
    | inr none_later ↦ (
      length xs,
      rw (reverse-cons x xs) (
          find_index-last (reverse xs) x (any-reverse xs ∙ none_later) (ground arith)
          ∙ ap some (length-reverse xs)),
      omega arith,
    )
  ]
  last_index (x ∷ xs) (suc m) h =
      let (i, found, lt) = last_index xs m h in
      (i, rw (reverse-cons x xs) (find_index-append (reverse xs) (x ∷ []) i found), omega arith)

  any-take-take :
      (n m : ℕ) (xs : List A) → any p (take n xs) ≡ false → any p (take n (take m xs)) ≡ false
  any-take-take zero m xs h = refl
  any-take-take (suc n) zero xs h = refl
  any-take-take (suc n) (suc m) [] h = refl
  any-take-take (suc n) (suc m) (x ∷ xs) h = ground (arith, any-take-take n m xs)

  before_window : (xs : List A) → any p (take (window_start (find_index p xs)) xs) ≡ false
  before_window xs = elim (Option-cases (find_index p xs)) [
    | inl e ↦ rw e refl
    | inr (i, e) ↦ rw e (any-take-find_index xs i (i - 1) e (omega arith))
  ]

  window_end-last : (n i : ℕ) → i + window_end n (some i) < n → ⊥
  window_end-last n i h = ground arith

  after_window :
      (xs : List A) → any p (drop (window_end (length xs) (find_index p (reverse xs))) xs) ≡ false
  after_window xs =
      elim (Bool-cases (any p (drop (window_end (length xs) (find_index p (reverse xs))) xs))) [
        | inl later ↦
            let (i, found, lt) = last_index xs _ later in
            elim (window_end-last (length xs) i
              (subst (λ o. i + window_end (length xs) o < length xs) found lt)) [ ]
        | inr e ↦ e
      ]

  -- The window leaves out no element that passes.
  pub window-split :
      (xs : List A)
      → (before : List A) × ((after : List A) × ((xs ≡ before ++ (window p xs ++ after))
            × ((any p before ≡ false) × (any p after ≡ false))))
  unfolding window
  window-split xs =
      let start = window_start (find_index p xs) in
      let end = window_end (length xs) (find_index p (reverse xs)) in
      (
        take start (take end xs),
        (
          drop end xs,
          (
            take-drop end xs
                ∙ ap (λ ys. ys ++ drop end xs) (take-drop start (take end xs))
                ∙ append_assoc (take start (take end xs)) (drop start (take end xs)) (drop end xs),
            (any-take-take start end xs (before_window xs), after_window xs),
          ),
        ),
      )
