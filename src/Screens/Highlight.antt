-- ===== src/Screens/Highlight.antt =====
-- What the endpoints page marks in a cell.
use sentinel_edr.Common.{
  ◌⊎◌, ℕ, zero, suc, ◌+◌, ◌≡◌, refl, Bool, true, false, Option, none, some, [], ◌∷◌, ◌++◌, length,
  map, take, drop, ap, sym, ◌∙◌, arith, Option-cases, inl, inr,
}
use sentinel_edr.Common.Text.{Text, starts_with, includes}
use sentinel_edr.Screens.Endpoints.{Shown, plain, marked, found, index_of, hl}

take-append-drop : (n : ℕ) (s : Text) → take n s ++ drop n s ≡ s
take-append-drop zero s = refl
take-append-drop (suc n) [] = refl
take-append-drop (suc n) (c ∷ s) = ap (λ t. c ∷ t) (take-append-drop n s)

drop_nil : (n : ℕ) → drop {A = ℕ} n [] ≡ []
drop_nil zero = refl
drop_nil (suc n) = refl

drop-drop : (i n : ℕ) (s : Text) → drop n (drop i s) ≡ drop (i + n) s
drop-drop zero n s = let e : n ≡ 0 + n = omega arith in ap (λ k. drop k s) e
drop-drop (suc i) n [] = drop_nil n ∙ sym (drop_nil (suc i + n))
drop-drop (suc i) n (c ∷ s) =
    let e : suc (i + n) ≡ suc i + n = omega arith in drop-drop i n s ∙ ap (λ k. drop k (c ∷ s)) e

-- The three parts of a text that is cut at `i` and `i + n`
whole : (i n : ℕ) (s : Text) → take i s ++ (take n (drop i s) ++ drop (i + n) s) ≡ s
whole i n s =
    ap (λ t. take i s ++ (take n (drop i s) ++ t)) (sym (drop-drop i n s))
    ∙ ap (λ t. take i s ++ t) (take-append-drop n (drop i s))
    ∙ take-append-drop i s

found-cases :
    (b : Bool) (r : Option ℕ) (i : ℕ)
    → found b r ≡ some i
    → ((b ≡ true) × (i ≡ 0)) ⊎ ((j : ℕ) × (r ≡ some j) × (i ≡ suc j))
found-cases true r i h = inl (refl, cc)
found-cases false none i h = cc
found-cases false (some j) i h = inr (j, refl, cc)

-- Texts lowered unit by unit
module _ (f : ℕ → ℕ) where
  starts-take :
      (q s : Text) → starts_with (map f q) (map f s) ≡ true → map f (take (length q) s) ≡ map f q
  starts-take [] s h = refl
  starts-take (p ∷ q) [] h = cc
  starts-take (p ∷ q) (c ∷ s) h =
      let e : f c ≡ f p = ground arith in
      let k : starts_with (map f q) (map f s) ≡ true = ground arith in
      rw e (ap (λ t. f p ∷ t) (starts-take q s k))

  index-starts :
      (q s : Text) (i : ℕ)
      → index_of (map f q) (map f s) ≡ some i
      → starts_with (map f q) (map f (drop i s)) ≡ true
  index-starts [] s i h = refl
  index-starts (p ∷ q) [] i h = cc
  index-starts (p ∷ q) (c ∷ s) i h =
      elim (found-cases (starts_with (map f (p ∷ q)) (map f (c ∷ s)))
        (index_of (map f (p ∷ q)) (map f s)) i h) [
          | inl (e, z) ↦ rw z e
          | inr (j, e, z) ↦ rw z (index-starts (p ∷ q) s j e)
        ]

found-none : (b : Bool) (r : Option ℕ) → found b r ≡ none → (b ≡ false) × (r ≡ none)
found-none true r h = cc
found-none false none h = (refl, refl)
found-none false (some j) h = cc

index-includes : (q s : Text) → index_of q s ≡ none → includes q s ≡ false
index-includes [] [] h = cc
index-includes (p ∷ q) [] h = refl
index-includes q (c ∷ s) h =
    let (e, k) = found-none (starts_with q (c ∷ s)) (index_of q s) h in rw e (index-includes q s k)

module _ (lower_case : Text → Text) where
  -- A cell that shows the whole text, and marks a part that differs from the query in case at most;
  -- without a mark the text does not hold the query.
  abbrev pub Marks : Text → Text → Shown → Type 0
  Marks text q (plain t) = (t ≡ text) × (includes (lower_case q) (lower_case text) ≡ false)
  Marks text q (marked b m a) = (b ++ (m ++ a) ≡ text) × (lower_case m ≡ lower_case q)

  -- The query, the text and its parts are lowered one code unit at a time, as texts without letters
  -- whose lower case is longer, or depends on their place, are.
  pub record IsUnitwise (text q : Text) : Type 0 where
    pub each : ℕ → ℕ
    pub of_query : lower_case q ≡ map each q
    pub of_text : lower_case text ≡ map each text
    pub of_part : (i n : ℕ) → lower_case (take n (drop i text)) ≡ map each (take n (drop i text))

  -- For every query that is not empty, where lower case is taken one code unit at a time, the page
  -- shows the whole of the text. What it marks is a part of the text that is the query up to case,
  -- and it marks one if there is one.
  pub hl-Marks :
      (text : Text) (c : ℕ) (q : Text)
      → IsUnitwise text (c ∷ q)
      → Marks text (c ∷ q) (hl lower_case text (c ∷ q))
  unfolding hl
  hl-Marks text c q u = elim (Option-cases (index_of (lower_case (c ∷ q)) (lower_case text))) [
    | inl e ↦ rw e (refl, index-includes (lower_case (c ∷ q)) (lower_case text) e)
    | inr (i, e) ↦
        let hit : index_of (map u.each (c ∷ q)) (map u.each text) ≡ some i =
          ap (λ t. index_of t (map u.each text)) (sym u.of_query)
          ∙ ap (λ t. index_of (lower_case (c ∷ q)) t) (sym u.of_text)
          ∙ e in
        rw e (
          whole i (suc (length q)) text,
          u.of_part i (suc (length q))
              ∙ starts-take u.each (c ∷ q) (drop i text) (index-starts u.each (c ∷ q) text i hit)
              ∙ sym u.of_query,
        )
  ]
