-- ===== src/Screens/Shares.antt =====
-- How the responses of a page are shared out, and the hits of a classifier.
use sentinel_edr.Common.{
  ◌+◌, ◌≡◌, refl, Bool, true, not, ◌&&◌, List, [], ◌∷◌, All, length, filter, String, ◌===◌,
  string_same, ap, sym, arith,
}
use sentinel_edr.Filters.{match_text}
use sentinel_edr.Model.{Event}
use sentinel_edr.Screens.Counts.{count, count-tally_new}
use sentinel_edr.Screens.Segments.{filter-true}
use sentinel_edr.Screens.Lists.{
  Targeted, automated, source_counts, response_rows, by_class, class_of,
}

length-filter-not :
    {A : Type 0} (p : A → Bool) (xs : List A)
    → length (filter p xs) + length (filter (λ x. not (p x)) xs) ≡ length xs
length-filter-not p [] = omega arith
length-filter-not p (x ∷ xs) = ground (arith, length-filter-not p xs)

filter-and : {A : Type 0} (p : A → Bool) (xs : List A) → filter (λ x. p x && true) xs ≡ filter p xs
filter-and p [] = refl
filter-and p (x ∷ xs) = ground (arith, filter-and p xs)

-- While nothing is searched for, the numbers on the segments are those of the rows that they show.
pub source_counts-rows :
    (rs : List Targeted)
    → All
        (λ k. count k (source_counts rs) ≡ length (response_rows [] k rs))
        ("all" ∷ "auto" ∷ "manual" ∷ [])
unfolding source_counts response_rows automated count match_text
source_counts-rows rs = (
  ap length (sym (filter-true rs)),
  (
    ap length (sym (filter-and (λ r. r.0.automated) rs)),
    (
      omega (
        arith,
        length-filter-not (λ r. r.0.automated) rs,
        ap length (filter-and (λ r. not r.0.automated) rs),
      ),
      tt,
    ),
  ),
)

-- A classifier's hits are its events.
pub by_class-hits :
    (c : String) (dlp : List Event)
    → count c (by_class dlp) ≡ length (filter (λ e. class_of e === c) dlp)
unfolding by_class count
by_class-hits c dlp = count-tally_new class_of c dlp [] refl
