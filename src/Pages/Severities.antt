-- ===== src/Pages/Severities.antt =====
-- The severity of a case that is opened from several detections.
use mathlib.Core.List.{Memᴰ}
use sentinel_edr.Common.{
  ap, subst, sym, length, ◌≡◌, ◌≤◌, refl, some, List, [], ◌∷◌, arith, map, All, true, false, All-of,
}
use sentinel_edr.Common.Sorting.{sort, IsSorted, sort-IsSorted, Mem-sort, All-of_sort, length-sort}
use sentinel_edr.Model.{Severity, Detection}
use sentinel_edr.Pages.Detections.{sev_rank, sev_top, rank_before, head_of}

rank_total : (a b : Severity) → rank_before a b ≡ false → rank_before b a ≡ true
rank_total a b h = ground arith

rank_trans :
    (a b c : Severity) → rank_before a b ≡ true → rank_before b c ≡ true → rank_before a c ≡ true
rank_trans a b c h k = ground arith

abbrev AtMost : Severity → Severity → Type 0
AtMost s y = sev_rank y ≤ sev_rank s

top_of_sorted :
    (xs : List Severity) (x : Severity) (ys : List Severity)
    → sort rank_before (x ∷ xs) ≡ ys
    → (s : Severity) × (head_of ys ≡ some s)
      × Memᴰ s (x ∷ xs)
      × All (λ y. sev_rank y ≤ sev_rank s) (x ∷ xs)
top_of_sorted xs x [] e =
    absurd (omega (arith, length-sort rank_before (x ∷ xs), ap (length {A = Severity}) e))
top_of_sorted xs x (s ∷ ys) e =
    let sorted : IsSorted rank_before (s ∷ ys) =
      subst (IsSorted rank_before) e (sort-IsSorted rank_before rank_total rank_trans (x ∷ xs)) in
    let below : All (AtMost s) (s ∷ ys) = (omega arith, All-of ys (λ y h. ground arith) sorted.0) in
    (
      s,
      refl,
      Mem-sort rank_before s (x ∷ xs) (subst (Memᴰ s) (sym e) (Memᴰ.head refl)),
      All-of_sort rank_before (AtMost s) (x ∷ xs) (subst (All (AtMost s)) (sym e) below),
    )

-- A case that is opened from selected detections takes the severity of one of them, and none of
-- them ranks higher.
pub sev_top-IsHighest :
    (d : Detection) (rows : List Detection)
    → (s : Severity) × (sev_top (d ∷ rows) ≡ some s)
      × Memᴰ s (map (λ r. r.severity) (d ∷ rows))
      × All (λ y. sev_rank y ≤ sev_rank s) (map (λ r. r.severity) (d ∷ rows))
unfolding sev_top
sev_top-IsHighest d rows = top_of_sorted (map (λ r. r.severity) rows) d.severity _ refl
