-- ===== src/Format/Sizes.antt =====
-- The unit that a size is written in.
use sentinel_edr.Common.{
  ℕ, zero, suc, ◌≡◌, refl, Bool, true, false, if◌then◌else◌, leb, ◌+◌, ◌^◌, ◌≤◌, ◌<◌, ◌⊎◌, inl, inr,
  arith,
}
use sentinel_edr.Format.{unit_index}

-- The unit `j` does not exceed the size, and the next unit does, or there is no next.
abbrev pub Fits : ℕ → ℕ → ℕ → Type 0
Fits top n j = (1024 ^ j ≤ n) × ((n < 1024 ^ suc j) ⊎ (j ≡ top))

if-Fits :
    (top n : ℕ) (b : Bool) (x y : ℕ)
    → (b ≡ true → Fits top n x)
    → (b ≡ false → Fits top n y)
    → Fits top n (if b then x else y)
if-Fits top n true x y hx hy = hx refl
if-Fits top n false x y hx hy = hy refl

below : (m n : ℕ) → leb m n ≡ false → n < m
below m n h = ground arith

at_least : (m n : ℕ) → leb m n ≡ true → m ≤ n
at_least m n h = ground arith

unit_index-Fits_from :
    (steps i top n : ℕ) → i + steps ≡ top → 1024 ^ i ≤ n → Fits top n (unit_index steps i n)
unfolding unit_index
unit_index-Fits_from zero i top n at h = (h, inr (omega arith))
unit_index-Fits_from (suc steps) i top n at h =
    if-Fits top n (leb (1024 ^ suc i) n) _ i
      (λ e. unit_index-Fits_from steps (suc i) top n (omega arith) (at_least (1024 ^ suc i) n e))
      (λ e. (h, inl (below (1024 ^ suc i) n e)))

-- A size that is not 0 is written in the largest of the five units, from bytes to terabytes, that
-- does not exceed it.
pub unit_index-Fits : (n : ℕ) → 1 ≤ n → Fits 4 n (unit_index 4 0 n)
unit_index-Fits n h = unit_index-Fits_from 4 0 4 n refl h
