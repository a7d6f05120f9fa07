-- ===== src/Filters/Tests.antt =====
-- Sorting and searching at concrete rows.
use Prim.Native.Nat.{Ordering}
use sentinel_edr.Common.{ℕ, String, ◌≡◌, refl, Option, none, some, List, [], ◌∷◌, filter}
use sentinel_edr.Common.Text.{Text}
use sentinel_edr.Common.Sorting.{IsSorted}
use sentinel_edr.Filters.Order.{is_number, in_order, sort_rows-IsSorted, IsNumber}
use sentinel_edr.Filters.{Direction, State, Cell, sort_rows, match_text, toggle}

abbrev level_text : Text → Text → Ordering
level_text s t = Ordering.eq

abbrev cell_of : Option ℕ → String → Option Cell
cell_of none key = none
cell_of (some n) key = some (Cell.number n)

abbrev falling : State
falling = record { sort_key = "pid"; dir = Direction.descending }

abbrev rows : List (Option ℕ)
rows = some 3 ∷ none ∷ some 7 ∷ some 5 ∷ []

falling_run : sort_rows level_text cell_of falling rows ≡ some 7 ∷ some 5 ∷ some 3 ∷ none ∷ []
unfolding sort_rows sentinel_edr.Filters.compare_cells
falling_run = refl

rising_run :
    sort_rows level_text cell_of (toggle "pid" falling) rows ≡ some 3 ∷ some 5 ∷ some 7 ∷ none ∷ []
unfolding sort_rows toggle sentinel_edr.Filters.compare_cells
rising_run = refl

all_numbers : (o : Option ℕ) → IsNumber (cell_of o "pid")
all_numbers none = tt
all_numbers (some n) = tt

sort_rows-IsSorted_example :
    IsSorted
      (λ a b. in_order falling.dir (cell_of a falling.sort_key) (cell_of b falling.sort_key))
      (sort_rows level_text cell_of falling rows)
    × ((n : ℕ)
        → filter (λ a. is_number n (cell_of a "pid")) (sort_rows level_text cell_of falling rows)
          ≡ filter (λ a. is_number n (cell_of a "pid")) rows)
sort_rows-IsSorted_example = sort_rows-IsSorted level_text cell_of falling all_numbers rows
