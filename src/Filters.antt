-- ===== src/Filters.antt =====
-- The tables' sorting and filtering (web/src/filters.tsx): the hook useTableSort, the header cell,
-- the segmented control's items and matchText. A cell holds a natural number or a text; the
-- order of `localeCompare` is a parameter.
pub mod Order
pub mod Search
pub mod Controls
mod Tests
use Prim.Native.Nat.{compare, Ordering}
use sentinel_edr.Common.{
  ℕ, String, ◌≡◌, Bool, true, false, not, Option, none, some, List, [], ◌∷◌, ◌++◌, StrictEq, ◌===◌,
  string_same, if◌then◌else◌, map,
}
use sentinel_edr.Common.Text.{Text, codes, decimal, join, to_lower, includes}
use sentinel_edr.Common.Sorting.{sort}

-- `1` and `-1`
pub data Direction : Type 0 where
  ascending descending : Direction

pub record State : Type 0 where
  pub sort_key : String
  pub dir : Direction

abbrev pub flip : Direction → Direction
flip Direction.ascending = Direction.descending
flip Direction.descending = Direction.ascending

unfoldable pub toggle : String → State → State
toggle k s =
    if k === s.sort_key
    then record s { dir = flip s.dir }
    else record { sort_key = k; dir = Direction.ascending }

pub data Cell : Type 0 where
  number : ℕ → Cell
  text : Text → Cell

-- `String(v)`
abbrev pub cell_text : Cell → Text
cell_text (Cell.number n) = decimal n
cell_text (Cell.text t) = t

-- A sign times `dir`
abbrev pub times : Direction → Ordering → Ordering
times Direction.ascending o = o
times Direction.descending Ordering.lt = Ordering.gt
times Direction.descending Ordering.eq = Ordering.eq
times Direction.descending Ordering.gt = Ordering.lt

abbrev pub at_most : Ordering → Bool
at_most Ordering.gt = false
at_most _ = true

module _ (collate : Text → Text → Ordering) where
  -- The sign of the comparator's result
  unfoldable pub compare_cells : Direction → Option Cell → Option Cell → Ordering
  compare_cells dir none none = Ordering.eq
  compare_cells dir none (some vb) = Ordering.gt
  compare_cells dir (some va) none = Ordering.lt
  compare_cells dir (some (Cell.number m)) (some (Cell.number n)) = times dir (compare m n)
  compare_cells dir (some va) (some vb) = times dir (collate (cell_text va) (cell_text vb))

  module _ {ℓ} {A : Type ℓ} (get : A → String → Option Cell) where
    abbrev pub before : State → A → A → Bool
    before s a b = at_most (compare_cells s.dir (get a s.sort_key) (get b s.sort_key))

    unfoldable pub sort_rows : State → List A → List A
    sort_rows s rows = sort (before s) rows

-- A field that is null or undefined is the empty text.
abbrev pub field_text : Option Cell → Text
field_text none = []
field_text (some v) = cell_text v

unfoldable pub match_text : Text → List (Option Cell) → Bool
match_text [] fields = true
match_text (c ∷ q) fields =
    includes (to_lower (c ∷ q)) (to_lower (join (codes " ") (map field_text fields)))

pub record Header : Type 0 where
  pub class_name : String
  pub title : Text
  pub caret : String

abbrev caret_of : Direction → String
caret_of Direction.ascending = "▲"
caret_of Direction.descending = "▼"

abbrev pub sort_header : String → Text → State → Header
sort_header k label s = record {
  class_name = if k === s.sort_key then "th-sort on" else "th-sort";
  title = codes "Sort by " ++ label;
  caret = if k === s.sort_key then caret_of s.dir else "↕";
}
