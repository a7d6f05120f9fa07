-- ===== src/Table.antt =====
-- The dashboard's data table (dashboard/components/data-table.tsx): the saved view, the selection
-- column, new rows, the row's keys, and what the body shows. Sorting, filtering, paging and
-- selecting are another library's, react-table. `stringify` and `parse` stand for JSON on a view.
pub mod Views
mod Tests
use sentinel_edr.Common.{
  ℕ, Bool, true, false, not, ◌&&◌, ◌||◌, Option, none, some, List, [], ◌∷◌, length, if◌then◌else◌,
  ltb, contains, ◌===◌, StrictEq, list_same, nat_same, string_same, String, is_some, get_or,
}
use sentinel_edr.Common.Text.{Text, codes, trim}

pub data Density : Type 0 where
  comfortable compact : Density

abbrev pub density_name : Density → Text
density_name comfortable = codes "comfortable"
density_name compact = codes "compact"

-- The density button
unfoldable pub other_density : Density → Density
other_density compact = comfortable
other_density comfortable = compact

-- The parts of the view that are kept across reloads: the sort order, the visible columns and the
-- density. The first two are react-table's.
pub record View (S V : Type 0) : Type 0 where
  pub sorting : S
  pub visibility : V
  pub density : Density

-- What `JSON.parse` gives of a saved view: a sort order that is an array, columns that are an object,
-- and a density that is a text.
pub record Parsed (S V : Type 0) : Type 0 where
  pub sorting : Option S
  pub visibility : Option V
  pub density : Option Text

pub record State (S V : Type 0) : Type 0 where
  pub view : View S V
  pub restored : Bool
  -- the value under the key of the table in the local storage
  pub saved : Option Text

abbrev pub density_or : Option Text → Density → Density
density_or none d = d
density_or (some t) d =
    if t === codes "compact" then compact else if t === codes "comfortable" then comfortable else d

module _ {S V : Type 0} where
  abbrev pub parsed_view : Option (Parsed S V) → View S V → View S V
  parsed_view none v = v
  parsed_view (some p) v = record {
    sorting = get_or p.sorting v.sorting;
    visibility = get_or p.visibility v.visibility;
    density = density_or p.density v.density;
  }

  module _ (stringify : View S V → Text) (parse : Text → Option (Parsed S V)) where
    -- What the first effect makes of the saved text; a corrupt or empty one is ignored.
    unfoldable pub restore_view : Option Text → View S V → View S V
    restore_view none v = v
    restore_view (some []) v = v
    restore_view (some (c ∷ t)) v = parsed_view (parse (c ∷ t)) v

    -- The second effect, which runs after the first; `room` tells whether the storage takes the text.
    unfoldable pub save : Bool → State S V → State S V
    save room s = if s.restored && room then record s { saved = some (stringify s.view) } else s

    -- The mount of a table with a key: the effects run with the initial view, which is saved, and
    -- again with the restored one.
    unfoldable pub mount : Bool → View S V → Option Text → State S V
    unfolding restore_view save
    mount room initial saved =
        let first = save room (record { view = initial; restored = true; saved = saved }) in
        save room (record first { view = restore_view saved initial })

    -- A change of the sort order, the columns or the density.
    unfoldable pub change : Bool → View S V → State S V → State S V
    unfolding save
    change room v s = save room (record s { view = v })

    unfoldable pub run : List (Bool × View S V) → State S V → State S V
    unfolding change
    run [] s = s
    run ((room, v) ∷ changes) s = run changes (change room v s)

-- `allColumns`, by their ids
unfoldable pub all_columns : Bool → List String → List String
all_columns selection columns = if not selection then columns else "__select" ∷ columns

-- Whether a row is animated: `prev` are the ids of the last render, none before the first.
unfoldable pub is_new : Bool → Bool → Option (List String) → String → Bool
is_new reduced has_ids prev id =
    not reduced && has_ids && elim prev [ none ↦ false | some ids ↦ not (contains ids id) ]

-- A key on a row that can be opened: whether it opens the row, and whether the page's own reaction
-- to the key is prevented.
unfoldable pub on_key : String → Bool × Bool
on_key key = (key === "Enter" || key === " ", key === " ")

pub data Body : Type 0 where
  skeleton : Body
  no_match : Text → Body
  no_rows : Body
  rows : Body

-- What stands in the body, by the number of its rows.
unfoldable pub body : Bool → ℕ → Text → Body
body loading n filter =
    if loading && not (ltb 0 n)
    then skeleton
    else if not (ltb 0 n)
    then if ltb 0 (length (trim filter)) then no_match filter else no_rows
    else rows

-- The bar of bulk actions
unfoldable pub has_bar : Bool → Bool → ℕ → Bool
has_bar selection actions selected = selection && actions && ltb 0 selected
