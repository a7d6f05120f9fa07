-- ===== src/Table/Tests.antt =====
-- The data table with sort orders and columns that are numbers.
use sentinel_edr.Common.{ℕ, ◌≡◌, ◌≢◌, refl, true, false, Option, none, some, [], ◌∷◌, string_same}
use sentinel_edr.Common.Text.{Text, codes}
use sentinel_edr.Table.{
  comfortable, compact, density_name, View, Parsed, no_rows, rows, restore_view, mount, run, is_new,
  body,
}
use sentinel_edr.Table.Views.{IsJson, mount-run}

abbrev write_view : View ℕ ℕ → Text
write_view v = v.sorting ∷ v.visibility ∷ density_name v.density

abbrev read_view : Text → Option (Parsed ℕ ℕ)
read_view (s ∷ v ∷ d) = some (record { sorting = some s; visibility = some v; density = some d })
read_view _ = none

cons_nonempty : (a : ℕ) (t : Text) → a ∷ t ≢ []
cons_nonempty a t h = cc

json : IsJson write_view read_view
json = record {
  reads = λ v. refl;
  writes = λ v. cons_nonempty v.sorting (v.visibility ∷ density_name v.density);
}

abbrev fresh : View ℕ ℕ
fresh = record { sorting = 0; visibility = 0; density = comfortable }

abbrev sorted : View ℕ ℕ
sorted = record { sorting = 2; visibility = 1; density = compact }

-- A compact table is compact again.
compact_kept :
    (mount write_view read_view true fresh
      (run write_view read_view
        ((true, sorted) ∷ [])
        (mount write_view read_view true fresh none)).saved).view
    ≡ sorted
unfolding mount run
compact_kept = refl

-- A density that is no density is ignored, what else is saved is not.
odd_density :
    restore_view write_view read_view (some (3 ∷ 4 ∷ codes "huge")) fresh
    ≡ record { sorting = 3; visibility = 4; density = comfortable }
unfolding restore_view
odd_density = refl

-- A blank filter counts as none.
blank_text : body false 0 (codes "  ") ≡ no_rows
unfolding body
blank_text = refl

-- Rows that are there stay while the table loads.
rows_stay : body true 1 (codes "  ") ≡ rows
unfolding body
rows_stay = refl

-- No row is animated at first, then those that were not there.
first_paint : is_new false true none "a" ≡ false
unfolding is_new
first_paint = refl

late_row : is_new false true (some ("a" ∷ [])) "b" ≡ true
unfolding is_new
late_row = refl

mount-run_example :
    (mount write_view read_view false fresh
      (run write_view read_view
        ((true, sorted) ∷ [])
        (mount write_view read_view true fresh none)).saved).view
    ≡ (run write_view read_view
        ((true, sorted) ∷ [])
        (mount write_view read_view true fresh none)).view
mount-run_example =
    mount-run write_view read_view json ((true, sorted) ∷ []) fresh fresh none false (refl, tt)
