-- ===== src/LiveList/Tests.antt =====
-- A run of the live list, and its theorems at concrete inputs.
use sentinel_edr.Common.{
  ℕ, ◌≡◌, ◌≢◌, refl, String, true, false, Option, none, some, List, [], ◌∷◌, string_same, arith,
  ◌===◌,
}
use sentinel_edr.LiveList.{
  Row, State, rows, ids, Options, Event, query_changed, load_reply, pushed, more_reply, step, run,
  initial, ts_num,
}
use sentinel_edr.LiveList.Rows.{IsValid}
use sentinel_edr.LiveList.Invariant.{run-IsValid}

-- Three time stamps, in order.
abbrev parse : String → Option ℕ
parse s = elim (s === "t1") [
  | true ↦ some 1
  | false ↦ elim (s === "t2") [ true ↦ some 2 | false ↦ none ]
]

abbrev options : Options
options = record { page_size = 2; cap = 2; push_filter = λ _. true }

abbrev row : String → String → Row
row id ts = record { id = id; ts = ts }

abbrev trace : List Event
trace =
    query_changed
    ∷ load_reply 1 (rows (row "b" "t1" ∷ row "a" "t1" ∷ []))
    ∷ pushed (some (row "c" "t2"))
    ∷ more_reply (rows (row "a" "t1" ∷ row "z" "t1" ∷ []))
    ∷ []

abbrev shown : State
shown = run parse options trace initial

-- The push has evicted "a", and the page that holds it does not bring it back.
trace_ids : (ids shown.items ≡ "c" ∷ "b" ∷ "z" ∷ []) × (shown.newest ≡ "t2")
unfolding run step initial ts_num
trace_ids = (refl, refl)

run-IsValid_example : IsValid shown
run-IsValid_example =
    run-IsValid parse options trace (tt, ((refl, (refl, tt)), (tt, ((refl, (refl, tt)), tt))))

abbrev loaded_page : State
loaded_page =
    run parse options (query_changed ∷ load_reply 1 (rows (row "b" "t1" ∷ row "a" "t1" ∷ [])) ∷ [])
      initial

abbrev asked : State
asked = run parse options (query_changed ∷ []) initial

c_named : ◌≢◌ {A = String} "c" ""
c_named = ground (arith, string_same.same_iff "c" "")
