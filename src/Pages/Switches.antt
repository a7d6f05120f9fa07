-- ===== src/Pages/Switches.antt =====
-- The switch of many rules at once.
use sentinel_edr.Common.{◌≡◌, true, Bool, List, [], ◌∷◌, ◌++◌, map, length, any, ◌⊎◌, inl, inr}
use sentinel_edr.Calls.{Client, Reply, replied, done, thrown, clear, reload, sending}
use sentinel_edr.Calls.Results.{answers, fetch_all_cases, is_failed}
use sentinel_edr.Pages.Rules.{Rule, toggle_call, bulk_toggle, bulk_toast}

-- One call for each row goes out in every case. If each gets a reply, the page tells of them, clears
-- the selection and asks for the rules again; if one gets none, it does none of these.
pub bulk_toggle_cases :
    (rows : List Rule) (enabled : Bool) (k : Client)
    → let cs = map (toggle_call enabled) rows in
      ((rs : List Reply) × (answers k cs ≡ map replied rs)
        × (bulk_toggle rows enabled k ≡ (
          done tt,
          record (sending cs k) {
            effects = k.effects ++ bulk_toast (length rows) rs enabled ∷ clear ∷ reload ∷ [];
          },
        )))
      ⊎ ((any is_failed (answers k cs) ≡ true)
          × (bulk_toggle rows enabled k ≡ (thrown, sending cs k)))
unfolding bulk_toggle
bulk_toggle_cases rows enabled k = elim (fetch_all_cases (map (toggle_call enabled) rows) k) [
  | inl (rs, e, m) ↦ inl (rs, m, rw e)
  | inr (e, m) ↦ inr (m, rw e)
]
