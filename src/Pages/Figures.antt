-- ===== src/Pages/Figures.antt =====
-- What the overview's severity chart leaves out.
use sentinel_edr.Common.{ℕ, ◌≡◌, refl, List, [], ◌∷◌, filter, ltb, String, arith}
use sentinel_edr.Pages.Overview.{sev_total}

-- The levels that the severity chart leaves out, those of no detection, take nothing from its total.
pub sev_total-filter :
    (ds : List (String × ℕ)) → sev_total (filter (λ d. ltb 0 d.1) ds) ≡ sev_total ds
unfolding sev_total
sev_total-filter [] = refl
sev_total-filter ((name, n) ∷ ds) = ground (arith, sev_total-filter ds)
