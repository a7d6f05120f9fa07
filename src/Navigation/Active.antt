-- ===== src/Navigation/Active.antt =====
-- The lit item of the sidebar, and the palette's pages.
use sentinel_edr.Common.{◌≡◌, refl, [], ◌∷◌, ◌++◌, All, drop, nat_same, list_same}
use sentinel_edr.Common.Text.{Text, codes}
use sentinel_edr.Navigation.{nav, all_items, is_active, active, palette}

-- The palette lists the pages of the sidebar, under the same names and in the same order.
pub palette-nav : palette ≡ all_items nav
palette-nav = refl

-- Below each page of the sidebar but the overview, whatever follows its path, exactly that page's
-- item is lit.
pub active_below :
    (rest : Text) → All (λ i. active (i.href ++ rest) ≡ i ∷ []) (drop 1 (all_items nav))
unfolding active is_active
active_below rest = (refl, (refl, (refl, (refl, (refl, (refl, (refl, (refl, (refl, tt)))))))))

-- On the overview exactly its item is lit.
active_overview : active (codes "/") ≡ record { href = codes "/"; title = codes "Overview" } ∷ []
unfolding active is_active
active_overview = refl
