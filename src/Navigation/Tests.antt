-- ===== src/Navigation/Tests.antt =====
-- The navigation at concrete paths and users.
use sentinel_edr.Common.{◌≡◌, refl, map, some, [], ◌∷◌, true, false}
use sentinel_edr.Common.Text.{codes}
use sentinel_edr.Navigation.{active, is_active, initials, on_key}

-- A path that goes on from a page's name lights its item, too.
longer_name : map (λ i. i.title) (active (codes "/rulesets")) ≡ codes "Rules" ∷ []
unfolding active is_active
longer_name = refl

no_name : initials (some []) (some (codes "ana@example.com")) ≡ codes "AN"
unfolding initials
no_name = refl

shortcut : on_key false true (codes "K") false ≡ some true
unfolding on_key
shortcut = refl
