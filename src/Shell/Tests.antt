-- ===== src/Shell/Tests.antt =====
-- The frame at concrete values.
use sentinel_edr.Common.{◌≡◌, refl, true, false, none, some, [], map, all, contains, string_same}
use sentinel_edr.Common.Text.{codes}
use sentinel_edr.Shell.{routes, nav, page_in, Page, badge, jumps, top_bar}

-- Every entry of the navigation leads to a page of its own.
nav_routed : all (λ n. contains (map (λ r. r.0) routes) n.to) nav ≡ true
nav_routed = refl

unknown_path : page_in "/nowhere" routes ≡ Page.overview
unknown_path = refl

no_badge : map (badge [] []) nav ≡ map (λ n. none) nav
no_badge = refl

typed_slash :
    jumps
      (record { key = "/"; meta = false; ctrl = false; alt = false; target = some "INPUT" })
      true
    ≡ false
typed_slash = refl

nameless : (top_bar false none (some (codes "admin"))).avatar ≡ codes "O"
nameless = refl
