-- ===== src/Navigation.antt =====
-- The dashboard's navigation: the sidebar (dashboard/components/app-sidebar.tsx) and the command
-- palette (dashboard/components/command-palette.tsx). Their icons are not modelled.
pub mod Active
mod Tests
use sentinel_edr.Common.{
  ℕ, Bool, true, false, not, ◌&&◌, ◌||◌, Option, none, some, List, [], ◌∷◌, ◌++◌, length, take,
  filter, map, if◌then◌else◌, String, ◌===◌, string_same, list_same, nat_same, ltb,
}
use sentinel_edr.Common.Text.{Text, codes, starts_with, to_lower, to_upper}
use sentinel_edr.Model.{Agent, Detection}

pub record Item : Type 0 where
  pub href : Text
  pub title : Text

pub record Group : Type 0 where
  pub label : Text
  pub items : List Item

abbrev item : String → String → Item
item href title = record { href = codes href; title = codes title }

abbrev pub nav : List Group
nav =
    record {
      label = codes "Monitor";
      items =
          item "/" "Overview"
          ∷ item "/endpoints" "Endpoints"
          ∷ item "/events" "Events"
          ∷ item "/internet" "Network"
          ∷ [];
    }
    ∷ record {
      label = codes "Detect";
      items =
          item "/detections" "Detections" ∷ item "/cases" "Cases" ∷ item "/dlp" "Data Loss" ∷ [];
    }
    ∷ record {
      label = codes "Respond";
      items = item "/responses" "Response" ∷ item "/rules" "Rules" ∷ [];
    }
    ∷ record { label = codes "System"; items = item "/settings" "Settings" ∷ [] }
    ∷ []

abbrev pub all_items : List Group → List Item
all_items [] = []
all_items (g ∷ gs) = g.items ++ all_items gs

unfoldable pub is_active : Text → Item → Bool
is_active pathname i =
    if i.href === codes "/" then pathname === codes "/" else starts_with i.href pathname

unfoldable pub active : Text → List Item
unfolding is_active
active pathname = filter (is_active pathname) (all_items nav)

abbrev or_text : Option Text → Text → Text
or_text (some (c ∷ s)) d = c ∷ s
or_text _ d = d

-- The letters of the avatar; an empty name counts as none.
unfoldable pub initials : Option Text → Option Text → Text
initials name email = to_upper (take 2 (or_text name (or_text email (codes "OP"))))

-- The pages of the palette
abbrev pub palette : List Item
palette =
    item "/" "Overview"
    ∷ item "/endpoints" "Endpoints"
    ∷ item "/events" "Events"
    ∷ item "/internet" "Network"
    ∷ item "/detections" "Detections"
    ∷ item "/cases" "Cases"
    ∷ item "/dlp" "Data Loss"
    ∷ item "/responses" "Response"
    ∷ item "/rules" "Rules"
    ∷ item "/settings" "Settings"
    ∷ []

-- The key that opens and closes the palette; `none` is a key that it leaves alone.
unfoldable pub on_key : (meta_key ctrl_key : Bool) → Text → Bool → Option Bool
on_key meta_key ctrl_key key open_ =
    if (meta_key || ctrl_key) && to_lower key === codes "k" then some (not open_) else none

-- Where the entries of the first eight agents and detections lead. `encode` is encodeURIComponent.
unfoldable pub agent_links : (Text → Text) → List Agent → List Text
agent_links encode agents =
    map (λ a. codes "/events?agent_id=" ++ encode (codes a.id)) (take 8 agents)

unfoldable pub detection_links : List Detection → List Text
detection_links dets = map (λ d. codes "/detections?id=" ++ codes d.id) (take 8 dets)
