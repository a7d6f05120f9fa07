-- ===== src/Shell.antt =====
-- The embedded console's frame: its routes (web/src/App.tsx), and the navigation with its badges,
-- the top bar, the toasts and the key that jumps to the search box (web/src/Layout.tsx). The
-- router is not modelled; a path that no route names leads to the root's page.
mod Tests
use sentinel_edr.Common.{
  ℕ, suc, String, ◌≡◌, Bool, true, false, not, ◌&&◌, ◌||◌, Option, none, some, List, [], ◌∷◌, ◌++◌,
  StrictEq, ◌===◌, nat_same, list_same, string_same, if◌then◌else◌, ltb, map, take, filter, length,
  get_or, contains, all,
}
use sentinel_edr.Common.Text.{Text, codes, to_upper}
use sentinel_edr.Model.{Detection, DetectionStatus, Case, CaseStatus}
use sentinel_edr.Store.{Toast, is_open, is_alarming}

pub data Page : Type 0 where
  overview endpoints events detections cases dlp internet responses rules settings : Page

abbrev pub routes : List (String × Page)
routes =
    ("/", Page.overview)
    ∷ ("/endpoints", Page.endpoints)
    ∷ ("/events", Page.events)
    ∷ ("/detections", Page.detections)
    ∷ ("/cases", Page.cases)
    ∷ ("/dlp", Page.dlp)
    ∷ ("/internet", Page.internet)
    ∷ ("/responses", Page.responses)
    ∷ ("/rules", Page.rules)
    ∷ ("/settings", Page.settings)
    ∷ []

-- The redirection of `*` leads to the page of `/`.
abbrev pub page_in : String → List (String × Page) → Page
page_in path [] = Page.overview
page_in path (r ∷ rs) = let rest = page_in path rs in if r.0 === path then r.1 else rest

pub record NavItem : Type 0 where
  pub to : String
  pub icon : String
  pub label : String
  pub section : Option String

abbrev item : String → String → String → Option String → NavItem
item to icon label section = record { to = to; icon = icon; label = label; section = section }

abbrev pub nav : List NavItem
nav =
    item "/" "◎" "Overview" (some "Operations")
    ∷ item "/endpoints" "⛂" "Endpoints" none
    ∷ item "/events" "≡" "Event Stream" none
    ∷ item "/detections" "⚠" "Detections" (some "Threat")
    ∷ item "/cases" "▤" "Cases" none
    ∷ item "/dlp" "✦" "Data Loss (DLP)" none
    ∷ item "/internet" "◈" "Internet / Web" none
    ∷ item "/responses" "⊘" "Response" (some "Control")
    ∷ item "/rules" "❖" "Detection Rules" none
    ∷ item "/settings" "⚙" "SIEM / Settings" none
    ∷ []

abbrev pub open_crit : List Detection → ℕ
open_crit found = length (filter (λ d. is_open d && is_alarming d) found)

abbrev pub is_unclosed : Case → Bool
is_unclosed c = elim c.status [ CaseStatus.closed ↦ false | _ ↦ true ]

abbrev pub open_cases : List Case → ℕ
open_cases filed = length (filter is_unclosed filed)

-- A badge with a count of 0 is not shown.
abbrev pub count_badge : ℕ → Option ℕ
count_badge n = if ltb 0 n then some n else none

abbrev pub badge : List Detection → List Case → NavItem → Option ℕ
badge found filed n =
    if n.to === "/detections"
    then count_badge (open_crit found)
    else if n.to === "/cases"
    then count_badge (open_cases filed)
    else none

-- `getUser() || "operator"` and `getRole() || "viewer"`
abbrev pub text_or : Option Text → Text → Text
text_or none other = other
text_or (some []) other = other
text_or (some (c ∷ t)) other = c ∷ t

pub record TopBar : Type 0 where
  pub live : Bool
  pub live_text : String
  pub avatar : Text
  pub user : Text
  pub role : Text

abbrev pub top_bar : Bool → Option Text → Option Text → TopBar
top_bar connected user role = record {
  live = connected;
  live_text = if connected then "Live" else "Offline";
  avatar = to_upper (take 1 (text_or user (codes "operator")));
  user = text_or user (codes "operator");
  role = text_or role (codes "viewer");
}

abbrev pub foot_text : Bool → String
foot_text connected = if connected then "v1.0 · stream live" else "v1.0 · reconnecting…"

pub record ToastRow : Type 0 where
  pub key : String
  pub class_name : String
  pub text : Text

abbrev is_set : Option Bool → Bool
is_set none = false
is_set (some b) = b

abbrev pub toast_row : Toast → ToastRow
toast_row t = record {
  key = t.id;
  class_name = if is_set t.crit then "toast crit" else "toast";
  text = t.text;
}

pub record KeyPress : Type 0 where
  pub key : String
  pub meta : Bool
  pub ctrl : Bool
  pub alt : Bool
  pub target : Option String

-- `/^(INPUT|TEXTAREA|SELECT)$/`
abbrev pub is_field : Option String → Bool
is_field none = false
is_field (some tag) = tag === "INPUT" || (tag === "TEXTAREA" || tag === "SELECT")

-- The key press moves the focus to the search box, where the page has one.
abbrev pub jumps : KeyPress → Bool → Bool
jumps e has_box =
    if not (e.key === "/") || (e.meta || (e.ctrl || e.alt))
    then false
    else if is_field e.target
    then false
    else has_box
