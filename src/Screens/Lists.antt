-- ===== src/Screens/Lists.antt =====
-- What the other pages of the embedded console show of the store's lists: web/src/pages/Responses.tsx,
-- Rules.tsx, Dlp.tsx and Overview.tsx; and the exports of Settings.tsx.
use sentinel_edr.Common.{
  ℕ, suc, ◌+◌, ◌-◌, Bool, true, false, not, ◌&&◌, ◌||◌, Option, none, some, List, [], ◌∷◌, ◌++◌,
  length, filter, map, take, if◌then◌else◌, String, ◌===◌, string_same, list_same, nat_same, leb,
  ltb, get_or, is_some, contains,
}
use sentinel_edr.Common.Text.{Text, codes, trim, join, to_lower, includes}
use sentinel_edr.Common.Sorting.{sort}
use sentinel_edr.Model.{Event, DlpInfo, ResponseAction, Detection}
use sentinel_edr.Format.{text_or}
use sentinel_edr.Filters.{Cell, match_text}
use sentinel_edr.Session.{Client, Headers, authorize, is_ok}
use sentinel_edr.Screens.{Effect, toast, cell, optional_cell}
use sentinel_edr.Screens.Counts.{Tally, tally}

-- Responses.tsx: a response with its target, an object of texts.
abbrev pub Targeted : Type 0
Targeted = ResponseAction × List (Text × Text)

abbrev pub entry : Text × Text → Text
entry (k, v) = k ++ (codes "=" ++ v)

unfoldable pub target_str : List (Text × Text) → Text
target_str t = text_or (join (codes " ") (map entry t)) (codes "—")

abbrev pub type_label : String → Option String
type_label t =
    if t === "kill_process"
    then some "Kill Process"
    else if t === "isolate"
    then some "Isolate Endpoint"
    else if t === "unisolate"
    then some "Lift Isolation"
    else if t === "disable_account"
    then some "Disable Account"
    else if t === "block_upload"
    then some "Block Upload"
    else if t === "block_usb"
    then some "Block USB"
    else none

unfoldable pub automated : List Targeted → ℕ
automated rs = length (filter (λ r. r.0.automated) rs)

unfoldable pub with_status : String → List Targeted → ℕ
with_status s rs = length (filter (λ r. r.0.status === s) rs)

-- The counts of the three segments.
unfoldable pub source_counts : List Targeted → Tally
unfolding automated
source_counts rs =
    ("all", length rs) ∷ ("auto", automated rs) ∷ ("manual", length rs - automated rs) ∷ []

unfoldable pub response_rows : Text → String → List Targeted → List Targeted
unfolding target_str
response_rows q src rs =
    filter
      (λ r.
        (src === "all" || (if src === "auto" then r.0.automated else not r.0.automated))
        && match_text q (
            cell r.0.hostname
            ∷ cell r.0.type_
            ∷ optional_cell (type_label r.0.type_)
            ∷ cell r.0.issued_by
            ∷ cell r.0.reason
            ∷ optional_cell r.0.result
            ∷ some (Cell.text (target_str r.1))
            ∷ []))
      rs

-- Rules.tsx
pub record Rule : Type 0 where
  pub id : Text
  pub title : Text
  pub severity : Text
  pub category : Text
  pub tactic : Text
  pub description : Text
  pub auto_respond : Text
  pub mitre : List Text

unfoldable pub rule_rows : Text → List Rule → List Rule
rule_rows q rules =
    filter
      (λ r.
        q === []
        || includes (to_lower q) (
            to_lower
              (join (codes " ") (r.title ∷ r.id ∷ r.tactic ∷ join (codes " ") r.mitre ∷ []))))
      rules

-- Dlp.tsx
unfoldable pub all_dlp : List Event → List Event
all_dlp events = filter (λ e. e.category === "dlp" || is_some e.dlp) events

abbrev pub classifier : Option DlpInfo → Option String
classifier none = none
classifier (some d) = d.classifier

-- `e.dlp?.classifier || "unknown"`
abbrev pub class_of : Event → String
class_of e = elim (classifier e.dlp) [
  | none ↦ "unknown"
  | some c ↦ if c === "" then "unknown" else c
]

unfoldable pub by_class : List Event → Tally
unfolding tally
by_class dlp = tally class_of dlp []

abbrev pub verdict : Option DlpInfo → Option String
verdict none = none
verdict (some d) = d.verdict

abbrev pub is_named : Option String → String → Bool
is_named none t = false
is_named (some s) t = s === t

unfoldable pub blocked : List Event → ℕ
blocked dlp = length (filter (λ e. is_named (verdict e.dlp) "block") dlp)

abbrev pub dlp_cells : Event → List (Option Cell)
dlp_cells e = elim e.dlp [
  | none ↦ cell e.hostname ∷ optional_cell e.user ∷ none ∷ none ∷ none ∷ none ∷ []
  | some d ↦
      cell e.hostname
      ∷ optional_cell e.user
      ∷ optional_cell d.classifier
      ∷ optional_cell d.channel
      ∷ optional_cell d.sample
      ∷ optional_cell d.verdict
      ∷ []
]

unfoldable pub dlp_rows : Text → List Event → List Event
unfolding all_dlp
dlp_rows q events = filter (λ e. match_text q (dlp_cells e)) (all_dlp events)

-- Overview.tsx
unfoldable pub sev_data : Tally → Tally
sev_data severity = filter (λ d. ltb 0 d.1) severity

unfoldable pub cat_data : Tally → Tally
cat_data categories = sort (λ a b. leb b.1 a.1) categories

unfoldable pub recent : List Detection → List Detection
recent detections = take 8 detections

-- The export of Settings.tsx: its path, its headers, and what is said once it is answered, with a
-- status or by an error.
unfoldable pub export_path : Text → Text → Text
export_path kind format =
    codes "/api/v1/siem/export?kind=" ++ (kind ++ (codes "&format=" ++ format))

unfoldable pub export_headers : Client → Headers
export_headers c = authorize c.token []

pub data Exported : Type 0 where
  refused : Text → Exported
  answered : ℕ → Exported

unfoldable pub exported : Text → Exported → List Effect
exported filename (refused e) = toast (codes "export failed: " ++ e) true ∷ []
exported filename (answered status) =
    if not (is_ok status)
    then toast (codes "export failed: Error: HTTP " ++ sentinel_edr.Common.Text.decimal status) true
      ∷ []
    else toast (codes "exported " ++ filename) false ∷ []
