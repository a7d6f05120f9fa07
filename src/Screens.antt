-- ===== src/Screens.antt =====
-- The pages of the embedded console (web/src/pages) and their components (web/src/components.tsx):
-- what they keep, ask, send and say. The tables' columns, the drawers' fields, the charts and the
-- markup are not modelled.
pub mod Confirm
pub mod Clicks
pub mod Counts
pub mod Endpoints
pub mod Segments
pub mod Highlight
pub mod Detections
pub mod Related
pub mod Cases
pub mod Timeline
pub mod Events
pub mod Lists
pub mod Shares
pub mod Domains
mod Tests
use sentinel_edr.Common.{Bool, true, false, Option, none, some, List, [], ◌∷◌, ◌++◌, String, map}
use sentinel_edr.Common.Text.{Text, codes, decimal}
use sentinel_edr.Session.{Outcome}
use sentinel_edr.Model.{
  Severity, info, low, medium, high, critical, AgentStatus, online, offline, isolated,
  DetectionStatus, CaseStatus,
}
use sentinel_edr.Filters.{Cell}

-- What a call of the API client comes to: a rejection of `fetch`, with its text, or what the client
-- made of the answer.
pub data Answered : Type 0 where
  lost : Text → Answered
  received : Outcome → Answered

-- `String(e)` of what the call throws; `none` when it returns.
unfoldable pub error_of : Answered → Option Text
error_of (lost e) = some e
error_of (received Outcome.unauthorized) = some (codes "Error: unauthorized")
error_of (received (Outcome.failed status text)) =
    some (codes "Error: " ++ (decimal status ++ (codes " " ++ text)))
error_of (received (Outcome.json t)) = none
error_of (received (Outcome.plain t)) = none

-- What a handler does besides its call: a toast, critical or not, and the lists that are asked for
-- again.
pub data Effect : Type 0 where
  toast : Text → Bool → Effect
  refresh_agents refresh_detections refresh_cases : Effect

abbrev pub status_name : AgentStatus → String
status_name online = "online"
status_name offline = "offline"
status_name isolated = "isolated"

abbrev pub severity_name : Severity → String
severity_name info = "info"
severity_name low = "low"
severity_name medium = "medium"
severity_name high = "high"
severity_name critical = "critical"

-- A field that is searched.
abbrev pub cell : String → Option Cell
cell s = some (Cell.text (codes s))

abbrev pub optional_cell : Option String → Option Cell
optional_cell none = none
optional_cell (some s) = cell s
