-- ===== src/Pages.antt =====
-- The dashboard's pages (dashboard/app/(app)): what they keep, ask, send and say. The tables'
-- columns, the drawers' fields and the markup are not modelled.
pub mod Detections
pub mod Drawer
pub mod Bulk
pub mod Severities
pub mod Events
pub mod Links
pub mod Rules
pub mod Switches
pub mod Endpoints
pub mod Cases
pub mod Selection
pub mod Marks
pub mod Settings
pub mod Commands
pub mod Overview
pub mod Figures
mod Tests
use sentinel_edr.Common.{
  ℕ, String, Bool, true, false, Option, none, some, [], ◌∷◌, ◌++◌, if◌then◌else◌,
}
use sentinel_edr.Common.Text.{Text, codes, decimal}
use sentinel_edr.Calls.{Json, M, emit, success, error, ActionResult, error_or}
use sentinel_edr.Model.{Severity, info, low, medium, high, critical}

-- What a confirmation dialog asks about: a response to a detection, an event or an agent.
pub record Pending (A : Type 0) : Type 0 where
  pub subject : A
  pub type_ : Text
  pub label : Text
  pub target : Option Json
  pub destructive : Bool
  pub desc : Text

abbrev pub severity_name : Severity → Text
severity_name info = codes "info"
severity_name low = codes "low"
severity_name medium = codes "medium"
severity_name high = codes "high"
severity_name critical = codes "critical"

-- `${what} (HTTP ${r.status})`
abbrev pub with_status : Text → ℕ → Text
with_status what status = what ++ (codes " (HTTP " ++ (decimal status ++ codes ")"))

-- `if (r.ok) toast.success(a); else toast.error(r.error || b)`
abbrev pub tell : ActionResult → Text → Text → M (Unit {0})
tell r a b = emit (if r.ok then success a else error (error_or r b))

abbrev pub text_of : Option String → Text
text_of none = []
text_of (some s) = codes s

abbrev pub is_there : Text → Bool
is_there [] = false
is_there (c ∷ s) = true
