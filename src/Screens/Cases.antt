-- ===== src/Screens/Cases.antt =====
-- web/src/pages/Cases.tsx: the counts, the rows, the buttons of the drawer, the changes and notes,
-- and the timeline.
use sentinel_edr.Common.{
  ℕ, Bool, true, false, not, Option, none, some, List, [], ◌∷◌, ◌++◌, length, filter, map,
  if◌then◌else◌, String, ◌===◌, string_same, leb,
}
use sentinel_edr.Common.Text.{Text, codes, trim, join}
use sentinel_edr.Common.Sorting.{sort}
use sentinel_edr.Model.{
  Case, CaseNote, CaseStatus, Detection, Severity, open_, investigating, contained, closed,
}
use sentinel_edr.Filters.{Cell, match_text}
use sentinel_edr.Session.Endpoints.{Request, CaseChange, add_case_note}
use sentinel_edr.Screens.{
  Answered, error_of, Effect, toast, refresh_cases, severity_name, cell, optional_cell,
}
use sentinel_edr.Screens.Counts.{Tally, tally}

abbrev pub status_name : CaseStatus → String
status_name open_ = "open"
status_name investigating = "investigating"
status_name contained = "contained"
status_name closed = "closed"

unfoldable pub counts : List Case → Tally
unfolding tally
counts cases =
    tally (λ c. status_name c.status) cases
      (("all", length cases)
        ∷ ("open", 0)
        ∷ ("investigating", 0)
        ∷ ("contained", 0)
        ∷ ("closed", 0)
        ∷ [])

unfoldable pub rows : Text → String → List Case → List Case
rows q status cases =
    filter
      (λ c. match_text q (
        cell c.title
        ∷ optional_cell c.hostname
        ∷ optional_cell c.assigned_to
        ∷ cell (severity_name c.severity)
        ∷ some (Cell.text (join (codes " ") (map codes c.mitre)))
        ∷ []))
      (if not (status === "all")
        then filter (λ c. status_name c.status === status) cases
        else cases)

abbrev no_change : CaseChange
no_change = record { status = none; assigned_to = none; title = none }

abbrev pub to_status : CaseStatus → CaseChange
to_status s = record no_change { status = some (codes (status_name s)) }

abbrev pub or_me : Option Text → Text
or_me (some (c ∷ u)) = c ∷ u
or_me _ = codes "me"

-- A button for each other status, but that only a closed case is opened again.
abbrev pub status_buttons : CaseStatus → List CaseStatus
status_buttons open_ = investigating ∷ contained ∷ closed ∷ []
status_buttons investigating = contained ∷ closed ∷ []
status_buttons contained = investigating ∷ closed ∷ []
status_buttons closed = investigating ∷ contained ∷ open_ ∷ []

-- The changes that the drawer offers, once the case is there.
unfoldable pub buttons : Bool → Option Text → Option Case → List CaseChange
buttons can_act user none = []
buttons can_act user (some c) =
    if can_act
    then record no_change { assigned_to = some (or_me user) }
      ∷ map to_status (status_buttons c.status)
    else []

-- The drawer of one case. `busy` turns its buttons off.
pub record State : Type 0 where
  pub detail : Option Case
  pub note : Text
  pub busy : Bool

-- The reply to a read of the case; `none` is an error, which keeps what is shown.
abbrev pub loaded : Option Case → State → State
loaded none s = s
loaded (some c) s = record s { detail = some c }

-- Both handlers begin so.
unfoldable pub started : State → State
started s = record s { busy = true }

-- `update`, by the answer to its call and the reply to the read that follows a success.
unfoldable pub updated : Answered → Option Case → State → State × List Effect
updated r read s = elim (error_of r) [
  | none ↦ (
    record (loaded read s) { busy = false },
    refresh_cases ∷ toast (codes "case updated") false ∷ [],
  )
  | some e ↦ (record s { busy = false }, toast (codes "update failed: " ++ e) true ∷ [])
]

abbrev pub is_blank : Text → Bool
is_blank note = elim (trim note) [ [] ↦ true | c ∷ s ↦ false ]

-- The call of `submitNote`, if it makes one.
unfoldable pub note_request : Text → Text → Option Request
note_request id note = if is_blank note then none else some (add_case_note id (trim note))

unfoldable pub noted : Answered → Option Case → State → State × List Effect
noted r read s = elim (error_of r) [
  | none ↦ (record (loaded read s) { note = []; busy = false }, refresh_cases ∷ [])
  | some e ↦ (record s { busy = false }, toast (codes "note failed: " ++ e) true ∷ [])
]

pub data Kind : Type 0 where
  opened detection note : Kind

pub record Item : Type 0 where
  pub ts : String
  pub kind : Kind
  pub label : Text
  pub sev : Option Severity

-- `created_by ? " by ..." : ""`
abbrev pub by_whom : Option String → Text
by_whom none = []
by_whom (some u) = if u === "" then [] else codes " by " ++ codes u

abbrev pub opened_item : Case → Item
opened_item c = record {
  ts = c.created_at;
  kind = opened;
  label = codes "Case opened" ++ by_whom c.created_by;
  sev = none;
}

abbrev pub detection_item : Detection → Item
detection_item d = record {
  ts = d.ts;
  kind = detection;
  label = codes d.rule_name ++ (codes " (" ++ (codes d.engine ++ codes ")"));
  sev = some d.severity;
}

abbrev pub note_item : CaseNote → Item
note_item n = record {
  ts = n.ts;
  kind = note;
  label = codes n.author ++ (codes ": " ++ codes n.body);
  sev = none;
}

abbrev pub items : Case → List Detection → List Item
items c detections = opened_item c ∷ (map detection_item detections ++ map note_item c.notes)

-- `getTime` of a date
module _ (time : String → ℕ) where
  abbrev pub not_after : Item → Item → Bool
  not_after a b = leb (time a.ts) (time b.ts)

  unfoldable pub timeline : Case → List Detection → List Item
  timeline c detections = sort not_after (items c detections)
