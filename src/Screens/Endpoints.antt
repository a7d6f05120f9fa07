-- ===== src/Screens/Endpoints.antt =====
-- web/src/pages/Endpoints.tsx: the counts, the rows, the actions of the drawer, and the marked hit.
use Prim.Native.Nat.{Ordering}
use sentinel_edr.Common.{
  ℕ, suc, ◌+◌, Bool, true, false, not, Option, none, some, List, [], ◌∷◌, ◌++◌, length, filter, map,
  take, drop, if◌then◌else◌, String, ◌===◌, string_same,
}
use sentinel_edr.Common.Text.{Text, codes, starts_with, join}
use sentinel_edr.Model.{Agent}
use sentinel_edr.Filters.{Cell, State, match_text, sort_rows}
use sentinel_edr.Calls.{ResponseArgs}
use sentinel_edr.Screens.{Answered, error_of, Effect, toast, refresh_agents, status_name, cell}
use sentinel_edr.Screens.Counts.{Tally, tally}

abbrev pub segments : List String
segments = "all" ∷ "online" ∷ "offline" ∷ "isolated" ∷ []

unfoldable pub counts : List Agent → Tally
unfolding tally
counts agents =
    tally (λ a. status_name a.status) agents
      (("all", length agents) ∷ ("online", 0) ∷ ("offline", 0) ∷ ("isolated", 0) ∷ [])

abbrev pub matches : Text → Agent → Bool
matches q a = match_text q (
    cell a.hostname
    ∷ cell a.ip
    ∷ cell a.mac
    ∷ cell a.os
    ∷ cell a.kernel
    ∷ cell a.arch
    ∷ cell a.id
    ∷ some (Cell.text (join (codes " ") (map codes a.labels)))
    ∷ [])

-- The text columns that sort.
abbrev pub text_column : Agent → String → Option Cell
text_column a k =
    if k === "status"
    then cell (status_name a.status)
    else if k === "hostname"
    then cell a.hostname
    else if k === "os"
    then cell a.os
    else if k === "ip"
    then cell a.ip
    else if k === "mac"
    then cell a.mac
    else none

-- `getTime` of a date, and the order of `localeCompare`
module _ (time : String → ℕ) (collate : Text → Text → Ordering) where
  abbrev pub column : Agent → String → Option Cell
  column a k =
      if k === "last_seen"
      then some (Cell.number (time a.last_seen))
      else if k === "event_count"
      then some (Cell.number a.event_count)
      else text_column a k

  abbrev pub with_status : String → List Agent → List Agent
  with_status status agents =
      if not (status === "all")
      then filter (λ a. status_name a.status === status) agents
      else agents

  unfoldable pub rows : Text → String → State → List Agent → List Agent
  rows q status s agents =
      sort_rows collate column s (filter (λ a. matches q a) (with_status status agents))

-- The call of `act`, and what follows it.
unfoldable pub act_args : Agent → Text → ResponseArgs
act_args a type_ = record {
  type_ = type_;
  agent_id = codes a.id;
  target = none;
  reason = some (codes "manual " ++ (type_ ++ codes " from console"));
  detection_id = none;
}

unfoldable pub act : Agent → Text → Answered → List Effect
act a type_ r = elim (error_of r) [
  | none ↦
      toast (type_ ++ (codes " dispatched to " ++ codes a.hostname)) false ∷ refresh_agents ∷ []
  | some e ↦ toast (codes "action failed: " ++ e) true ∷ []
]

-- The actions of the drawer, each with whether it is confirmed first.
unfoldable pub actions : Bool → Agent → List (Text × Bool)
actions can_act a =
    if can_act
    then (if status_name a.status === "isolated"
        then (codes "unisolate", false)
        else (codes "isolate", true))
      ∷ (codes "block_usb", true)
      ∷ (codes "block_upload", true)
      ∷ []
    else []

abbrev pub found : Bool → Option ℕ → Option ℕ
found true rest = some 0
found false none = none
found false (some i) = some (suc i)

-- `s.indexOf(q)`
abbrev pub index_of : Text → Text → Option ℕ
index_of q [] = if starts_with q [] then some 0 else none
index_of q (c ∷ s) = found (starts_with q (c ∷ s)) (index_of q s)

-- What a cell shows: the text, or the text around a marked part.
pub data Shown : Type 0 where
  plain : Text → Shown
  marked : Text → Text → Text → Shown

abbrev pub marked_at : Text → ℕ → Option ℕ → Shown
marked_at text n none = plain text
marked_at text n (some i) = marked (take i text) (take n (drop i text)) (drop (i + n) text)

-- `toLowerCase` is a parameter: it may make a text longer.
module _ (lower_case : Text → Text) where
  unfoldable pub hl : Text → Text → Shown
  hl text [] = plain text
  hl text (c ∷ q) =
      marked_at text (length (c ∷ q)) (index_of (lower_case (c ∷ q)) (lower_case text))
