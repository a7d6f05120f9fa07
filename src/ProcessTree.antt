-- ===== src/ProcessTree.antt =====
-- web/src/ProcessTree.tsx: the process tree around a focused event, rebuilt from the event stream
-- by its process ids. The maps keep the order of insertion, as a JavaScript `Map` does.
pub mod Window
pub mod Ancestry
pub mod View
mod Tests
use sentinel_edr.Common.{
  ℕ, zero, suc, ◌+◌, String, Bool, true, false, not, ◌&&◌, ◌||◌, Option, none, some, List, [], ◌∷◌,
  map, filter, length, contains, is_some, if◌then◌else◌, ◌===◌, nat_same, string_same, ltb,
}
use sentinel_edr.Model.{Event, Process}

-- A number or a text that is present and truthy.
abbrev pub truthy : Option ℕ → Option ℕ
truthy none = none
truthy (some zero) = none
truthy (some (suc n)) = some (suc n)

abbrev pub has_text : Option String → Bool
has_text none = false
has_text (some s) = not (s === "")

abbrev pub pid_in : Option Process → Option ℕ
pid_in none = none
pid_in (some p) = truthy p.pid

-- `e.process?.pid`, where it is truthy
abbrev pub pid_of : Event → Option ℕ
pid_of e = pid_in e.process

abbrev pub ppid_in : Option Process → Option ℕ
ppid_in none = none
ppid_in (some p) = truthy p.ppid

abbrev pub ppid_of : Event → Option ℕ
ppid_of e = ppid_in e.process

abbrev pub cmdline_in : Option Process → Bool
cmdline_in none = false
cmdline_in (some p) = has_text p.cmdline

abbrev pub has_cmdline : Event → Bool
has_cmdline e = cmdline_in e.process

abbrev pub ByPid : Type 0
ByPid = List (ℕ × Event)

abbrev pub keys : ByPid → List ℕ
keys = map (λ entry. entry.0)

abbrev pub values : ByPid → List Event
values = map (λ entry. entry.1)

unfoldable pub get : ℕ → ByPid → Option Event
get p [] = none
get p ((k, e) ∷ m) = if k === p then some e else get p m

unfoldable pub set : ℕ → Event → ByPid → ByPid
set p e [] = (p, e) ∷ []
set p e ((k, f) ∷ m) = if k === p then (k, e) ∷ m else (k, f) ∷ set p e m

-- `!cur || (!cur.process?.cmdline && p.cmdline)`
abbrev pub better : Option Event → Event → Bool
better none e = true
better (some cur) e = not (has_cmdline cur) && has_cmdline e

-- One round of the loop over the events, for the host of the event of the tree.
abbrev pub observe_at : Option ℕ → String → Event → ByPid → ByPid
observe_at none host e m = m
observe_at (some p) host e m =
    if not (host === "") && not (e.hostname === host)
    then m
    else if better (get p m) e
    then set p e m
    else m

unfoldable pub observe : String → List Event → ByPid → ByPid
unfolding get set
observe host [] m = m
observe host (e ∷ es) m = observe host es (observe_at (pid_of e) host e m)

abbrev pub focus_at : Option ℕ → Event → ByPid → ByPid
focus_at none e m = m
focus_at (some p) e m = set p e m

abbrev pub event_at : Option ℕ → Event → ByPid → ByPid
event_at none e m = m
event_at (some p) e m = if is_some (get p m) then m else set p e m

-- `byPid`
unfoldable pub by_pid : List Event → Event → Event → ByPid
unfolding observe
by_pid events event focus =
    event_at (pid_of event) event (focus_at (pid_of focus) focus (observe event.hostname events []))

abbrev pub get? : Option ℕ → ByPid → Option Event
get? none m = none
get? (some p) m = get p m

-- The loop of `ancestry`; `none` means that the fuel ran out.
climb : ℕ → ByPid → Option Event → List ℕ → List Event → Option (List Event)
climb zero m cur seen chain = none
climb (suc f) m none seen chain = some chain
climb (suc f) m (some e) seen chain = elim (pid_of e) [
  | none ↦ some chain
  | some p ↦
      let rest = climb f m (get? (ppid_of e) m) (p ∷ seen) (e ∷ chain) in
      if contains seen p then some chain else rest
]

-- The chain from the earliest known ancestor down to the focused process.
unfoldable pub ancestry : ByPid → Option ℕ → Option (List Event)
unfolding climb get
ancestry m focal = climb (suc (suc (length m))) m (get? focal m) [] []

abbrev pub is_pid : Option ℕ → ℕ → Bool
is_pid none p = false
is_pid (some q) p = q === p

-- The children of the focused process. `e.process?.pid !== focalPid` holds without a process id,
-- too.
unfoldable pub children : ByPid → Option ℕ → List Event
children m none = []
children m (some p) = filter (λ e. is_pid (ppid_of e) p && not (is_pid (pid_of e) p)) (values m)

-- `hasGraph`
unfoldable pub has_graph : List Event → List Event → Bool
has_graph chain below = ltb 1 (length chain) || ltb 0 (length below)
