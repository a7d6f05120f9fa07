-- ===== src/Pages/Events.antt =====
-- dashboard/app/(app)/events/page.tsx: the filters in the URL, the query and the push filter, and
-- the actions that an event offers. Of the parameters of a URL the page uses only names and values,
-- so they are a list; URLSearchParams writes and reads them.
use sentinel_edr.Common.{
  ℕ, zero, suc, Bool, not, ◌&&◌, ◌||◌, Option, none, some, List, [], ◌∷◌, ◌++◌, if◌then◌else◌,
  ◌===◌, string_same, list_same, nat_same, get_or,
}
use sentinel_edr.Common.Text.{Text, codes}
use sentinel_edr.Model.{Event, Process, FileInfo}
use sentinel_edr.Calls.{Json, number, text, object, field, no_fields, optional, M, ◌>>=◌, respond}
use sentinel_edr.Pages.{Pending, severity_name, with_status, tell, text_of, is_there}

pub record Filters : Type 0 where
  pub cat : Text
  pub sev : Text
  pub q : Text
  pub agent_id : Text
  pub user : Text

abbrev pub all_ : Text
all_ = codes "all"

-- The initial values of the state.
abbrev pub no_filters : Filters
no_filters = record { cat = all_; sev = all_; q = []; agent_id = []; user = [] }

abbrev pub Params : Type 0
Params = List (Text × Text)

-- `p.get(name)`, where `null` and an empty value are alike falsy.
abbrev pub param : Text → Params → Text
param name [] = []
param name (p ∷ ps) = let rest = param name ps in if p.0 === name then p.1 else rest

abbrev pub or_old : Text → Text → Text
or_old [] old = old
or_old (c ∷ s) old = c ∷ s

-- The effect that reads the filters off the URL.
unfoldable pub hydrate : Params → Filters → Filters
hydrate p f = record {
  cat = or_old (param (codes "category") p) f.cat;
  sev = or_old (param (codes "severity") p) f.sev;
  q = or_old (param (codes "q") p) f.q;
  agent_id = or_old (param (codes "agent_id") p) f.agent_id;
  user = or_old (param (codes "user") p) f.user;
}

abbrev pub unless_all : Text → Text → Params
unless_all name v = if not (v === all_) then (name, v) ∷ [] else []

abbrev pub if_there : Text → Text → Params
if_there name v = if is_there v then (name, v) ∷ [] else []

-- The parameters of `basePath`; `q` is the debounced text.
unfoldable pub params : Filters → Params
params f =
    unless_all (codes "category") f.cat
    ++ (unless_all (codes "severity") f.sev
        ++ (if_there (codes "q") f.q
            ++ (if_there (codes "agent_id") f.agent_id ++ if_there (codes "user") f.user)))

-- Whether new events are pushed, or polled for.
unfoldable pub is_pushed : Filters → Bool
is_pushed f = not (is_there f.q || is_there f.agent_id || is_there f.user)

unfoldable pub push_filter : Filters → Event → Bool
push_filter f e =
    (f.cat === all_ || codes e.category === f.cat)
    && (f.sev === all_ || severity_name e.severity === f.sev)

unfoldable pub act : Pending Event → M (Unit {0})
unfolding respond
act p = do
  r ← respond (record {
    type_ = p.type_;
    agent_id = codes p.subject.agent_id;
    target = p.target;
    reason = some (codes "manual " ++ (p.type_ ++ codes " from event"));
    detection_id = none;
  })
  tell r (p.label ++ (codes " dispatched to " ++ codes p.subject.hostname))
      (with_status (codes "Action failed") r.status)

abbrev pub pid_of : Option Process → ℕ
pid_of none = 0
pid_of (some p) = get_or p.pid 0

abbrev pub name_of : Option Process → Text
name_of none = []
name_of (some p) = text_of p.name

abbrev pub path_of : Option FileInfo → Text
path_of none = []
path_of (some f) = text_of f.path

abbrev pub hash_of : Option FileInfo → Option Json
hash_of none = none
hash_of (some f) = elim f.hash [ none ↦ none | some h ↦ some (text (codes h)) ]

-- The verb and the target of an action that an event offers. The dialog is destructive for each.
abbrev pub Offer : Type 0
Offer = Text × Json

abbrev pub target_pid : ℕ → Json
target_pid pid = object (field (codes "pid") (number pid) no_fields)

abbrev pub kill_offers : ℕ → List Offer
kill_offers zero = []
kill_offers (suc n) =
    (codes "kill_process", target_pid (suc n)) ∷ (codes "kill_tree", target_pid (suc n)) ∷ []

abbrev pub quarantine_offer : Text → Option Json → List Offer
quarantine_offer path hash =
    if is_there path
    then (
      codes "quarantine_file",
      object (field (codes "path") (text path) (optional (codes "hash") hash no_fields)),
    )
      ∷ []
    else []

abbrev pub disable_offer : Text → List Offer
disable_offer user =
    if is_there user && not (user === codes "root")
    then (codes "disable_account", object (field (codes "user") (text user) no_fields)) ∷ []
    else []

-- `eventActions`
unfoldable pub event_actions : Event → List Offer
event_actions e =
    kill_offers (pid_of e.process)
    ++ (quarantine_offer (path_of e.file) (hash_of e.file) ++ disable_offer (text_of e.user))
