-- ===== src/Incident.antt =====
-- The incident's summary and recommendations (dashboard/components/incident-summary.tsx), its
-- attack story (dashboard/components/attack-story.tsx) and the lineage of a process
-- (dashboard/components/lineage-tree.tsx). `parse_date` stands for Date.parse, and is `none` where
-- that is not a number.
pub mod Advice
mod Tests
use sentinel_edr.Common.{
  ℕ, suc, String, ◌≡◌, Bool, true, false, not, ◌&&◌, ◌||◌, Option, none, some, List, [], ◌∷◌, ◌++◌,
  StrictEq, ◌===◌, nat_same, list_same, string_same, if◌then◌else◌, leb, ltb, ◌-◌, map, take,
  filter, length, get_or, contains, reverse,
}
use sentinel_edr.Common.Sorting.{sort}
use sentinel_edr.Common.Text.{Text, codes, trim, split, join, upper, starts_with, decimal}
use sentinel_edr.Mitre.{technique_name}
use sentinel_edr.Model.{Event, Process, Severity}

-- An optional field is `none` or empty where it is not there.
pub record IncidentLike : Type 0 where
  pub severity : Text
  pub hostname : Option Text
  pub agent_id : Option Text
  pub user : Option Text
  pub rule_name : Option Text
  pub summary : Option Text
  pub engine : Option Text
  pub tactic : Option Text
  pub mitre : Option (List Text)
  pub detection_count : Option ℕ
  pub event_count : Option ℕ

-- `t ? f(t) : other`
abbrev pub if_text : Option Text → (Text → Text) → Text → Text
if_text none f other = other
if_text (some []) f other = other
if_text (some (c ∷ t)) f other = f (c ∷ t)

abbrev pub severity_text : Text → Text
severity_text [] = codes "A"
severity_text (c ∷ s) = upper c ∷ s

-- A part that is not pushed is empty.
abbrev pub first_part : IncidentLike → Text
first_part x =
    severity_text x.severity
    ++ (codes "-severity "
        ++ (if_text x.rule_name (λ r. codes "“" ++ (r ++ codes "”")) (codes "activity")
            ++ (if_text x.hostname (λ h. codes " on " ++ h) []
                ++ (if_text x.user (λ u. codes " attributed to " ++ u) [] ++ codes "."))))

abbrev pub ends_with_dot : Text → Bool
ends_with_dot s = starts_with (codes ".") (reverse s)

abbrev pub summary_part : Option Text → Text
summary_part o = if_text o (λ s. if ends_with_dot s then s else s ++ codes ".") []

abbrev pub more_text : ℕ → Text
more_text n = if ltb 4 n then codes ", +" ++ (decimal (n - 4) ++ codes " more") else []

abbrev pub mitre_part : List Text → Text
mitre_part [] = []
mitre_part (id ∷ ids) =
    codes "Maps to "
    ++ (join (codes ", ") (take 4 (map technique_name (id ∷ ids)))
        ++ (more_text (length (id ∷ ids)) ++ codes "."))

abbrev pub count_part : Option ℕ → Text
count_part none = []
count_part (some n) =
    if n === 0
    then []
    else codes "Correlates "
      ++ (decimal n ++ (codes " detection" ++ ((if n === 1 then [] else codes "s") ++ codes ".")))

abbrev pub is_there : Text → Bool
is_there t = not (t === [])

unfoldable pub narrative : IncidentLike → Text
narrative x = join (codes " ") (
    filter is_there (
      first_part x
      ∷ summary_part x.summary
      ∷ mitre_part (get_or x.mitre [])
      ∷ if_text x.tactic (λ t. codes "Kill-chain stage: " ++ (t ++ codes ".")) []
      ∷ count_part x.detection_count
      ∷ if_text x.engine (λ e. codes "Surfaced by the " ++ (e ++ codes " engine.")) []
      ∷ []))

pub data Recommendation : Type 0 where
  isolate : Text → Recommendation
  disable_account : Text → Text → Recommendation
  escalate : Text → Recommendation

abbrev pub has_text : Option Text → Bool
has_text none = false
has_text (some t) = is_there t

abbrev pub isolate_part : IncidentLike → List Recommendation
isolate_part x =
    if has_text x.hostname || has_text x.agent_id
    then Recommendation.isolate (codes "Isolate " ++ if_text x.hostname (λ h. h) (codes "host"))
      ∷ []
    else []

abbrev pub disable_part : Option Text → List Recommendation
disable_part none = []
disable_part (some u) =
    if is_there u && not (u === codes "root")
    then Recommendation.disable_account (codes "Disable " ++ u) u ∷ []
    else []

unfoldable pub recommendations : IncidentLike → List Recommendation
recommendations x =
    isolate_part x
    ++ (disable_part x.user ++ Recommendation.escalate (codes "Escalate to case") ∷ [])

-- `"destructive" in r && r.destructive`
abbrev pub is_destructive : Recommendation → Bool
is_destructive (Recommendation.isolate l) = true
is_destructive (Recommendation.disable_account l u) = true
is_destructive (Recommendation.escalate l) = false

-- `lineage.split("→").map(trim).filter(Boolean)`, or nothing for a missing lineage
unfoldable pub lineage_nodes : Option Text → List Text
lineage_nodes none = []
lineage_nodes (some []) = []
lineage_nodes (some (c ∷ lineage)) = filter is_there (map trim (split 8594 (c ∷ lineage)))

abbrev pub severity_rank : Severity → ℕ
severity_rank Severity.critical = 5
severity_rank Severity.high = 4
severity_rank Severity.medium = 3
severity_rank Severity.low = 2
severity_rank Severity.info = 1

abbrev pub present : Option String → Bool
present none = false
present (some s) = not (s === "")

abbrev pub lineage_in : Option Process → Bool
lineage_in none = false
lineage_in (some p) = present p.lineage || present p.parent

abbrev pub has_lineage : Event → Bool
has_lineage e = lineage_in e.process

abbrev pub or_all : List Event → List Event → List Event
or_all [] all_ = all_
or_all (e ∷ es) all_ = e ∷ es

unfoldable pub lineage_source : List String → List Event → List Event
lineage_source linked events = take 3 (
    sort (λ a b. leb (severity_rank b.severity) (severity_rank a.severity))
      (or_all (filter (λ e. contains linked e.id) (filter has_lineage events))
        (filter has_lineage events)))

-- A difference that is not a number counts as 0.
abbrev pub not_after : Option ℕ → Option ℕ → Bool
not_after (some a) (some b) = leb a b
not_after _ _ = true

abbrev pub timeline : (String → Option ℕ) → List Event → List Event
timeline parse_date events = sort (λ a b. not_after (parse_date a.ts) (parse_date b.ts)) events
