-- ===== src/Pages/Overview.antt =====
-- dashboard/app/(app)/page.tsx and dlp/page.tsx beside it: the figures, the charts' data, the posture
-- line, and what the DLP page counts and writes. The order of the priority detections, whose
-- comparison is not a consistent one for equal time stamps, is the engine's.
use sentinel_edr.Common.{
  ℕ, ◌+◌, ◌-◌, Bool, false, Option, none, some, List, [], ◌∷◌, ◌++◌, length, filter, map, take,
  drop, if◌then◌else◌, String, ◌===◌, string_same, nat_same, ltb, leb,
}
use sentinel_edr.Common.Text.{Text, codes, decimal, join, upper}
use sentinel_edr.Common.Sorting.{sort}
use sentinel_edr.Model.{Overview, HourCount, TacticCount, Event, DlpInfo}
use sentinel_edr.Pages.{text_of}

-- `c[name] ?? 0`
abbrev pub figure : List (String × ℕ) → String → ℕ
figure [] name = 0
figure ((k, n) ∷ c) name = let rest = figure c name in if k === name then n else rest

-- Characters 11 to 15 of the hour
unfoldable pub timeline : List HourCount → List (Text × ℕ)
timeline hours = map (λ t. (take 5 (drop 11 (codes t.hour)), t.count)) hours

abbrev pub sev_order : List String
sev_order = "critical" ∷ "high" ∷ "medium" ∷ "low" ∷ "info" ∷ []

unfoldable pub sev_data : List (String × ℕ) → List (String × ℕ)
sev_data severity = filter (λ d. ltb 0 d.1) (map (λ name. (name, figure severity name)) sev_order)

unfoldable pub sev_total : List (String × ℕ) → ℕ
sev_total [] = 0
sev_total ((name, n) ∷ ds) = n + sev_total ds

unfoldable pub cat_data : List (String × ℕ) → List (String × ℕ)
cat_data categories = sort (λ a b. leb b.1 a.1) categories

abbrev plural : ℕ → Text
plural n = if n === 1 then [] else codes "s"

abbrev detections_part : ℕ → ℕ → Text
detections_part crit open_ =
    if ltb 0 crit
    then decimal crit ++ (codes " critical detection" ++ (plural crit ++ codes " need attention"))
    else if ltb 0 open_
    then decimal open_ ++ (codes " open detection" ++ (plural open_ ++ codes " in the queue"))
    else codes "No open detections"

abbrev isolated_part : ℕ → List Text
isolated_part n =
    if ltb 0 n then (decimal n ++ (codes " host" ++ (plural n ++ codes " isolated"))) ∷ [] else []

-- The offline endpoints; more of them online than there are counts as none.
abbrev offline_part : ℕ → ℕ → List Text
offline_part total online =
    if ltb online total
    then (decimal (total - online)
        ++ (codes " endpoint" ++ (plural (total - online) ++ codes " offline")))
      ∷ []
    else []

abbrev tactic_part : List TacticCount → List Text
tactic_part [] = []
tactic_part (t ∷ ts) =
    if t.tactic === "" then [] else (codes "busiest tactic: " ++ codes t.tactic) ∷ []

unfoldable pub build_posture : List (String × ℕ) → Overview → Text
build_posture c ov =
    join (codes " · ") (
      detections_part (figure c "detections_critical") (figure c "detections_open")
      ∷ (isolated_part (figure c "agents_isolated")
          ++ (offline_part (figure c "agents_total") (figure c "agents_online")
              ++ tactic_part ov.top_mitre)))
    ++ codes "."

-- dlp/page.tsx
unfoldable pub verdict_color : Option String → String
verdict_color none = "var(--muted-foreground)"
verdict_color (some v) =
    if v === "block"
    then "var(--sev-critical)"
    else if v === "alert"
    then "var(--sev-high)"
    else "var(--muted-foreground)"

-- The first character as a capital
unfoldable pub cap : Text → Text
cap [] = []
cap (c ∷ s) = upper c ∷ s

abbrev pub verdict : Option DlpInfo → Option String
verdict none = none
verdict (some d) = d.verdict

abbrev pub channel : Option DlpInfo → Option String
channel none = none
channel (some d) = d.channel

abbrev pub is_block : Option String → Bool
is_block none = false
is_block (some v) = v === "block"

unfoldable pub blocked : List Event → ℕ
blocked dlp = length (filter (λ e. is_block (verdict e.dlp)) dlp)

abbrev or_word : Text → Text → Text
or_word [] d = d
or_word (c ∷ s) d = c ∷ s

-- The line under the drawer's title
unfoldable pub sub : Event → Text
unfolding cap
sub e =
    or_word (cap (text_of (channel e.dlp))) (codes "Unknown channel")
    ++ (codes " · " ++ or_word (cap (text_of (verdict e.dlp))) (codes "Audit"))
