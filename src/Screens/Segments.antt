-- ===== src/Screens/Segments.antt =====
-- The number on each segment of the endpoints and the cases page against the rows that it shows.
use Prim.Native.Nat.{Ordering}
use sentinel_edr.Common.{
  ℕ, ◌≡◌, refl, true, false, List, [], ◌∷◌, All, length, filter, String, ◌===◌, string_same, ap,
  ◌∙◌, sym,
}
use sentinel_edr.Common.Text.{Text}
use sentinel_edr.Common.Sorting.{length-sort}
use sentinel_edr.Model.{
  Agent, AgentStatus, online, offline, isolated, Case, CaseStatus, open_, investigating, contained,
  closed,
}
use sentinel_edr.Filters.{State, sort_rows, before, match_text}
use sentinel_edr.Screens.Counts.{count, count-tally_new, count-tally_none}
use sentinel_edr.Screens.Endpoints.{segments, column}
use sentinel_edr.Screens.Endpoints
use sentinel_edr.Screens.Cases
use sentinel_edr.Screens

pub filter-true : {A : Type 0} (xs : List A) → filter (λ x. true) xs ≡ xs
filter-true [] = refl
filter-true (x ∷ xs) = ap (λ ys. x ∷ ys) (filter-true xs)

no_all : (s : AgentStatus) → Screens.status_name s === "all" ≡ false
no_all online = refl
no_all offline = refl
no_all isolated = refl

no_case_all : (s : CaseStatus) → Cases.status_name s === "all" ≡ false
no_case_all open_ = refl
no_case_all investigating = refl
no_case_all contained = refl
no_case_all closed = refl

module _ (time : String → ℕ) (collate : Text → Text → Ordering) where
  length-rows :
      (k : String) (s : State) (agents : List Agent)
      → length (Endpoints.rows time collate [] k s agents)
        ≡ length (Endpoints.with_status time collate k agents)
  unfolding Endpoints.rows sort_rows match_text
  length-rows k s agents =
      length-sort (before collate (column time collate) s) _
      ∙ ap length (filter-true (Endpoints.with_status time collate k agents))

  -- While nothing is searched for, the number on each segment of the endpoints page is the number of
  -- the rows that the page shows once the segment is chosen, however they are sorted.
  pub counts-rows :
      (agents : List Agent) (s : State)
      → All
          (λ k.
            count k (Endpoints.counts agents) ≡ length (Endpoints.rows time collate [] k s agents))
          segments
  unfolding Endpoints.counts count
  counts-rows agents s = (
    count-tally_none (λ a. Screens.status_name a.status) "all" agents _ (λ a. no_all a.status)
        ∙ sym (length-rows "all" s agents),
    (
      count-tally_new (λ a. Screens.status_name a.status) "online" agents _ refl
          ∙ sym (length-rows "online" s agents),
      (
        count-tally_new (λ a. Screens.status_name a.status) "offline" agents _ refl
            ∙ sym (length-rows "offline" s agents),
        (
          count-tally_new (λ a. Screens.status_name a.status) "isolated" agents _ refl
              ∙ sym (length-rows "isolated" s agents),
          tt,
        ),
      ),
    ),
  )

-- The same holds of the cases page.
pub case_counts-rows :
    (cases : List Case)
    → All
        (λ k. count k (Cases.counts cases) ≡ length (Cases.rows [] k cases))
        ("all" ∷ "open" ∷ "investigating" ∷ "contained" ∷ "closed" ∷ [])
unfolding Cases.counts Cases.rows count match_text
case_counts-rows cases = (
  count-tally_none (λ c. Cases.status_name c.status) "all" cases _ (λ c. no_case_all c.status)
      ∙ ap length (sym (filter-true cases)),
  (
    count-tally_new (λ c. Cases.status_name c.status) "open" cases _ refl
        ∙ ap length (sym (filter-true _)),
    (
      count-tally_new (λ c. Cases.status_name c.status) "investigating" cases _ refl
          ∙ ap length (sym (filter-true _)),
      (
        count-tally_new (λ c. Cases.status_name c.status) "contained" cases _ refl
            ∙ ap length (sym (filter-true _)),
        (
          count-tally_new (λ c. Cases.status_name c.status) "closed" cases _ refl
              ∙ ap length (sym (filter-true _)),
          tt,
        ),
      ),
    ),
  ),
)
