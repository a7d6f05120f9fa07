-- ===== src/Incident/Advice.antt =====
-- What the summary advises.
use sentinel_edr.Common.{
  ◌≡◌, refl, ap, ◌∙◌, Bool, true, false, not, ◌&&◌, ◌||◌, Option, none, some, [], ◌∷◌, ◌++◌, ◌===◌,
  list_same, nat_same, if◌then◌else◌, any, any-append, Bool-cases, inl, inr, arith,
}
use sentinel_edr.Common.Text.{Text, codes}
use sentinel_edr.Incident.{
  if_text, IncidentLike, Recommendation, recommendations, isolate_part, disable_part, has_text,
  is_there,
}

abbrev pub is_isolate : Recommendation → Bool
is_isolate (Recommendation.isolate l) = true
is_isolate _ = false

abbrev pub disables : Text → Recommendation → Bool
disables u (Recommendation.disable_account l v) = v === u
disables u _ = false

abbrev pub is_escalate : Recommendation → Bool
is_escalate (Recommendation.escalate l) = true
is_escalate _ = false

abbrev pub names : Option Text → Text → Bool
names none u = false
names (some v) u = v === u

any-recommendations :
    (p : Recommendation → Bool) (x : IncidentLike)
    → any p (recommendations x)
      ≡ any p (isolate_part x)
        || (any p (disable_part x.user)
            || (p (Recommendation.escalate (codes "Escalate to case")) || false))
unfolding recommendations
any-recommendations p x =
    any-append p (isolate_part x)
      (disable_part x.user ++ Recommendation.escalate (codes "Escalate to case") ∷ [])
    ∙ ap (λ b. any p (isolate_part x) || b)
        (any-append p (disable_part x.user)
          (Recommendation.escalate (codes "Escalate to case") ∷ []))

any-if :
    (p : Recommendation → Bool) (b : Bool) (r : Recommendation)
    → any p (if b then r ∷ [] else []) ≡ b && p r
any-if p true r = ground arith
any-if p false r = refl

any-disable_part :
    (p : Recommendation → Bool) (o : Option Text)
    → ((l v : Text) → p (Recommendation.disable_account l v) ≡ false)
    → any p (disable_part o) ≡ false
any-disable_part p none h = refl
any-disable_part p (some v) h =
    any-if p (is_there v && not (v === codes "root"))
      (Recommendation.disable_account (codes "Disable " ++ v) v)
    ∙ ground (arith, h (codes "Disable " ++ v) v)

disables-disable_part :
    (o : Option Text) (u : Text)
    → any (disables u) (disable_part o) ≡ is_there u && (not (u === codes "root") && names o u)
disables-disable_part none u = ground arith
disables-disable_part (some v) u = elim (Bool-cases (v === u)) [
  | inl e ↦
      any-if (disables u) (is_there v && not (v === codes "root"))
        (Recommendation.disable_account (codes "Disable " ++ v) v)
      ∙ ap (λ w. (is_there w && not (w === codes "root")) && (v === u))
          ((list_same.same_iff v u).0 e)
      ∙ ground (arith, e)
  | inr e ↦
      any-if (disables u) (is_there v && not (v === codes "root"))
        (Recommendation.disable_account (codes "Disable " ++ v) v)
      ∙ ground (arith, e)
]

-- The summary advises to isolate exactly where the incident has a host or an agent, to disable an
-- account exactly where it is the incident's user, named and not root, and always to escalate.
pub recommendations-advice :
    (x : IncidentLike) (u : Text)
    → (any is_isolate (recommendations x) ≡ has_text x.hostname || has_text x.agent_id)
      × ((any (disables u) (recommendations x)
            ≡ is_there u && (not (u === codes "root") && names x.user u))
          × (any is_escalate (recommendations x) ≡ true))
recommendations-advice x u =
    let b = has_text x.hostname || has_text x.agent_id in
    let r =
      Recommendation.isolate (codes "Isolate " ++ if_text x.hostname (λ h. h) (codes "host")) in
    (
      any-recommendations is_isolate x
          ∙ ground (arith, any-if is_isolate b r, any-disable_part is_isolate x.user (λ l v. refl)),
      (
        any-recommendations (disables u) x
            ∙ ground (arith, any-if (disables u) b r, disables-disable_part x.user u),
        any-recommendations is_escalate x
            ∙ ground
                (arith, any-if is_escalate b r, any-disable_part is_escalate x.user (λ l v. refl)),
      ),
    )
