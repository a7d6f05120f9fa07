-- ===== src/Bff/Routes.antt =====
-- The regular expressions of the admin routes, against lists of segments.
use sentinel_edr.Common.{
  ◌≡◌, ◌≢◌, refl, sym, ap, ◌∙◌, Bool, true, false, List, [], ◌∷◌, ◌++◌, All, arith, Bool-cases, inl,
  inr, ◌⊎◌, ◌↔◌, some, Option-cases, subst, ◌===◌, list_same, nat_same,
}
use sentinel_edr.Common.Text.{Text, codes, Lacks, split, split-join}
use sentinel_edr.Bff.{
  joined, not_slash, drop_segment, one_segment, strip, test_after, agents_action, rules_action,
  agents_re, rules_re, valid_path, write_min_role,
}
use sentinel_edr.Bff.Paths.{valid_path-Lacks, valid_path-IsPlain, IsPlainSegment, Lacks-of_plain}

strip_sound : (pre s r : Text) → strip pre s ≡ some r → s ≡ pre ++ r
strip_sound [] s r h = ground arith
strip_sound (p ∷ ps) [] r h = cc
strip_sound (p ∷ ps) (c ∷ s) r h = ground (arith, strip_sound ps s r)

take_segment : Text → Text
take_segment [] = []
take_segment (c ∷ s) =
    let rest = take_segment s in elim (not_slash c) [ true ↦ c ∷ rest | false ↦ [] ]

take_segment-Lacks : (s : Text) → Lacks b'/' (take_segment s)
unfolding take_segment
take_segment-Lacks [] = tt
take_segment-Lacks (c ∷ s) = ground (arith, take_segment-Lacks s)

take-drop_segment : (s : Text) → s ≡ take_segment s ++ drop_segment s
unfolding take_segment drop_segment
take-drop_segment [] = refl
take-drop_segment (c ∷ s) = ground (arith, take-drop_segment s)

drop_segment-append : (x t : Text) → Lacks b'/' x → drop_segment (x ++ b'/' ∷ t) ≡ b'/' ∷ t
unfolding drop_segment
drop_segment-append [] t h = refl
drop_segment-append (c ∷ x) t h = ground (arith, drop_segment-append x t h.1)

-- One segment, and what follows it.
one_segment_sound :
    (after : Text → Bool) (s : Text)
    → one_segment after s ≡ true
    → (x : Text) × Lacks b'/' x × (s ≡ x ++ drop_segment s) × (after (drop_segment s) ≡ true)
unfolding drop_segment
one_segment_sound after [] h = cc
one_segment_sound after (c ∷ s) h =
    (take_segment (c ∷ s), take_segment-Lacks (c ∷ s), take-drop_segment (c ∷ s), ground arith)

one_segment_complete :
    (after : Text → Bool) (x t : Text)
    → Lacks b'/' x
    → x ≢ []
    → after (b'/' ∷ t) ≡ true
    → one_segment after (x ++ b'/' ∷ t) ≡ true
one_segment_complete after [] t h n e = absurd (n refl)
one_segment_complete after (c ∷ x) t h n e = rw (drop_segment-append x t h.1) (ground arith)

-- Two joined paths without slashes in their segments are equal only if the paths are.
joined_injective :
    (p q : Text) (ps qs : List Text)
    → All (Lacks b'/') (p ∷ ps)
    → All (Lacks b'/') (q ∷ qs)
    → joined (p ∷ ps) ≡ joined (q ∷ qs)
    → p ∷ ps ≡ q ∷ qs
unfolding joined
joined_injective p q ps qs hp hq e =
    sym (split-join b'/' p ps hp) ∙ (ap (split b'/') e ∙ split-join b'/' q qs hq)

-- The routes that change what agents do or which rules run, as segments.
pub data AdminRoute : List Text → Type 0 where
  policy : (id : Text) → AdminRoute (codes "agents" ∷ id ∷ codes "policy" ∷ [])
  upgrade : (id : Text) → AdminRoute (codes "agents" ∷ id ∷ codes "upgrade" ∷ [])
  toggle : (id : Text) → AdminRoute (codes "rules" ∷ id ∷ codes "toggle" ∷ [])

segments_of :
    (path : List Text) (q : Text) (qs : List Text)
    → valid_path path ≡ true
    → All (Lacks b'/') (q ∷ qs)
    → joined path ≡ joined (q ∷ qs)
    → path ≡ q ∷ qs
segments_of [] q qs v h e = absurd (unfold valid_path in ground arith)
segments_of (p ∷ ps) q qs v h e = joined_injective p q ps qs (valid_path-Lacks (p ∷ ps) v) h e

test_after_sound :
    (pre p : Text) (f : Text → Bool)
    → test_after (strip pre p) (one_segment f) ≡ true
    → (x t : Text) × Lacks b'/' x × (p ≡ pre ++ (x ++ t)) × (f t ≡ true)
test_after_sound pre p f h = elim (Option-cases (strip pre p)) [
  | inl e ↦ absurd (ground arith)
  | inr (s, e) ↦
      let (x, l, cut, after) = one_segment_sound f s (rw e at h) in
      (x, drop_segment s, l, strip_sound pre p s e ∙ ap (◌++◌ pre) cut, after)
]

agents_re_sound :
    (p : Text)
    → agents_re p ≡ true
    → (x : Text) × Lacks b'/' x
      × ((p ≡ joined (codes "agents" ∷ x ∷ codes "policy" ∷ []))
          ⊎ (p ≡ joined (codes "agents" ∷ x ∷ codes "upgrade" ∷ [])))
unfolding agents_re joined
agents_re_sound p h =
    let (x, t, l, e, after) = test_after_sound (codes "agents/") p agents_action h in
    (
      x,
      l,
      elim (Bool-cases (t === codes "/policy")) [
        | inl y ↦ inl (
            e
            ∙ ap (λ r. codes "agents/" ++ (x ++ r)) ((list_same.same_iff t (codes "/policy")).0 y))
        | inr n ↦ inr (
            e
            ∙ ap (λ r. codes "agents/" ++ (x ++ r))
                ((list_same.same_iff t (codes "/upgrade")).0 (rw n at after)))
      ],
    )

rules_re_sound :
    (p : Text)
    → rules_re p ≡ true
    → (x : Text) × Lacks b'/' x × (p ≡ joined (codes "rules" ∷ x ∷ codes "toggle" ∷ []))
unfolding rules_re joined
rules_re_sound p h =
    let (x, t, l, e, after) = test_after_sound (codes "rules/") p rules_action h in
    (
      x,
      l,
      e ∙ ap (λ r. codes "rules/" ++ (x ++ r)) ((list_same.same_iff t (codes "/toggle")).0 after),
    )

abbrev pub AdminRegex : List Text → Type 0
AdminRegex path = (agents_re (joined path) ≡ true) ⊎ (rules_re (joined path) ≡ true)

AdminRegex-AdminRoute :
    (path : List Text) → valid_path path ≡ true → AdminRegex path → AdminRoute path
AdminRegex-AdminRoute path v (inl h) =
    let (x, l, e) = agents_re_sound (joined path) h in
    elim e [
      | inl a ↦ subst AdminRoute (sym (segments_of path _ _ v (ground arith) a)) (policy x)
      | inr b ↦ subst AdminRoute (sym (segments_of path _ _ v (ground arith) b)) (upgrade x)
    ]
AdminRegex-AdminRoute path v (inr h) =
    let (x, l, e) = rules_re_sound (joined path) h in
    subst AdminRoute (sym (segments_of path _ _ v (ground arith) e)) (toggle x)

module _ (id : Text) (p : IsPlainSegment id) where
  pub agents_re_complete :
      (action : Text)
      → agents_action (b'/' ∷ action) ≡ true
      → agents_re (joined (codes "agents" ∷ id ∷ action ∷ [])) ≡ true
  unfolding agents_re joined
  agents_re_complete action h =
      one_segment_complete agents_action id action (Lacks-of_plain id p.1) p.0 h

  pub rules_re_complete : rules_re (joined (codes "rules" ∷ id ∷ codes "toggle" ∷ [])) ≡ true
  unfolding rules_re joined
  rules_re_complete =
      one_segment_complete rules_action id (codes "toggle") (Lacks-of_plain id p.1) p.0 refl

AdminRoute-AdminRegex :
    {path : List Text} → All IsPlainSegment path → AdminRoute path → AdminRegex path
AdminRoute-AdminRegex v (policy id) = inl (agents_re_complete id v.1.0 (codes "policy") refl)
AdminRoute-AdminRegex v (upgrade id) = inl (agents_re_complete id v.1.0 (codes "upgrade") refl)
AdminRoute-AdminRegex v (toggle id) = inr (rules_re_complete id v.1.0)

-- On a valid path the regular expressions of the admin writes pick exactly the policy and upgrade
-- routes of one agent and the toggle route of one rule.
pub write_min_role-admin_iff :
    (path : List Text)
    → valid_path path ≡ true
    → (write_min_role path ≡ codes "admin") ↔ AdminRoute path
unfolding write_min_role
write_min_role-admin_iff path v = (
  (λ h. AdminRegex-AdminRoute path v (picked h)),
  λ r. elim (AdminRoute-AdminRegex (valid_path-IsPlain path v) r) [
    | inl h ↦ ground arith
    | inr h ↦ ground arith
  ],
)
  where
    picked : write_min_role path ≡ codes "admin" → AdminRegex path
    picked h = elim (Bool-cases (agents_re (joined path))) [
      | inl a ↦ inl a
      | inr n ↦ elim (Bool-cases (rules_re (joined path))) [
        | inl b ↦ inr b
        | inr m ↦ absurd (ground arith)
      ]
    ]
