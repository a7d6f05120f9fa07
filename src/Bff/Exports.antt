-- ===== src/Bff/Exports.antt =====
-- The regular expression of the SIEM exports, against lists of segments.
use sentinel_edr.Common.{
  ℕ, nat_beq, ◌≡◌, refl, sym, ap, ◌∙◌, subst, true, false, List, [], ◌∷◌, ◌++◌, arith, Bool-cases,
  inl, inr, ◌⊎◌,
}
use sentinel_edr.Common.Text.{Text, codes, starts_with, split, split-join}
use sentinel_edr.Bff.{joined, valid_path, get_min_role}
use sentinel_edr.Bff.Paths.{valid_path-Lacks}

-- The SIEM exports: paths below siem.
pub data SiemRoute : List Text → Type 0 where
  below : (s : Text) (ps : List Text) → SiemRoute (codes "siem" ∷ s ∷ ps)

starts_with_sound : (pre s : Text) → starts_with pre s ≡ true → (r : Text) × (s ≡ pre ++ r)
starts_with_sound [] s h = (s, refl)
starts_with_sound (p ∷ ps) [] h = cc
starts_with_sound (p ∷ ps) (c ∷ s) h =
    let (r, e) = starts_with_sound ps s (ground arith) in (r, ground arith)

split-ne-nil : (sep : ℕ) (s : Text) → (p : Text) × (ps : List Text) × (split sep s ≡ p ∷ ps)
split-ne-nil sep [] = ([], [], refl)
split-ne-nil sep (c ∷ s) =
    let (p, ps, e) = split-ne-nil sep s in
    elim (Bool-cases (nat_beq c sep)) [
      | inl y ↦ ([], p ∷ ps, rw (y, e))
      | inr n ↦ (c ∷ p, ps, rw (n, e))
    ]

split-joined :
    (p : Text) (ps : List Text) → valid_path (p ∷ ps) ≡ true → split b'/' (joined (p ∷ ps)) ≡ p ∷ ps
unfolding joined
split-joined p ps v = split-join b'/' p ps (valid_path-Lacks (p ∷ ps) v)

siem_re-SiemRoute :
    (path : List Text)
    → valid_path path ≡ true
    → starts_with (codes "siem/") (joined path) ≡ true
    → SiemRoute path
siem_re-SiemRoute [] v h = absurd (unfold valid_path in ground arith)
siem_re-SiemRoute (p ∷ ps) v h =
    let (r, e) = starts_with_sound (codes "siem/") (joined (p ∷ ps)) h in
    let (q, qs, cut) = split-ne-nil b'/' r in
    let same : p ∷ ps ≡ codes "siem" ∷ q ∷ qs =
      sym (split-joined p ps v) ∙ (ap (split b'/') e ∙ ap (◌∷◌ (codes "siem")) cut) in
    subst SiemRoute (sym same) (below q qs)

-- On a valid path the export needs an analyst exactly below siem; all else a viewer may read.
pub get_min_role_cases :
    (path : List Text)
    → valid_path path ≡ true
    → ((get_min_role path ≡ codes "analyst") × SiemRoute path)
      ⊎ ((get_min_role path ≡ codes "viewer") × (¬ SiemRoute path))
unfolding get_min_role joined
get_min_role_cases path v = elim (Bool-cases (starts_with (codes "siem/") (joined path))) [
  | inl y ↦ inl (ground arith, siem_re-SiemRoute path v y)
  | inr n ↦ inr (ground arith, refuted path n)
]
  where
    refuted : (q : List Text) → starts_with (codes "siem/") (joined q) ≡ false → SiemRoute q → ⊥
    refuted q h (below s ps) = cc
