-- ===== src/Bff/Paths.antt =====
-- Which paths the proxy lets through, and what URL it makes of them.
use sentinel_edr.Common.{
  ℕ, ◌≡◌, ◌≢◌, true, List, [], ◌∷◌, ◌++◌, All, All-of, arith, all, Bool-cases, inl, inr,
}
use sentinel_edr.Common.Text.{Text, codes, Lacks, split, split-join}
use sentinel_edr.Bff.{joined, segment_char, segment_re, valid_path}

-- A code unit that no URL reads as syntax.
abbrev pub IsPlainChar : ℕ → Type 0
IsPlainChar c = (c ≢ b'.') × (c ≢ b'/') × (c ≢ b'%') × (c ≢ b'?') × (c ≢ b'#') × (c ≢ 92)

abbrev pub IsPlainSegment : Text → Type 0
IsPlainSegment s = (s ≢ []) × All IsPlainChar s

segment_char-IsPlainChar : (c : ℕ) → segment_char c ≡ true → IsPlainChar c
segment_char-IsPlainChar c h = ground arith

all-segment_char : (s : Text) → all segment_char s ≡ true → All IsPlainChar s
all-segment_char [] h = tt
all-segment_char (c ∷ s) h = elim (Bool-cases (segment_char c)) [
  | inl e ↦ (segment_char-IsPlainChar c e, all-segment_char s (rw e at h))
  | inr e ↦ absurd (ground arith)
]

pub segment_re-IsPlainSegment : (s : Text) → segment_re s ≡ true → IsPlainSegment s
unfolding segment_re
segment_re-IsPlainSegment [] h = cc
segment_re-IsPlainSegment (c ∷ s) h = (λ e. cc, all-segment_char (c ∷ s) h)

all-segment_re : (ps : List Text) → all segment_re ps ≡ true → All IsPlainSegment ps
all-segment_re [] h = tt
all-segment_re (p ∷ ps) h = elim (Bool-cases (segment_re p)) [
  | inl e ↦ (segment_re-IsPlainSegment p e, all-segment_re ps (rw e at h))
  | inr e ↦ absurd (ground arith)
]

pub valid_path-IsPlain : (path : List Text) → valid_path path ≡ true → All IsPlainSegment path
unfolding valid_path
valid_path-IsPlain path h = all-segment_re path (ground arith)

pub Lacks-of_plain : (s : Text) → All IsPlainChar s → Lacks b'/' s
Lacks-of_plain [] h = tt
Lacks-of_plain (c ∷ s) h = (h.0.1, Lacks-of_plain s h.1)

pub valid_path-Lacks : (path : List Text) → valid_path path ≡ true → All (Lacks b'/') path
valid_path-Lacks path h = All-of path (λ s p. Lacks-of_plain s p.1) (valid_path-IsPlain path h)

-- The URL of a valid path, split at its slashes, is "", "api", "v1" and the segments as they were
-- checked, one or more; each is non-empty and without dots, slashes, percent signs, question
-- marks, number signs and backslashes. So no path leaves /api/v1.
pub valid_path-split :
    (path : List Text)
    → valid_path path ≡ true
    → (split b'/' (codes "/api/v1/" ++ joined path) ≡ [] ∷ codes "api" ∷ codes "v1" ∷ path)
      × (path ≢ [])
      × All IsPlainSegment path
unfolding joined
valid_path-split [] h = absurd (unfold valid_path in ground arith)
valid_path-split (p ∷ ps) h = (
  rw (split-join b'/' p ps (valid_path-Lacks (p ∷ ps) h)),
  λ e. cc,
  valid_path-IsPlain (p ∷ ps) h,
)
