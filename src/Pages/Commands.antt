-- ===== src/Pages/Commands.antt =====
-- What the copy buttons of the enrolment commands put on the clipboard.
use sentinel_edr.Common.{
  ℕ, ◌≡◌, ◌≢◌, true, false, Bool, All, List, [], ◌∷◌, ◌++◌, arith, nat_beq, Bool-cases, inl, inr,
  ◌&&◌, if◌then◌else◌,
}
use sentinel_edr.Common.Text.{Text, codes, Lacks, is_space, starts_with}
use sentinel_edr.Pages.Settings.{
  one_line, quick, docker, newline, backslash, continued, quick_lines, docker_lines,
}

-- A text whose newlines all follow a backslash; `after` tells whether one stands before it.
abbrev pub AllContinued : Bool → Text → Type 0
AllContinued after [] = Unit
AllContinued true (c ∷ s) = AllContinued (nat_beq c backslash) s
AllContinued false (c ∷ s) = (c ≢ newline) × AllContinued (nat_beq c backslash) s

weaken : (after : Bool) (s : Text) → AllContinued false s → AllContinued after s
weaken after [] h = tt
weaken true (c ∷ s) h = h.1
weaken false (c ∷ s) h = h

strengthen :
    (s : Text) → AllContinued true s → starts_with (newline ∷ []) s ≡ false → AllContinued false s
strengthen [] h e = tt
strengthen (c ∷ s) h e = (ground arith, h)

abbrev IsLine : Text → Type 0
IsLine = Lacks newline

module _ (c : ℕ) (s : Text) (h : AllContinued (nat_beq c backslash) s)
    (skipping : AllContinued true s → IsLine (one_line true s))
    (keeping : AllContinued false s → IsLine (one_line false s)) where
  after_char :
      c ≢ newline
      → IsLine (
          if nat_beq c backslash && starts_with (newline ∷ []) s
          then 32 ∷ one_line true s
          else c ∷ one_line false s)
  after_char n = elim (Bool-cases (nat_beq c backslash)) [
    | inr e ↦ rw e (n, keeping (rw e at h))
    | inl e ↦
        let after : AllContinued true s = rw e at h in
        elim (Bool-cases (starts_with (newline ∷ []) s)) [
          | inl f ↦ rw e (rw f (omega arith, skipping after))
          | inr f ↦ rw e (rw f (n, keeping (strengthen s after f)))
        ]
  ]

Lacks-one_line : (skip : Bool) (s : Text) → AllContinued skip s → Lacks newline (one_line skip s)
unfolding one_line
Lacks-one_line skip [] h = tt
Lacks-one_line true (c ∷ s) h = elim (Bool-cases (is_space c)) [
  | inl e ↦
      let other : nat_beq c backslash ≡ false = ground arith in
      rw e (Lacks-one_line true s (weaken true s (rw other at h)))
  | inr e ↦ rw e (after_char c s h (Lacks-one_line true s) (Lacks-one_line false s) (ground arith))
]
Lacks-one_line false (c ∷ s) h =
    after_char c s h.1 (Lacks-one_line true s) (Lacks-one_line false s) h.0

-- A text that neither starts nor ends a line, in front of a continued text.
AllContinued-append :
    (s t : Text)
    → Lacks newline s
    → Lacks backslash s
    → AllContinued false t
    → AllContinued false (s ++ t)
AllContinued-append [] t n b h = h
AllContinued-append (c ∷ s) t n b h =
    let other : nat_beq c backslash ≡ false = ground arith in
    (n.0, rw other (AllContinued-append s t n.1 b.1 h))

Lacks-append : (c : ℕ) (s t : Text) → Lacks c s → Lacks c t → Lacks c (s ++ t)
Lacks-append c [] t h k = k
Lacks-append c (x ∷ s) t h k = (h.0, Lacks-append c s t h.1 k)

-- Neither of the code units that a continuation is made of.
abbrev IsPlain : Text → Type 0
IsPlain s = Lacks newline s × Lacks backslash s

IsPlain-append : (s t : Text) → IsPlain s → IsPlain t → IsPlain (s ++ t)
IsPlain-append s t h k = (Lacks-append newline s t h.0 k.0, Lacks-append backslash s t h.1 k.1)

IsPlain-AllContinued : (s : Text) → IsPlain s → AllContinued false s
IsPlain-AllContinued [] h = tt
IsPlain-AllContinued (c ∷ s) h =
    let other : nat_beq c backslash ≡ false = ground arith in
    (h.0.0, rw other (IsPlain-AllContinued s (h.0.1, h.1.1)))

continued-AllContinued : (ls : List Text) → All IsPlain ls → AllContinued false (continued ls)
continued-AllContinued [] h = tt
continued-AllContinued (l ∷ []) h = IsPlain-AllContinued l h.0
continued-AllContinued (l ∷ m ∷ ls) h =
    AllContinued-append l (backslash ∷ newline ∷ continued (m ∷ ls)) h.0.0 h.0.1
      (omega arith, continued-AllContinued (m ∷ ls) h.1)

module _ (s : Text) (plain : IsPlain s) where
  with_server :
      (before after : Text) → IsPlain before → IsPlain after → IsPlain (before ++ (s ++ after))
  with_server before after h k =
      IsPlain-append before (s ++ after) h (IsPlain-append s after plain k)

  quick_lines-IsPlain : All IsPlain (quick_lines s)
  quick_lines-IsPlain = (
    with_server (codes "curl -fsSL ") (codes "/install-agent.sh | sudo ") (omega arith)
        (omega arith),
    (
      with_server (codes "  SENTINEL_SERVER=") (codes " ") (omega arith) (omega arith),
      (omega arith, (omega arith, tt)),
    ),
  )

  docker_lines-IsPlain : All IsPlain (docker_lines s)
  docker_lines-IsPlain = (
    omega arith,
    (
      omega arith,
      (
        with_server (codes "  -e SENTINEL_SERVER=") (codes " ") (omega arith) (omega arith),
        (omega arith, (omega arith, tt)),
      ),
    ),
  )

-- Both enrolment commands are copied as one line, whatever the console's address is, if it holds
-- no newline and no backslash itself.
pub commands-IsLine :
    (s : Text)
    → Lacks newline s
    → Lacks backslash s
    → Lacks newline (one_line false (quick s)) × Lacks newline (one_line false (docker s))
unfolding quick docker
commands-IsLine s n b = (
  Lacks-one_line false (quick s)
      (continued-AllContinued (quick_lines s) (quick_lines-IsPlain s (n, b))),
  Lacks-one_line false (docker s)
      (continued-AllContinued (docker_lines s) (docker_lines-IsPlain s (n, b))),
)
