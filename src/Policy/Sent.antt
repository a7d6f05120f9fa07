-- ===== src/Policy/Sent.antt =====
-- What the panel sends.
use sentinel_edr.Common.{
  ℕ, ◌≡◌, refl, Bool, true, false, ◌&&◌, ◌||◌, Option, none, some, List, [], ◌∷◌, ◌===◌, nat_same,
  list_same, if◌then◌else◌, leb, ltb, ◌≤◌, all, filter, map, arith,
}
use sentinel_edr.Common.Text.{Text, codes, trim, starts_with, split}
use sentinel_edr.Policy.{
  Form, Parsed, Pushed, Updated, push_parsed, push_policy, sha_re, watch_dirs, watch_of, policy_of,
  parse_int,
}

all-filter_self : {A : Type 0} (p : A → Bool) (xs : List A) → all p (filter p xs) ≡ true
all-filter_self p [] = refl
all-filter_self p (x ∷ xs) = ground (arith, all-filter_self p xs)

-- No watch list, or one of absolute paths that is not empty
abbrev pub AreAbsolute : Option (List Text) → Type 0
AreAbsolute none = Unit
AreAbsolute (some []) = ⊥
AreAbsolute (some (d ∷ dirs)) = all (starts_with (codes "/")) (d ∷ dirs) ≡ true

watch_of-AreAbsolute :
    (dirs : List Text) → all (starts_with (codes "/")) dirs ≡ true → AreAbsolute (watch_of dirs)
watch_of-AreAbsolute [] h = tt
watch_of-AreAbsolute (d ∷ dirs) h = h

-- A policy that may go out: its interval is from 1 to 3600 seconds, and what it watches are
-- absolute paths.
abbrev pub IsAllowed : Pushed → Type 0
IsAllowed (Pushed.refused t) = Unit
IsAllowed (Pushed.sent p) = (1 ≤ p.interval) × ((p.interval ≤ 3600) × AreAbsolute p.watch)

push_natural :
    (f : Form) (n : ℕ) (b : Bool) (text : Text)
    → (ltb n 1 || ltb 3600 n) ≡ b
    → IsAllowed (if b then Pushed.refused text else Pushed.sent (policy_of f n))
unfolding watch_dirs
push_natural f n true text h = tt
push_natural f n false text h = (
  ground arith,
  (
    ground arith,
    watch_of-AreAbsolute (watch_dirs f.watch)
        (all-filter_self (starts_with (codes "/")) (map trim (split 10 f.watch))),
  ),
)

push_parsed-IsAllowed : (f : Form) (p : Parsed) → IsAllowed (push_parsed f p)
push_parsed-IsAllowed f Parsed.not_a_number = tt
push_parsed-IsAllowed f (Parsed.negative n) = tt
push_parsed-IsAllowed f (Parsed.natural n) = push_natural f n _ _ refl

abbrev pub is_sent : Pushed → Bool
is_sent (Pushed.refused t) = false
is_sent (Pushed.sent p) = true

abbrev pub in_range : Parsed → Bool
in_range Parsed.not_a_number = false
in_range (Parsed.negative n) = false
in_range (Parsed.natural n) = leb 1 n && leb n 3600

push_parsed-is_sent : (f : Form) (p : Parsed) → is_sent (push_parsed f p) ≡ in_range p
push_parsed-is_sent f Parsed.not_a_number = refl
push_parsed-is_sent f (Parsed.negative n) = refl
push_parsed-is_sent f (Parsed.natural n) = ground arith

-- A policy goes out exactly when the interval field reads as a number from 1 to 3600, and every
-- policy that goes out has such an interval and watches absolute paths only, at least one where
-- it sets the watch list at all.
pub push_policy-IsAllowed :
    (f : Form)
    → IsAllowed (push_policy f) × (is_sent (push_policy f) ≡ in_range (parse_int f.interval_sec))
unfolding push_policy
push_policy-IsAllowed f = (
  push_parsed-IsAllowed f (parse_int f.interval_sec),
  push_parsed-is_sent f (parse_int f.interval_sec),
)

abbrev pub is_dispatched : Updated → Bool
is_dispatched (Updated.refused t) = false
is_dispatched (Updated.sent b) = true

-- An update that may go out: it names a version, and its checksum is the one in the field, 64
-- hexadecimal digits.
abbrev pub IsPinned : Form → Updated → Type 0
IsPinned f (Updated.refused t) = Unit
IsPinned f (Updated.sent b) =
    ((b.version === []) ≡ false) × ((b.sha256 ≡ f.sha) × (sha_re b.sha256 ≡ true))
