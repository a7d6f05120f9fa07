-- ===== src/Policy.antt =====
-- The policy panel of an endpoint (dashboard/components/policy-panel.tsx): what its two buttons
-- check, send and say. `post` resolves to the response's status or rejects; its result is an
-- input.
pub mod Sent
pub mod Typed
mod Tests
use sentinel_edr.Common.{
  ℕ, suc, zero, String, ◌≡◌, Bool, true, false, not, ◌&&◌, ◌||◌, Option, none, some, List, [], ◌∷◌,
  ◌++◌, StrictEq, ◌===◌, nat_same, list_same, if◌then◌else◌, leb, ltb, ◌+◌, ◌*◌, ◌-◌, filter, all,
  length, map, get_or,
}
use sentinel_edr.Common.Text.{Text, codes, trim, trim_start, split, starts_with, is_digit, decimal}

pub record Form : Type 0 where
  pub enforce : Bool
  pub dlp : Bool
  pub paused : Bool
  pub interval_sec : Text
  pub watch : Text
  pub busy : Bool
  pub ver : Text
  pub url : Text
  pub sha : Text
  pub up_busy : Bool

abbrev pub initial : Form
initial = record {
  enforce = true;
  dlp = true;
  paused = false;
  interval_sec = codes "5";
  watch = [];
  busy = false;
  ver = [];
  url = [];
  sha = [];
  up_busy = false;
}

pub data Parsed : Type 0 where
  not_a_number : Parsed
  natural negative : ℕ → Parsed

-- The number that the leading digits spell, after `n`
abbrev pub digits_after : ℕ → Text → ℕ
digits_after n [] = n
digits_after n (c ∷ s) =
    let rest = digits_after (n * 10 + (c - b'0')) s in if is_digit c then rest else n

abbrev pub parse_digits : (ℕ → Parsed) → Text → Parsed
parse_digits sign [] = Parsed.not_a_number
parse_digits sign (c ∷ s) =
    if is_digit c then sign (digits_after 0 (c ∷ s)) else Parsed.not_a_number

abbrev pub parse_signed : Text → Parsed
parse_signed [] = Parsed.not_a_number
parse_signed (c ∷ s) =
    if c === b'-'
    then parse_digits Parsed.negative s
    else if c === b'+'
    then parse_digits Parsed.natural s
    else parse_digits Parsed.natural (c ∷ s)

-- `parseInt(s, 10)`; a value past the largest finite number is out of the range that the caller
-- allows in either reading.
unfoldable pub parse_int : Text → Parsed
parse_int s = parse_signed (trim_start s)

pub record PolicyBody : Type 0 where
  pub enforce : Bool
  pub dlp_enabled : Bool
  pub paused : Bool
  pub interval : ℕ
  pub reason : Text
  pub watch : Option (List Text)

pub data Pushed : Type 0 where
  refused : Text → Pushed
  sent : PolicyBody → Pushed

unfoldable pub watch_dirs : Text → List Text
watch_dirs watch = filter (starts_with (codes "/")) (map trim (split 10 watch))

-- `if (dirs.length) body.watch = dirs`
abbrev pub watch_of : List Text → Option (List Text)
watch_of [] = none
watch_of (d ∷ dirs) = some (d ∷ dirs)

abbrev pub policy_of : Form → ℕ → PolicyBody
policy_of f n = record {
  enforce = f.enforce;
  dlp_enabled = f.dlp;
  paused = f.paused;
  interval = n;
  reason = codes "policy push from console";
  watch = watch_of (watch_dirs f.watch);
}

abbrev interval_error : Text
interval_error = codes "Interval must be 1–3600 seconds"

abbrev pub push_parsed : Form → Parsed → Pushed
push_parsed f Parsed.not_a_number = Pushed.refused interval_error
push_parsed f (Parsed.negative n) = Pushed.refused interval_error
push_parsed f (Parsed.natural n) =
    if ltb n 1 || ltb 3600 n then Pushed.refused interval_error else Pushed.sent (policy_of f n)

unfoldable pub push_policy : Form → Pushed
push_policy f = push_parsed f (parse_int f.interval_sec)

pub data Toast : Type 0 where
  failure success : Text → Toast

-- The post's outcome: it rejects, or resolves with a status.
abbrev pub policy_toast : Text → Option ℕ → Toast
policy_toast hostname none = Toast.failure (codes "Network error — not saved")
policy_toast hostname (some status) =
    if leb 200 status && ltb status 300
    then Toast.success (codes "Policy pushed to " ++ hostname)
    else Toast.failure (codes "Policy push failed (" ++ (decimal status ++ codes ")"))

pub record UpgradeBody : Type 0 where
  pub version : Text
  pub url : Text
  pub sha256 : Text
  pub reason : Text

pub data Updated : Type 0 where
  refused : Text → Updated
  sent : UpgradeBody → Updated

abbrev pub is_hex : ℕ → Bool
is_hex c = is_digit c || (leb b'a' c && leb c b'f') || (leb b'A' c && leb c b'F')

-- `/^[0-9a-fA-F]{64}$/`
unfoldable pub sha_re : Text → Bool
sha_re s = all is_hex s && length s === 64

unfoldable pub push_update : Form → Updated
push_update f =
    if trim f.ver === []
    then Updated.refused (codes "Enter a target version")
    else if not (starts_with (codes "https://") f.url)
    then Updated.refused (codes "URL must be https")
    else if not (sha_re f.sha)
    then Updated.refused (codes "SHA-256 must be 64 hex chars")
    else Updated.sent (record {
      version = trim f.ver;
      url = trim f.url;
      sha256 = trim f.sha;
      reason = codes "upgrade from console";
    })

-- The post's outcome: it rejects, fails with a status, or succeeds with the reply's own status.
pub data UpgradeReply : Type 0 where
  rejected : UpgradeReply
  failed : ℕ → UpgradeReply
  accepted : Option Text → UpgradeReply

abbrev pub update_toast : Text → Text → UpgradeReply → Toast
update_toast hostname ver UpgradeReply.rejected = Toast.failure (codes "Network error — not saved")
update_toast hostname ver (UpgradeReply.failed status) =
    Toast.failure (codes "Upgrade failed (" ++ (decimal status ++ codes ")"))
update_toast hostname ver (UpgradeReply.accepted status) =
    if get_or status [] === codes "up-to-date"
    then Toast.success (hostname ++ (codes " already on " ++ ver))
    else Toast.success (codes "Update dispatched to " ++ hostname)
