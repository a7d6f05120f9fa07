-- ===== src/Format.antt =====
-- How the dashboard writes ages, sizes, severities, events and responses
-- (dashboard/lib/format.ts, dashboard/lib/response-actions.ts, dashboard/components/severity.tsx).
-- A time stamp that is no date is `none`. Tables are association lists: the inherited names of an
-- object are out of the model. Sizes stay below 2^53, where dividing by 1024 is exact.
pub mod Sizes
mod Tests
use sentinel_edr.Common.{
  ℕ, zero, suc, String, ◌≡◌, Bool, true, false, not, ◌&&◌, ◌||◌, Option, none, some, List, [], ◌∷◌,
  ◌++◌, StrictEq, ◌===◌, nat_same, list_same, if◌then◌else◌, leb, ltb, ◌+◌, ◌*◌, ◌-◌, ◌/◌, ◌%◌, ◌^◌,
  map, get_or, contains,
}
use sentinel_edr.Common.Text.{Text, codes, trim, decimal, upper, is_lower, is_upper, is_digit}
use sentinel_edr.Model.{Event, Process, FileInfo, NetInfo, UsbInfo, AuthInfo, DlpInfo}

abbrev pub age_text : ℕ → Text
age_text s =
    if ltb s 60
    then decimal s ++ codes "s ago"
    else if ltb s 3600
    then decimal (s / 60) ++ codes "m ago"
    else if ltb s 86400
    then decimal (s / 3600) ++ codes "h ago"
    else decimal (s / 86400) ++ codes "d ago"

-- The age in whole seconds is 0 for a time stamp that is ahead of the clock.
abbrev pub ago : ℕ → Option ℕ → Text
ago now none = codes "NaNd ago"
ago now (some ts) = age_text ((now - ts) / 1000)

-- The loop's index: the number of times that the value is divided by 1024, at most `steps` times.
unfoldable pub unit_index : ℕ → ℕ → ℕ → ℕ
unit_index zero i n = i
unit_index (suc steps) i n =
    let further = unit_index steps (suc i) n in if leb (1024 ^ suc i) n then further else i

abbrev pub unit : ℕ → Text
unit zero = codes "B"
unit (suc zero) = codes "KB"
unit (suc (suc zero)) = codes "MB"
unit (suc (suc (suc zero))) = codes "GB"
unit _ = codes "TB"

-- `(n / d).toFixed(0)` and `(n / d).toFixed(1)`: the nearest, and the larger of two.
abbrev pub fixed_0 : ℕ → ℕ → Text
fixed_0 n d = decimal ((2 * n + d) / (2 * d))

abbrev pub tenths : ℕ → Text
tenths t = decimal (t / 10) ++ (codes "." ++ decimal (t % 10))

abbrev pub fixed_1 : ℕ → ℕ → Text
fixed_1 n d = tenths ((20 * n + d) / (2 * d))

abbrev pub in_unit : ℕ → ℕ → Text
in_unit n i =
    (if ltb n (10 * 1024 ^ i) && ltb 0 i then fixed_1 n (1024 ^ i) else fixed_0 n (1024 ^ i))
    ++ (codes " " ++ unit i)

unfoldable pub bytes : Option ℕ → Text
bytes none = codes "0 B"
bytes (some n) = if n === 0 then codes "0 B" else in_unit n (unit_index 4 0 n)

abbrev pub sev_color : Text → Text
sev_color s =
    if s === codes "critical"
    then codes "var(--sev-critical)"
    else if s === codes "high"
    then codes "var(--sev-high)"
    else if s === codes "medium"
    then codes "var(--sev-medium)"
    else if s === codes "low"
    then codes "var(--sev-low)"
    else codes "var(--sev-info)"

abbrev pub status_color : Text → Text
status_color s =
    if s === codes "online"
    then codes "var(--signal)"
    else if s === codes "isolated"
    then codes "var(--sev-critical)"
    else codes "var(--sev-info)"

-- `s || ""` on an optional text
abbrev pub text_of : Option String → Text
text_of none = []
text_of (some s) = codes s

-- `s || other`
abbrev pub text_or : Text → Text → Text
text_or [] other = other
text_or (c ∷ s) other = c ∷ s

-- A missing text in a template
abbrev pub shown : Option String → Text
shown none = codes "undefined"
shown (some s) = codes s

abbrev pub or_else : Option Text → Text → Text
or_else none other = other
or_else (some t) other = t

-- The first field that tells something, or nothing where none does
abbrev pub when_text : Text → Text → Option Text
when_text [] t = none
when_text (c ∷ s) t = some t

abbrev pub of_process : Option Process → Option Text
of_process none = none
of_process (some p) = when_text (text_of p.cmdline) (text_of p.cmdline)

abbrev pub of_file : Option FileInfo → Option Text
of_file none = none
of_file (some f) = when_text (text_of f.path) (text_of f.op ++ (codes " " ++ text_of f.path))

abbrev pub sent_text : Option ℕ → Text
sent_text none = []
sent_text (some n) = if n === 0 then [] else codes " ↑" ++ bytes (some n)

abbrev pub of_network : Option NetInfo → Option Text
of_network none = none
of_network (some n) = when_text (text_of n.domain) (text_of n.domain ++ sent_text n.bytes_out)

abbrev pub of_usb : Option UsbInfo → Option Text
of_usb none = none
of_usb (some u) = some (
    trim
      (text_of u.vendor ++ (codes " " ++ (text_of u.product ++ (codes " " ++ text_of u.serial)))))

abbrev pub of_auth : Option AuthInfo → Option Text
of_auth none = none
of_auth (some a) = some (
    text_of a.method
    ++ (codes " from "
        ++ (text_or (text_of a.source_ip) (codes "local") ++ (codes " → " ++ text_of a.result))))

abbrev pub of_dlp : Option DlpInfo → Option Text
of_dlp none = none
of_dlp (some d) = some (shown d.classifier ++ (codes " via " ++ shown d.channel))

unfoldable pub detail : Event → Text
detail e = or_else (of_process e.process) (
    or_else (of_file e.file) (
      or_else (of_network e.network) (
        or_else (of_usb e.usb)
          (or_else (of_auth e.auth) (or_else (of_dlp e.dlp) (text_of e.message))))))

abbrev pub labels : List (Text × Text)
labels =
    (codes "kill_process", codes "Kill process")
    ∷ (codes "kill_tree", codes "Kill process tree")
    ∷ (codes "isolate", codes "Isolate endpoint")
    ∷ (codes "unisolate", codes "Lift isolation")
    ∷ (codes "disable_account", codes "Disable account")
    ∷ (codes "block_upload", codes "Block uploads")
    ∷ (codes "unblock_upload", codes "Lift upload block")
    ∷ (codes "block_usb", codes "Block USB")
    ∷ (codes "unblock_usb", codes "Lift USB block")
    ∷ (codes "freeze", codes "Freeze processes")
    ∷ (codes "unfreeze", codes "Unfreeze processes")
    ∷ (codes "quarantine_file", codes "Quarantine file")
    ∷ (codes "live_triage", codes "Live triage")
    ∷ (codes "update_policy", codes "Update policy")
    ∷ (codes "self_update", codes "Agent self-update")
    ∷ []

abbrev pub spaced : Text → Text
spaced = map (λ c. if c === b'_' then b' ' else c)

-- `replace(/^\w/, ...)`: only a letter has an upper case.
abbrev pub capital : Text → Text
capital [] = []
capital (c ∷ s) = upper c ∷ s

abbrev pub label_in : Text → List (Text × Text) → Text
label_in t [] = capital (spaced t)
label_in t (l ∷ ls) = let rest = label_in t ls in if l.0 === t then l.1 else rest

unfoldable pub response_label : Text → Text
response_label t = label_in t labels

abbrev pub destructive : List Text
destructive =
    codes "kill_process"
    ∷ codes "kill_tree"
    ∷ codes "isolate"
    ∷ codes "disable_account"
    ∷ codes "freeze"
    ∷ codes "quarantine_file"
    ∷ []
