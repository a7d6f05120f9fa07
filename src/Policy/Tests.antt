-- ===== src/Policy/Tests.antt =====
-- The panel with concrete fields.
use sentinel_edr.Common.{◌≡◌, refl, [], ◌∷◌, list_same, nat_same}
use sentinel_edr.Common.Text.{codes, decimal}
use sentinel_edr.Policy.Sent.{IsAllowed, is_sent, in_range, push_policy-IsAllowed}
use sentinel_edr.Policy.Typed.{parse_int-decimal}
use sentinel_edr.Policy.{
  Form, Parsed, Pushed, initial, parse_int, push_policy, policy_of, watch_dirs,
}

abbrev filled : Form
filled = record initial { interval_sec = codes " 30s"; watch = codes "/etc\n  /root \nrelative" }

policy_run : push_policy filled ≡ Pushed.sent (policy_of filled 30)
unfolding push_policy parse_int
policy_run = refl

dirs_run : watch_dirs filled.watch ≡ codes "/etc" ∷ codes "/root" ∷ []
unfolding watch_dirs
dirs_run = refl

push_policy-IsAllowed_example :
    IsAllowed (push_policy filled)
    × (is_sent (push_policy filled) ≡ in_range (parse_int filled.interval_sec))
push_policy-IsAllowed_example = push_policy-IsAllowed filled

reads_back : parse_int (decimal 3600) ≡ Parsed.natural 3600
reads_back = parse_int-decimal 3600
