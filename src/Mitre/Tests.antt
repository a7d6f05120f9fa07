-- ===== src/Mitre/Tests.antt =====
-- The curated lookups at concrete ids.
use sentinel_edr.Common.{◌≡◌, refl, List, [], ◌∷◌}
use sentinel_edr.Common.Text.{Text, codes}
use sentinel_edr.Mitre.Table.{Tactic, techniques, tactic_same}
use sentinel_edr.Mitre.{
  key_of, technique, technique_name, tactics_from_techniques, attack_url, lookup,
}

trimmed : technique_name (codes " t1059.004 ") ≡ codes "Unix Shell"
unfolding technique techniques lookup key_of
trimmed = refl

sub_url : attack_url (codes "t1059.004") ≡ codes "https://attack.mitre.org/techniques/T1059/004/"
unfolding key_of
sub_url = refl

abbrev ids : List Text
ids = codes "T1486" ∷ codes "T1053.003" ∷ []

in_order_run : tactics_from_techniques ids ≡ Tactic.persistence ∷ Tactic.impact ∷ []
unfolding tactics_from_techniques technique techniques lookup key_of
in_order_run = refl
