-- ===== src/Incident/Tests.antt =====
-- The summary of a concrete incident.
use sentinel_edr.Common.{◌≡◌, refl, none, some, [], ◌∷◌, list_same, nat_same}
use sentinel_edr.Common.Text.{codes, decimal}
use sentinel_edr.Incident.{IncidentLike, narrative, lineage_nodes}

abbrev root_shell : IncidentLike
root_shell = record {
  severity = codes "high";
  hostname = some (codes "web-1");
  agent_id = none;
  user = some (codes "root");
  rule_name = some (codes "Root shell");
  summary = some (codes "A shell was started");
  engine = none;
  tactic = some (codes "Execution");
  mitre = none;
  detection_count = some 2;
  event_count = none;
}

told :
    narrative root_shell
    ≡ codes
        "High-severity “Root shell” on web-1 attributed to root. A shell was started. Kill-chain stage: Execution. Correlates 2 detections."
unfolding narrative decimal
told = refl

nodes :
    lineage_nodes (some (codes "systemd→sshd → bash"))
    ≡ codes "systemd" ∷ codes "sshd" ∷ codes "bash" ∷ []
unfolding lineage_nodes
nodes = refl
