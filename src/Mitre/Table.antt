-- ===== src/Mitre/Table.antt =====
-- The tactics and the curated techniques of dashboard/lib/mitre.ts.
use sentinel_edr.Common.Text.{Text, codes}
use sentinel_edr.Common.{
  true, zero, suc, ℕ, String, ◌≡◌, refl, List, [], ◌∷◌, nat_beq, StrictEq, nat_same, ap, sym, ◌∙◌,
  ◌↔◌,
}

pub data Tactic : Type 0 where
  reconnaissance resource_development initial_access execution persistence privilege_escalation
        defense_evasion credential_access discovery lateral_movement collection command_and_control
        exfiltration impact :
      Tactic

abbrev pub tactics : List Tactic
tactics =
    Tactic.reconnaissance ∷ Tactic.resource_development ∷ Tactic.initial_access ∷ Tactic.execution
    ∷ Tactic.persistence ∷ Tactic.privilege_escalation ∷ Tactic.defense_evasion
    ∷ Tactic.credential_access ∷ Tactic.discovery ∷ Tactic.lateral_movement ∷ Tactic.collection
    ∷ Tactic.command_and_control ∷ Tactic.exfiltration ∷ Tactic.impact ∷ []

abbrev pub tactic_name : Tactic → Text
tactic_name Tactic.reconnaissance = codes "Reconnaissance"
tactic_name Tactic.resource_development = codes "Resource Development"
tactic_name Tactic.initial_access = codes "Initial Access"
tactic_name Tactic.execution = codes "Execution"
tactic_name Tactic.persistence = codes "Persistence"
tactic_name Tactic.privilege_escalation = codes "Privilege Escalation"
tactic_name Tactic.defense_evasion = codes "Defense Evasion"
tactic_name Tactic.credential_access = codes "Credential Access"
tactic_name Tactic.discovery = codes "Discovery"
tactic_name Tactic.lateral_movement = codes "Lateral Movement"
tactic_name Tactic.collection = codes "Collection"
tactic_name Tactic.command_and_control = codes "Command and Control"
tactic_name Tactic.exfiltration = codes "Exfiltration"
tactic_name Tactic.impact = codes "Impact"

abbrev pub tactic_short : Tactic → String
tactic_short Tactic.reconnaissance = "Recon"
tactic_short Tactic.resource_development = "ResDev"
tactic_short Tactic.initial_access = "Access"
tactic_short Tactic.execution = "Exec"
tactic_short Tactic.persistence = "Persist"
tactic_short Tactic.privilege_escalation = "PrivEsc"
tactic_short Tactic.defense_evasion = "Evasion"
tactic_short Tactic.credential_access = "Creds"
tactic_short Tactic.discovery = "Discovery"
tactic_short Tactic.lateral_movement = "Lateral"
tactic_short Tactic.collection = "Collect"
tactic_short Tactic.command_and_control = "C2"
tactic_short Tactic.exfiltration = "Exfil"
tactic_short Tactic.impact = "Impact"

-- The place of a tactic in the kill chain.
abbrev pub place : Tactic → ℕ
place Tactic.reconnaissance = 0
place Tactic.resource_development = 1
place Tactic.initial_access = 2
place Tactic.execution = 3
place Tactic.persistence = 4
place Tactic.privilege_escalation = 5
place Tactic.defense_evasion = 6
place Tactic.credential_access = 7
place Tactic.discovery = 8
place Tactic.lateral_movement = 9
place Tactic.collection = 10
place Tactic.command_and_control = 11
place Tactic.exfiltration = 12
place Tactic.impact = 13

abbrev nth : ℕ → List Tactic → Tactic
nth n [] = Tactic.impact
nth zero (t ∷ ts) = t
nth (suc n) (t ∷ ts) = nth n ts

abbrev tactic_at : ℕ → Tactic
tactic_at n = nth n tactics

tactic_at-place : (t : Tactic) → tactic_at (place t) ≡ t
tactic_at-place Tactic.reconnaissance = refl
tactic_at-place Tactic.resource_development = refl
tactic_at-place Tactic.initial_access = refl
tactic_at-place Tactic.execution = refl
tactic_at-place Tactic.persistence = refl
tactic_at-place Tactic.privilege_escalation = refl
tactic_at-place Tactic.defense_evasion = refl
tactic_at-place Tactic.credential_access = refl
tactic_at-place Tactic.discovery = refl
tactic_at-place Tactic.lateral_movement = refl
tactic_at-place Tactic.collection = refl
tactic_at-place Tactic.command_and_control = refl
tactic_at-place Tactic.exfiltration = refl
tactic_at-place Tactic.impact = refl

pub tactic_same_iff : (t u : Tactic) → (nat_beq (place t) (place u) ≡ true) ↔ (t ≡ u)
tactic_same_iff t u = (
  λ h.
      sym (tactic_at-place t)
      ∙ ap tactic_at ((nat_same.same_iff (place t) (place u)).0 h)
      ∙ tactic_at-place u,
  λ h. (nat_same.same_iff (place t) (place u)).1 (ap place h),
)

instance abbrev pub tactic_same : StrictEq Tactic
tactic_same = record { same = λ t u. nat_beq (place t) (place u); same_iff = tactic_same_iff }

pub record Technique : Type 0 where
  pub name : Text
  pub tactic : Tactic

abbrev entry : String → String → Tactic → Text × Technique
entry id name tactic = (codes id, record { name = codes name; tactic = tactic })

unfoldable pub techniques : List (Text × Technique)
techniques =
    entry "T1595" "Active Scanning" Tactic.reconnaissance
    ∷ entry "T1190" "Exploit Public-Facing Application" Tactic.initial_access
    ∷ entry "T1133" "External Remote Services" Tactic.initial_access
    ∷ entry "T1078" "Valid Accounts" Tactic.initial_access
    ∷ entry "T1200" "Hardware Additions" Tactic.initial_access
    ∷ entry "T1059" "Command & Scripting Interpreter" Tactic.execution
    ∷ entry "T1059.004" "Unix Shell" Tactic.execution
    ∷ entry "T1203" "Exploitation for Client Execution" Tactic.execution
    ∷ entry "T1106" "Native API" Tactic.execution
    ∷ entry "T1053" "Scheduled Task/Job" Tactic.execution
    ∷ entry "T1053.003" "Cron" Tactic.persistence
    ∷ entry "T1204" "User Execution" Tactic.execution
    ∷ entry "T1547" "Boot/Logon Autostart Execution" Tactic.persistence
    ∷ entry "T1543" "Create or Modify System Process" Tactic.persistence
    ∷ entry "T1543.002" "Systemd Service" Tactic.persistence
    ∷ entry "T1546" "Event Triggered Execution" Tactic.persistence
    ∷ entry "T1546.004" "Unix Shell Config Modification" Tactic.persistence
    ∷ entry "T1037" "Boot/Logon Initialization Scripts" Tactic.persistence
    ∷ entry "T1136" "Create Account" Tactic.persistence
    ∷ entry "T1098" "Account Manipulation" Tactic.persistence
    ∷ entry "T1098.004" "SSH Authorized Keys" Tactic.persistence
    ∷ entry "T1505" "Server Software Component" Tactic.persistence
    ∷ entry "T1505.003" "Web Shell" Tactic.persistence
    ∷ entry "T1574" "Hijack Execution Flow" Tactic.persistence
    ∷ entry "T1574.006" "Dynamic Linker Hijacking" Tactic.persistence
    ∷ entry "T1548" "Abuse Elevation Control Mechanism" Tactic.privilege_escalation
    ∷ entry "T1548.003" "Sudo and Sudo Caching" Tactic.privilege_escalation
    ∷ entry "T1068" "Exploitation for Privilege Escalation" Tactic.privilege_escalation
    ∷ entry "T1055" "Process Injection" Tactic.defense_evasion
    ∷ entry "T1070" "Indicator Removal" Tactic.defense_evasion
    ∷ entry "T1070.002" "Clear Linux/Mac System Logs" Tactic.defense_evasion
    ∷ entry "T1070.004" "File Deletion" Tactic.defense_evasion
    ∷ entry "T1027" "Obfuscated Files or Information" Tactic.defense_evasion
    ∷ entry "T1140" "Deobfuscate/Decode Files" Tactic.defense_evasion
    ∷ entry "T1014" "Rootkit" Tactic.defense_evasion
    ∷ entry "T1562" "Impair Defenses" Tactic.defense_evasion
    ∷ entry "T1562.001" "Disable or Modify Tools" Tactic.defense_evasion
    ∷ entry "T1222" "File and Directory Permissions Modification" Tactic.defense_evasion
    ∷ entry "T1564" "Hide Artifacts" Tactic.defense_evasion
    ∷ entry "T1610" "Deploy Container" Tactic.defense_evasion
    ∷ entry "T1611" "Escape to Host" Tactic.privilege_escalation
    ∷ entry "T1110" "Brute Force" Tactic.credential_access
    ∷ entry "T1003" "OS Credential Dumping" Tactic.credential_access
    ∷ entry "T1003.008" "/etc/passwd and /etc/shadow" Tactic.credential_access
    ∷ entry "T1552" "Unsecured Credentials" Tactic.credential_access
    ∷ entry "T1552.001" "Credentials In Files" Tactic.credential_access
    ∷ entry "T1552.004" "Private Keys" Tactic.credential_access
    ∷ entry "T1555" "Credentials from Password Stores" Tactic.credential_access
    ∷ entry "T1056" "Input Capture" Tactic.credential_access
    ∷ entry "T1082" "System Information Discovery" Tactic.discovery
    ∷ entry "T1083" "File and Directory Discovery" Tactic.discovery
    ∷ entry "T1057" "Process Discovery" Tactic.discovery
    ∷ entry "T1018" "Remote System Discovery" Tactic.discovery
    ∷ entry "T1046" "Network Service Discovery" Tactic.discovery
    ∷ entry "T1033" "System Owner/User Discovery" Tactic.discovery
    ∷ entry "T1087" "Account Discovery" Tactic.discovery
    ∷ entry "T1518" "Software Discovery" Tactic.discovery
    ∷ entry "T1021" "Remote Services" Tactic.lateral_movement
    ∷ entry "T1021.004" "SSH" Tactic.lateral_movement
    ∷ entry "T1563" "Remote Service Session Hijacking" Tactic.lateral_movement
    ∷ entry "T1560" "Archive Collected Data" Tactic.collection
    ∷ entry "T1005" "Data from Local System" Tactic.collection
    ∷ entry "T1039" "Data from Network Shared Drive" Tactic.collection
    ∷ entry "T1071" "Application Layer Protocol" Tactic.command_and_control
    ∷ entry "T1071.001" "Web Protocols" Tactic.command_and_control
    ∷ entry "T1090" "Proxy" Tactic.command_and_control
    ∷ entry "T1095" "Non-Application Layer Protocol" Tactic.command_and_control
    ∷ entry "T1571" "Non-Standard Port" Tactic.command_and_control
    ∷ entry "T1572" "Protocol Tunneling" Tactic.command_and_control
    ∷ entry "T1573" "Encrypted Channel" Tactic.command_and_control
    ∷ entry "T1105" "Ingress Tool Transfer" Tactic.command_and_control
    ∷ entry "T1219" "Remote Access Software" Tactic.command_and_control
    ∷ entry "T1041" "Exfiltration Over C2 Channel" Tactic.exfiltration
    ∷ entry "T1048" "Exfiltration Over Alternative Protocol" Tactic.exfiltration
    ∷ entry "T1567" "Exfiltration Over Web Service" Tactic.exfiltration
    ∷ entry "T1567.002" "Exfiltration to Cloud Storage" Tactic.exfiltration
    ∷ entry "T1052" "Exfiltration Over Physical Medium" Tactic.exfiltration
    ∷ entry "T1052.001" "Exfiltration over USB" Tactic.exfiltration
    ∷ entry "T1030" "Data Transfer Size Limits" Tactic.exfiltration
    ∷ entry "T1486" "Data Encrypted for Impact" Tactic.impact
    ∷ entry "T1490" "Inhibit System Recovery" Tactic.impact
    ∷ entry "T1489" "Service Stop" Tactic.impact
    ∷ entry "T1496" "Resource Hijacking" Tactic.impact
    ∷ entry "T1529" "System Shutdown/Reboot" Tactic.impact
    ∷ []
