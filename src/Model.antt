-- ===== src/Model.antt =====
-- The records that the two consoles share (dashboard/lib/types.ts and web/src/types.ts). An
-- optional field is an `Option`; a text that the code only compares or shows is a `String`. Field
-- names that are reserved words here end in `_`. A missing list is an empty one. The target of a
-- response, an object of any form that the modelled code does not read, is left out.
use sentinel_edr.Common.{ℕ, String, Bool, Option, List}

pub data Severity : Type 0 where
  info low medium high critical : Severity

pub record Process : Type 0 where
  pub pid : Option ℕ
  pub ppid : Option ℕ
  pub name : Option String
  pub exe : Option String
  pub cmdline : Option String
  pub user : Option String
  pub parent : Option String
  pub lineage : Option String
  pub container : Option String
  pub hash : Option String

pub record FileInfo : Type 0 where
  pub path : Option String
  pub op : Option String
  pub size : Option ℕ
  pub hash : Option String

pub record NetInfo : Type 0 where
  pub direction : Option String
  pub proto : Option String
  pub remote : Option String
  pub domain : Option String
  pub url : Option String
  pub category : Option String
  pub bytes_out : Option ℕ
  pub bytes_in : Option ℕ
  pub blocked : Option Bool

pub record UsbInfo : Type 0 where
  pub action : Option String
  pub vendor : Option String
  pub product : Option String
  pub serial : Option String
  pub mount : Option String
  pub size_gb : Option ℕ

pub record AuthInfo : Type 0 where
  pub method : Option String
  pub source_ip : Option String
  pub tty : Option String
  pub result : Option String

pub record DlpInfo : Type 0 where
  pub classifier : Option String
  pub channel : Option String
  pub matches : Option ℕ
  pub sample : Option String
  pub verdict : Option String

pub record Event : Type 0 where
  pub id : String
  pub agent_id : String
  pub hostname : String
  pub ts : String
  pub category : String
  pub action : String
  pub severity : Severity
  pub user : Option String
  pub message : Option String
  pub process : Option Process
  pub file : Option FileInfo
  pub network : Option NetInfo
  pub usb : Option UsbInfo
  pub auth : Option AuthInfo
  pub dlp : Option DlpInfo
  pub labels : List String

pub data AgentStatus : Type 0 where
  online offline isolated : AgentStatus

pub record Agent : Type 0 where
  pub id : String
  pub hostname : String
  pub os : String
  pub kernel : String
  pub arch : String
  pub ip : String
  pub mac : String
  pub version : String
  pub status : AgentStatus
  pub labels : List String
  pub enrolled_at : String
  pub last_seen : String
  pub event_count : ℕ

pub data DetectionStatus : Type 0 where
  open_ acknowledged closed : DetectionStatus

pub record Detection : Type 0 where
  pub id : String
  pub ts : String
  pub rule_id : String
  pub rule_name : String
  pub severity : Severity
  pub category : String
  pub agent_id : String
  pub hostname : String
  pub user : Option String
  pub summary : String
  pub mitre : List String
  pub tactic : Option String
  pub status : DetectionStatus
  pub event_ids : List String
  pub engine : String
  pub assigned_to : Option String

pub record ResponseAction : Type 0 where
  pub id : String
  pub ts : String
  pub type_ : String
  pub agent_id : String
  pub hostname : String
  pub reason : String
  pub issued_by : String
  pub detection_id : Option String
  pub status : String
  pub result : Option String
  pub automated : Bool

pub data CaseStatus : Type 0 where
  open_ investigating contained closed : CaseStatus

pub record CaseNote : Type 0 where
  pub ts : String
  pub author : String
  pub body : String

pub record Case : Type 0 where
  pub id : String
  pub title : String
  pub severity : Severity
  pub status : CaseStatus
  pub assigned_to : Option String
  pub agent_id : Option String
  pub hostname : Option String
  pub detection_ids : List String
  pub mitre : List String
  pub notes : List CaseNote
  pub created_at : String
  pub updated_at : String
  pub created_by : Option String

pub record HourCount : Type 0 where
  pub hour : String
  pub count : ℕ

pub record TacticCount : Type 0 where
  pub tactic : String
  pub count : ℕ

-- A map from texts to counts is an association list.
pub record Overview : Type 0 where
  pub counts : List (String × ℕ)
  pub severity : List (String × ℕ)
  pub events_by_category : List (String × ℕ)
  pub timeline : List HourCount
  pub top_mitre : List TacticCount
