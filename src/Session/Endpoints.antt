-- ===== src/Session/Endpoints.antt =====
-- The calls of the API client (`api` in web/src/api.ts).
use sentinel_edr.Common.{Option, none, some, List, ◌++◌}
use sentinel_edr.Common.Text.{Text, codes}
use sentinel_edr.Session.{Method}
use sentinel_edr.Calls.{
  Json, text, array, object, field, no_fields, texts, optional, optional_text, ResponseArgs,
}

-- The arguments of `req`, with the body that is stringified.
pub record Request : Type 0 where
  pub path : Text
  pub method : Method
  pub body : Option Json

abbrev pub fetching : Text → Request
fetching path = record { path = path; method = Method.get; body = none }

abbrev pub posting : Text → Option Json → Request
posting path body = record { path = path; method = Method.post; body = body }

-- The argument of `createCase`
pub record NewCase : Type 0 where
  pub title : Text
  pub severity : Option Text
  pub agent_id : Option Text
  pub hostname : Option Text
  pub detection_ids : Option (List Text)

abbrev optional_texts : Option (List Text) → Option Json
optional_texts none = none
optional_texts (some ts) = some (array (texts ts))

unfoldable pub login : Text → Text → Request
login username password = posting (codes "/api/v1/login") (
    some (
      object (
        field (codes "username") (text username)
          (field (codes "password") (text password) no_fields))))

unfoldable pub overview : Request
overview = fetching (codes "/api/v1/stats/overview")

unfoldable pub agents : Request
agents = fetching (codes "/api/v1/agents")

unfoldable pub agent : Text → Request
agent id = fetching (codes "/api/v1/agents/" ++ id)

-- The query is the text of a `URLSearchParams`.
unfoldable pub events : Text → Request
events query = fetching (codes "/api/v1/events?" ++ query)

unfoldable pub detections : Text → Request
detections query = fetching (codes "/api/v1/detections?" ++ query)

unfoldable pub responses : Request
responses = fetching (codes "/api/v1/responses")

unfoldable pub rules : Request
rules = fetching (codes "/api/v1/rules")

unfoldable pub dlp_policies : Request
dlp_policies = fetching (codes "/api/v1/dlp/policies")

unfoldable pub dlp_classifiers : Request
dlp_classifiers = fetching (codes "/api/v1/dlp/classifiers")

unfoldable pub set_detection_status : Text → Text → Request
set_detection_status id status =
    posting (codes "/api/v1/detections/" ++ (id ++ codes "/status"))
      (some (object (field (codes "status") (text status) no_fields)))

unfoldable pub triage_detection : Text → Request
triage_detection id = posting (codes "/api/v1/detections/" ++ (id ++ codes "/triage")) none

unfoldable pub respond : ResponseArgs → Request
respond a = posting (codes "/api/v1/respond") (
    some (
      object (
        field (codes "type") (text a.type_) (
          field (codes "agent_id") (text a.agent_id) (
            optional (codes "target") a.target (
              optional (codes "reason") (optional_text a.reason)
                (optional (codes "detection_id") (optional_text a.detection_id) no_fields)))))))

unfoldable pub cases : Text → Request
cases query = fetching (codes "/api/v1/cases?" ++ query)

unfoldable pub case_detail : Text → Request
case_detail id = fetching (codes "/api/v1/cases/" ++ id)

unfoldable pub create_case : NewCase → Request
create_case c = posting (codes "/api/v1/cases") (
    some (
      object (
        field (codes "title") (text c.title) (
          optional (codes "severity") (optional_text c.severity) (
            optional (codes "agent_id") (optional_text c.agent_id) (
              optional (codes "hostname") (optional_text c.hostname)
                (optional (codes "detection_ids") (optional_texts c.detection_ids) no_fields)))))))

-- The argument of `updateCase`
pub record CaseChange : Type 0 where
  pub status : Option Text
  pub assigned_to : Option Text
  pub title : Option Text

unfoldable pub update_case : Text → CaseChange → Request
update_case id c = posting (codes "/api/v1/cases/" ++ id) (
    some (
      object (
        optional (codes "status") (optional_text c.status) (
          optional (codes "assigned_to") (optional_text c.assigned_to)
            (optional (codes "title") (optional_text c.title) no_fields)))))

unfoldable pub add_case_note : Text → Text → Request
add_case_note id body =
    posting (codes "/api/v1/cases/" ++ (id ++ codes "/notes"))
      (some (object (field (codes "body") (text body) no_fields)))
