-- ===== src/Session/Tests.antt =====
-- A session at concrete inputs.
use mathlib.Core.List.{Memᴰ}
use sentinel_edr.Bff.{segment_re}
use sentinel_edr.Bff.RoleMap.{Route, console_routes}
use sentinel_edr.Session.Routes.{Endpoint, Reaches, request-Reaches}
use sentinel_edr.Common.{
  ◌≡◌, refl, true, not, ◌&&◌, none, some, List, [], ◌∷◌, if◌then◌else◌, ◌===◌, nat_same,
}
use sentinel_edr.Common.Text.{codes}
use sentinel_edr.Session.Tokens.{
  header, bearer, current, req_call-authorization, receive_cases, is_success,
}
use sentinel_edr.Session.{
  Input, Answer, Method, new_client, run, req_call, receive, clear_session, is_ok, ends_with, step,
  set_header, authorize, spread,
}

abbrev denied : Answer
denied = record { status = 401; content_type = none; text = [] }

abbrev signed_in : List Input
signed_in = Input.signed_in (codes "jwt") (codes "admin") (codes "admin") ∷ []

token_run :
    header
      (codes "Authorization")
      (req_call (run new_client signed_in) (codes "/api/v1/agents") Method.get [] none).headers
    ≡ some (codes "Bearer jwt")
unfolding step req_call authorize set_header spread
token_run = refl

req_call-authorization_example :
    header
      (codes "Authorization")
      (req_call (run new_client signed_in) (codes "/api/v1/agents") Method.get [] none).headers
    ≡ bearer (current none signed_in)
req_call-authorization_example =
    req_call-authorization signed_in (codes "/api/v1/agents") Method.get none

answer_401 :
    ((receive (run new_client signed_in) (codes "/api/v1/agents") denied).client ≡ (
      if denied.status === 401
      then clear_session (run new_client signed_in)
      else run new_client signed_in))
    × (((receive (run new_client signed_in) (codes "/api/v1/agents") denied).reloads
          ≡ (denied.status === 401) && not (ends_with (codes "/login") (codes "/api/v1/agents")))
        × (is_success (receive (run new_client signed_in) (codes "/api/v1/agents") denied).outcome
            ≡ is_ok denied.status))
answer_401 = receive_cases (run new_client signed_in) (codes "/api/v1/agents") denied

plain_id : segment_re (codes "d-1") ≡ true
unfolding segment_re
plain_id = refl

request-Reaches_example :
    (r : Route) × Memᴰ r console_routes
    × Reaches (codes "d-1") (Endpoint.set_status (codes "closed")) r
request-Reaches_example =
    request-Reaches (codes "d-1") (Endpoint.set_status (codes "closed")) plain_id
