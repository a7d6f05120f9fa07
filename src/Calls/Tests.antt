-- ===== src/Calls/Tests.antt =====
-- Replies and routes at concrete calls.
use mathlib.Core.List.{Memᴰ}
use sentinel_edr.Common.{
  ℕ, zero, suc, ◌≡◌, refl, true, false, Option, none, some, List, [], ◌∷◌, ◌++◌, map,
}
use sentinel_edr.Common.Text.{Text, codes, split}
use sentinel_edr.Bff.{segment_re}
use sentinel_edr.Bff.RoleMap.{Route, console_routes, role_text, min_role}
use sentinel_edr.Calls.{
  Json, text, object, field, no_fields, Call, Fetched, failed, replied, ActionResult, Client, done,
  thrown, sending, next_reply, post_call, post_json, result_of, fetch_all, response_body,
  status_path,
}
use sentinel_edr.Calls.Results.{Tells, post_json-Tells}
use sentinel_edr.Calls.Routes.{Write, Serves, path_to, path_to-served}

-- The second call gets a refusal, and every later one no reply.
abbrev replies : ℕ → Fetched
replies zero = replied (record { status = 200; text = none; json = some (text (codes "ok")) })
replies (suc zero) = replied (record { status = 403; text = some (codes "forbidden"); json = none })
replies (suc (suc n)) = failed

abbrev start : Client
start = record { replies = replies; sent = []; effects = [] }

abbrev body : Json
body = object (field (codes "status") (text (codes "closed")) no_fields)

abbrev close : Text → Call
close id = post_call (status_path id) body

refused_text :
    result_of (replies 1)
    ≡ record { ok = false; status = 403; error = some (codes "forbidden"); json = none }
unfolding result_of
refused_text = refl

bare_status :
    result_of (replied (record { status = 502; text = none; json = none }))
    ≡ record { ok = false; status = 502; error = some (codes "HTTP 502"); json = none }
unfolding result_of sentinel_edr.Common.Text.decimal
bare_status = refl

default_reason :
    response_body (record {
      type_ = codes "isolate";
      agent_id = codes "a1";
      target = none;
      reason = none;
      detection_id = none;
    })
    ≡ object (
        field (codes "type") (text (codes "isolate")) (
          field (codes "agent_id") (text (codes "a1")) (
            field
              (codes "target")
              (object no_fields)
              (field (codes "reason") (text (codes "manual isolate from console")) no_fields))))
unfolding response_body
default_reason = refl

abbrev three : List Call
three = close (codes "a") ∷ close (codes "b") ∷ close (codes "c") ∷ []

all_sent : fetch_all three start ≡ (thrown, sending three start)
unfolding fetch_all
all_sent = refl

post_json-Tells_example :
    (res : ActionResult) × (post_json (status_path (codes "d1")) body start
      ≡ (done res, sending (close (codes "d1") ∷ []) start))
    × Tells res (next_reply start)
post_json-Tells_example = post_json-Tells (status_path (codes "d1")) body start

plain_id : segment_re (codes "d-1") ≡ true
unfolding segment_re
plain_id = refl

path_to-served_example :
    (r : Route) × Memᴰ r console_routes
    × Serves Write.toggle_rule (codes "d-1") r
    × (min_role r.method (split b'/' (path_to Write.toggle_rule (codes "d-1"))) ≡ role_text r.role)
path_to-served_example = path_to-served Write.toggle_rule (codes "d-1") plain_id
