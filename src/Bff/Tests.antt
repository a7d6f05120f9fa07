-- ===== src/Bff/Tests.antt =====
-- Requests to the proxy, and its theorems at concrete inputs.
use mathlib.Core.List.{Memᴰ}
use sentinel_edr.Common.{◌≡◌, ◌≢◌, ◌↔◌, refl, true, none, some, List, [], ◌∷◌, ◌++◌, All}
use sentinel_edr.Common.Text.{Text, codes, split}
use sentinel_edr.GoClient.{
  World, Backend, ok, go_token, go_fetch, no_init, text, go_call, set_header, spread,
}
use sentinel_edr.Bff.{
  Request, joined, valid_path, write_min_role, segment_re, target, get, post, delete, forbidden,
  plain,
}
use sentinel_edr.Bff.Paths.{IsPlainSegment, valid_path-split}
use sentinel_edr.Bff.Routes.{AdminRoute, write_min_role-admin_iff}
use sentinel_edr.Bff.Roles.{Decides, forward}
use sentinel_edr.Bff.Access.{MayWrite, MayRead, post_access, get_access}
use sentinel_edr.Bff.RoleMap.{
  min_role, path_of, role_text, role_map_agrees, Route, Method, Segment, Role,
}

abbrev world : World
world = record {
  config = record {
    go_api = codes "http://go";
    go_admin_user = codes "svc";
    go_admin_pass = codes "pw";
  };
  login = some (record { status = 200; json = some (some (codes "jwt")) });
  answer = λ call. some (record { status = 200; content_type = none; body = call.url });
  checked_at = 1000;
  stored_at = 1005;
}

abbrev backend : Backend
backend = record { cached = none; sent = [] }

abbrev policy_path : List Text
policy_path = codes "agents" ∷ codes "a-1" ∷ codes "policy" ∷ []

abbrev ask : List Text → Text → Request
ask path role = record {
  path = path;
  search = codes "?q=1";
  body = codes "{}";
  session = some (record { role = some role });
}

abbrev as_analyst : Request
as_analyst = ask policy_path (codes "Analyst")

analyst_forbidden : post world as_analyst backend ≡ (ok (forbidden (codes "admin")), backend)
unfolding post
analyst_forbidden = refl

admin_forwarded :
    (post world (ask policy_path (codes "ADMIN")) backend).0
    ≡ ok (record {
      status = 200;
      content_type = codes "application/json";
      body = codes "http://go/api/v1/agents/a-1/policy?q=1";
    })
unfolding post go_fetch go_token go_call set_header spread
admin_forwarded = refl

dotted_refused :
    get world (ask (codes ".." ∷ codes "metrics" ∷ []) (codes "admin")) backend
    ≡ (ok (plain 400 (codes "bad request")), backend)
unfolding get
dotted_refused = refl

signed_out :
    delete world (record as_analyst { session = none }) backend
    ≡ (ok (plain 401 (codes "unauthorized")), backend)
unfolding delete
signed_out = refl

policy_path-valid : valid_path policy_path ≡ true
unfolding valid_path
policy_path-valid = refl

post_access_example :
    Decides
      (MayWrite policy_path)
      as_analyst
      (post world as_analyst)
      (forward (
        go_fetch world
          (target as_analyst)
          (record { method = some "POST"; headers = []; body = some (text (codes "{}")) })))
      backend
post_access_example = post_access world as_analyst backend

get_access_example :
    Decides
      (MayRead policy_path)
      as_analyst
      (get world as_analyst)
      (forward (go_fetch world (target as_analyst) no_init))
      backend
get_access_example = get_access world as_analyst backend

valid_path-split_example :
    (split b'/' (codes "/api/v1/" ++ joined policy_path)
      ≡ [] ∷ codes "api" ∷ codes "v1" ∷ policy_path)
    × (policy_path ≢ [])
    × All IsPlainSegment policy_path
valid_path-split_example = valid_path-split policy_path policy_path-valid

write_min_role-admin_iff_example :
    (write_min_role policy_path ≡ codes "admin") ↔ AdminRoute policy_path
write_min_role-admin_iff_example = write_min_role-admin_iff policy_path policy_path-valid

abbrev agents_route : Route
agents_route = record {
  method = Method.get;
  pattern = Segment.word (codes "agents") ∷ [];
  role = Role.viewer;
}

role_map_agrees_example :
    min_role Method.get (path_of (codes "a-1") agents_route.pattern) ≡ role_text Role.viewer
unfolding segment_re
role_map_agrees_example = role_map_agrees agents_route (codes "a-1") (Memᴰ.head refl) refl
