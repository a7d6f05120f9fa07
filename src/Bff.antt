-- ===== src/Bff.antt =====
-- dashboard/app/api/proxy/[...path]/route.ts: the backend-for-frontend proxy, which authorizes
-- every call of the Go API against the operator's session.
pub mod Paths
pub mod Roles
pub mod Routes
pub mod Exports
pub mod Access
pub mod RoleMap
mod Tests
use sentinel_edr.Common.{
  ℕ, Bool, true, false, not, ◌&&◌, ◌||◌, Option, none, some, List, [], ◌∷◌, ◌++◌, length, all, leb,
  ltb, nat_beq, if◌then◌else◌, get_or, ◌===◌, StrictEq, list_same, nat_same, is_some, String,
}
use sentinel_edr.Common.Text.{
  Text, codes, to_lower, join, starts_with, is_lower, is_upper, is_digit,
}
use sentinel_edr.GoClient.{
  World, Backend, HttpReply, Result, ok, throw, M, ◌>>=◌, pure, Init, no_init, Body, text, go_fetch,
  bind,
}

-- `RANK`; a role that is not listed has no rank. The inherited names of an object have a value
-- that is no number, and compare as false, as no rank does.
unfoldable pub rank : Text → Option ℕ
rank role =
    if role === codes "viewer"
    then some 1
    else if role === codes "analyst"
    then some 2
    else if role === codes "admin"
    then some 3
    else none

-- The path of a list of segments, and the regular expressions that it is tested by.
unfoldable pub joined : List Text → Text
joined path = join (codes "/") path

-- `/^siem\//`
abbrev siem_re : Text → Bool
siem_re p = starts_with (codes "siem/") p

abbrev pub not_slash : ℕ → Bool
not_slash c = not (nat_beq c b'/')

-- What follows the longest prefix `[^/]*`.
unfoldable pub drop_segment : Text → Text
drop_segment [] = []
drop_segment (c ∷ s) = let rest = drop_segment s in if not_slash c then rest else c ∷ s

-- `[^/]+` at the front, and then the test of what follows
abbrev pub one_segment : (Text → Bool) → Text → Bool
one_segment after [] = false
one_segment after (c ∷ s) = not_slash c && after (drop_segment s)

-- The text after a prefix that it begins with.
abbrev pub strip : Text → Text → Option Text
strip [] s = some s
strip (p ∷ ps) [] = none
strip (p ∷ ps) (c ∷ s) = let rest = strip ps s in if nat_beq p c then rest else none

abbrev pub test_after : Option Text → (Text → Bool) → Bool
test_after none p = false
test_after (some s) p = p s

-- `\/(policy|upgrade)$` and `\/toggle$`
abbrev pub agents_action : Text → Bool
agents_action rest = rest === codes "/policy" || rest === codes "/upgrade"

abbrev pub rules_action : Text → Bool
rules_action rest = rest === codes "/toggle"

-- `/^agents\/[^/]+\/(policy|upgrade)$/`
unfoldable pub agents_re : Text → Bool
unfolding drop_segment
agents_re p = test_after (strip (codes "agents/") p) (one_segment agents_action)

-- `/^rules\/[^/]+\/toggle$/`
unfoldable pub rules_re : Text → Bool
unfolding drop_segment
rules_re p = test_after (strip (codes "rules/") p) (one_segment rules_action)

unfoldable pub write_min_role : List Text → Text
unfolding joined agents_re rules_re
write_min_role path =
    let p = joined path in
    if agents_re p then codes "admin" else if rules_re p then codes "admin" else codes "analyst"

unfoldable pub get_min_role : List Text → Text
unfolding joined
get_min_role path = if siem_re (joined path) then codes "analyst" else codes "viewer"

-- `SEGMENT`, `/^[A-Za-z0-9_-]+$/`
abbrev pub segment_char : ℕ → Bool
segment_char c = is_upper c || is_lower c || is_digit c || nat_beq c b'_' || nat_beq c b'-'

unfoldable pub segment_re : Text → Bool
segment_re [] = false
segment_re (c ∷ s) = all segment_char (c ∷ s)

unfoldable pub valid_path : List Text → Bool
unfolding segment_re
valid_path path = ltb 0 (length path) && all segment_re path

-- The session of the authentication service; a user may have no role.
pub record Session : Type 0 where
  pub role : Option Text

-- `x || "viewer"`: an empty role is falsy, too.
abbrev pub role_or_viewer : Option Text → Text
role_or_viewer none = codes "viewer"
role_or_viewer (some []) = codes "viewer"
role_or_viewer (some (c ∷ s)) = c ∷ s

unfoldable pub operator_role : Option Session → Option Text
operator_role none = none
operator_role (some session) = some (to_lower (role_or_viewer session.role))

-- `RANK[r] || d`; no rank is 0.
unfoldable pub allowed : Option Text → Text → Bool
unfolding rank
allowed none min = false
allowed (some role) min = leb (get_or (rank min) 99) (get_or (rank role) 0)

-- What the handlers read of a `NextRequest` and its parameters.
pub record Request : Type 0 where
  pub path : List Text
  pub search : Text
  pub body : Text
  pub session : Option Session

pub record Response : Type 0 where
  pub status : ℕ
  pub content_type : Text
  pub body : Text

abbrev pub plain : ℕ → Text → Response
plain status body = record {
  status = status;
  content_type = codes "text/plain;charset=UTF-8";
  body = body;
}

-- `r.headers.get("content-type") || "application/json"`
abbrev pub type_or_json : Option Text → Text
type_or_json none = codes "application/json"
type_or_json (some []) = codes "application/json"
type_or_json (some (c ∷ s)) = c ∷ s

unfoldable pub passthrough : HttpReply → Response
passthrough r = record {
  status = r.status;
  content_type = type_or_json r.content_type;
  body = r.body;
}

abbrev pub forbidden : Text → Response
forbidden min = plain 403 (codes "forbidden: " ++ (min ++ codes " role required"))

-- `/api/v1/${path.join("/")}${req.nextUrl.search}`
unfoldable pub target : Request → Text
unfolding joined
target req = codes "/api/v1/" ++ (joined req.path ++ req.search)

-- The checks that each handler begins with: the response that ends the call, or none.
unfoldable pub refuse : Request → Text → Option Response
unfolding valid_path operator_role allowed
refuse req min =
    if not (valid_path req.path)
    then some (plain 400 (codes "bad request"))
    else elim (operator_role req.session) [
      | none ↦ some (plain 401 (codes "unauthorized"))
      | some role ↦ if not (allowed (some role) min) then some (forbidden min) else none
    ]

abbrev pub or_forward : Option Response → M HttpReply → M Response
or_forward (some response) fetch = pure response
or_forward none fetch = do r ← fetch; pure (passthrough r)

unfoldable pub get : World → Request → M Response
unfolding refuse get_min_role passthrough target
get w req = or_forward (refuse req (get_min_role req.path)) (go_fetch w (target req) no_init)

unfoldable pub post : World → Request → M Response
unfolding refuse write_min_role passthrough target
post w req = or_forward (refuse req (write_min_role req.path)) (
    go_fetch w (target req)
      (record { method = some "POST"; headers = []; body = some (text req.body) }))

unfoldable pub delete : World → Request → M Response
unfolding refuse passthrough target
delete w req =
    or_forward (refuse req (codes "analyst"))
      (go_fetch w (target req) (record { method = some "DELETE"; headers = []; body = none }))
