-- ===== src/Session.antt =====
-- The embedded console's API client and its session (web/src/api.ts), and the sign-in form
-- (web/src/App.tsx). The token lives in a variable, which a reload of the page empties; the user
-- and the role live in the session storage, which a reload keeps.
pub mod Tokens
pub mod Endpoints
pub mod Routes
mod Tests
use sentinel_edr.Common.{
  ℕ, String, ◌≡◌, Bool, true, false, not, ◌&&◌, ◌||◌, Option, none, some, List, [], ◌∷◌, ◌++◌,
  StrictEq, ◌===◌, string_same, nat_same, if◌then◌else◌, get_or, leb, ltb, is_some, reverse,
  list_same,
}
use sentinel_edr.Common.Text.{Text, codes, starts_with, includes}

pub record Client : Type 0 where
  pub token : Option Text
  pub user : Option Text
  pub role : Option Text

-- At the start of the page, with an empty session storage
abbrev pub new_client : Client
new_client = record { token = none; user = none; role = none }

abbrev pub set_session : Text → Text → Text → Client → Client
set_session token user role c = record { token = some token; user = some user; role = some role }

-- It also posts to /api/v1/logout, and drops the answer.
abbrev pub clear_session : Client → Client
clear_session c = record { token = none; user = none; role = none }

abbrev pub reload : Client → Client
reload c = record c { token = none }

abbrev pub Headers : Type 0
Headers = List (Text × Text)

-- `headers[name] = value`
unfoldable pub set_header : Text → Text → Headers → Headers
set_header name value [] = (name, value) ∷ []
set_header name value ((k, v) ∷ hs) =
    let rest = set_header name value hs in if k === name then (k, value) ∷ hs else (k, v) ∷ rest

-- `{ ...base, ...extra }`
unfoldable pub spread : Headers → Headers → Headers
spread base [] = base
spread base ((k, v) ∷ extra) = spread (set_header k v base) extra

-- `if (token) headers["Authorization"] = ...`: an empty token is none.
unfoldable pub authorize : Option Text → Headers → Headers
authorize none hs = hs
authorize (some []) hs = hs
authorize (some (t ∷ token)) hs =
    set_header (codes "Authorization") (codes "Bearer " ++ (t ∷ token)) hs

pub data Method : Type 0 where
  get post : Method

pub record Call : Type 0 where
  pub path : Text
  pub method : Method
  pub headers : Headers
  pub body : Option Text

unfoldable pub req_call : Client → Text → Method → Headers → Option Text → Call
req_call c path method headers body = record {
  path = path;
  method = method;
  headers =
      authorize c.token (spread ((codes "Content-Type", codes "application/json") ∷ []) headers);
  body = body;
}

pub record Answer : Type 0 where
  pub status : ℕ
  pub content_type : Option Text
  pub text : Text

pub data Outcome : Type 0 where
  json plain : Text → Outcome
  unauthorized : Outcome
  failed : ℕ → Text → Outcome

pub record Received : Type 0 where
  pub client : Client
  pub outcome : Outcome
  pub reloads : Bool

abbrev pub ends_with : Text → Text → Bool
ends_with q s = starts_with (reverse q) (reverse s)

-- `res.ok`
abbrev pub is_ok : ℕ → Bool
is_ok status = leb 200 status && ltb status 300

unfoldable pub receive : Client → Text → Answer → Received
receive c path a =
    if a.status === 401
    then record {
      client = clear_session c;
      outcome = Outcome.unauthorized;
      reloads = not (ends_with (codes "/login") path);
    }
    else if not (is_ok a.status)
    then record { client = c; outcome = Outcome.failed a.status a.text; reloads = false }
    else if includes (codes "json") (get_or a.content_type [])
    then record { client = c; outcome = Outcome.json a.text; reloads = false }
    else record { client = c; outcome = Outcome.plain a.text; reloads = false }

-- `useState(!!getUser())`
abbrev pub is_authed : Client → Bool
is_authed c = elim c.user [ none ↦ false | some u ↦ not (u === []) ]

-- What changes the session.
pub data Input : Type 0 where
  signed_in : Text → Text → Text → Input
  signed_out : Input
  answered : Text → Answer → Input
  reloaded : Input

abbrev pub settle : Received → Client
settle r = if r.reloads then reload r.client else r.client

unfoldable pub step : Client → Input → Client
step c (Input.signed_in token user role) = set_session token user role c
step c Input.signed_out = clear_session c
step c (Input.answered path a) = settle (receive c path a)
step c Input.reloaded = reload c

abbrev pub run : Client → List Input → Client
run c [] = c
run c (i ∷ is) = run (step c i) is

pub record Form : Type 0 where
  pub user : Text
  pub password : Text
  pub error : Text
  pub busy : Bool
  pub authed : Bool

abbrev pub new_form : Form
new_form = record { user = codes "admin"; password = []; error = []; busy = false; authed = false }

abbrev pub submit : Form → Form
submit f = record f { busy = true; error = [] }

-- What the login's answer holds when it is of use: the token, the user and the role.
unfoldable pub login_done : Option (Text × (Text × Text)) → Form × Client → Form × Client
login_done none (f, c) =
    (record f { error = codes "Authentication failed. Check credentials."; busy = false }, c)
login_done (some r) (f, c) =
    (record f { busy = false; authed = true }, set_session r.0 r.1.0 r.1.1 c)
