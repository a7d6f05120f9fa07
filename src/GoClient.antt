-- ===== src/GoClient.antt =====
-- dashboard/lib/go.ts: the bridge to the Go control plane, with its cached service token.
-- What the network answers and what the clock shows during one call is a `World`; the module
-- variable `cached` and the requests sent so far are the state.
pub mod Caching
pub mod Headers
mod Tests
use sentinel_edr.Common.{
  ℕ, ◌+◌, ◌*◌, String, Bool, true, false, ◌&&◌, Option, none, some, List, [], ◌∷◌, ◌++◌, ltb, leb,
  if◌then◌else◌, get_or, ◌===◌, string_same,
}
use sentinel_edr.Common.Text.{Text, codes}

pub data Body : Type 0 where
  text : Text → Body
  credentials : (username password : Text) → Body

pub record HttpCall : Type 0 where
  pub method : String
  pub url : Text
  pub headers : List (String × Text)
  pub body : Option Body

pub record HttpReply : Type 0 where
  pub status : ℕ
  pub content_type : Option Text
  pub body : Text

-- The environment of the server process.
pub record Config : Type 0 where
  pub go_api : Text
  pub go_admin_user : Text
  pub go_admin_pass : Text

-- An answer to the login request: its status, and what is read of its body, the token. The outer
-- `none` is a body that `res.json()` or `j.token` throws on, the inner one an object without a
-- token, whose `j.token` is undefined.
pub record LoginReply : Type 0 where
  pub status : ℕ
  pub json : Option (Option Text)

-- `none` is a network error, at which `fetch` throws. `checked_at` and `stored_at` are the two
-- readings of `Date.now()`.
pub record World : Type 0 where
  pub config : Config
  pub login : Option LoginReply
  pub answer : HttpCall → Option HttpReply
  pub checked_at : ℕ
  pub stored_at : ℕ

pub record Cached : Type 0 where
  pub token : Option Text
  pub exp : ℕ

-- `sent` holds the requests, the latest first.
pub record Backend : Type 0 where
  pub cached : Option Cached
  pub sent : List HttpCall

pub data Thrown : Type 0 where
  network_error bad_json : Thrown
  go_login_failed : ℕ → Thrown

pub data Result {ℓ} (A : Type ℓ) : Type ℓ where
  ok : A → Result A
  throw : Thrown → Result A

abbrev pub M : Type 0 → Type 0
M A = Backend → Result A × Backend

abbrev pub bind : {A B : Type 0} → Result A × Backend → (A → M B) → Result B × Backend
bind (ok a, b) f = f a b
bind (throw e, b) f = (throw e, b)

infixl 5 ◌>>=◌
abbrev pub ◌>>=◌ : {A B : Type 0} → M A → (A → M B) → M B
◌>>=◌ m f b = bind (m b) f

abbrev pub pure : {A : Type 0} → A → M A
pure a b = (ok a, b)

-- `11 * 60 * 60 * 1000` milliseconds
abbrev pub token_life : ℕ
token_life = 11 * 60 * 60 * 1000

-- `res.ok`
abbrev pub is_ok : ℕ → Bool
is_ok status = leb 200 status && leb status 299

-- An object spread that sets one key: a present key keeps its place.
unfoldable pub set_header : String → Text → List (String × Text) → List (String × Text)
set_header k v [] = (k, v) ∷ []
set_header k v ((j, w) ∷ hs) = if j === k then (k, v) ∷ hs else (j, w) ∷ set_header k v hs

unfoldable pub spread : List (String × Text) → List (String × Text) → List (String × Text)
spread base [] = base
spread base ((k, v) ∷ more) = spread (set_header k v base) more

abbrev pub json_type : List (String × Text)
json_type = ("Content-Type", codes "application/json") ∷ []

unfoldable pub login_call : Config → HttpCall
login_call c = record {
  method = "POST";
  url = c.go_api ++ codes "/api/v1/login";
  headers = json_type;
  body = some (credentials c.go_admin_user c.go_admin_pass);
}

abbrev pub log : HttpCall → Backend → Backend
log call b = record b { sent = call ∷ b.sent }

-- From the login request to `return j.token`.
unfoldable pub granted : World → LoginReply → M (Option Text)
granted w r b =
    if is_ok r.status
    then elim r.json [
      | none ↦ (throw bad_json, b)
      | some t ↦
          (ok t, record b { cached = some (record { token = t; exp = w.stored_at + token_life }) })
    ]
    else (throw (go_login_failed r.status), b)

unfoldable pub log_in : World → M (Option Text)
unfolding granted
log_in w b =
    let b' = log (login_call w.config) b in
    elim w.login [ none ↦ (throw network_error, b') | some r ↦ granted w r b' ]

unfoldable pub go_token : World → M (Option Text)
unfolding log_in
go_token w b = elim b.cached [
  | none ↦ log_in w b
  | some c ↦ if ltb w.checked_at c.exp then (ok c.token, b) else log_in w b
]

-- `RequestInit`, as far as the callers use it.
pub record Init : Type 0 where
  pub method : Option String
  pub headers : List (String × Text)
  pub body : Option Body

abbrev pub no_init : Init
no_init = record { method = none; headers = []; body = none }

-- `${token}`
abbrev pub token_text : Option Text → Text
token_text none = codes "undefined"
token_text (some t) = t

unfoldable pub go_call : Config → Text → Init → Option Text → HttpCall
go_call c path init token = record {
  method = get_or init.method "GET";
  url = c.go_api ++ path;
  headers =
      set_header "Authorization" (codes "Bearer " ++ token_text token)
        (spread json_type init.headers);
  body = init.body;
}

-- `fetch`
unfoldable pub send : World → HttpCall → M HttpReply
send w call b = elim (w.answer call) [
  | none ↦ (throw network_error, log call b)
  | some r ↦ (ok r, log call b)
]

unfoldable pub go_fetch : World → Text → Init → M HttpReply
unfolding send
go_fetch w path init = do token ← go_token w; send w (go_call w.config path init token)
