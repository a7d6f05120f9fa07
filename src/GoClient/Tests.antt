-- ===== src/GoClient/Tests.antt =====
-- Runs of the bridge, and its theorems at concrete inputs.
use mathlib.Core.List.{Memᴰ}
use sentinel_edr.Common.{◌<◌, ◌+◌, ◌≡◌, ◌⊎◌, refl, none, some, [], ◌∷◌}
use sentinel_edr.Common.Text.{codes}
use sentinel_edr.GoClient.{
  Config, World, Backend, ok, throw, go_login_failed, token_life, go_token, login_call, log,
}
use sentinel_edr.GoClient.Caching.{start, call, IssuedBy, go_token_age}

abbrev config : Config
config = record {
  go_api = codes "http://go";
  go_admin_user = codes "svc";
  go_admin_pass = codes "pw";
}

abbrev granting : World
granting = record {
  config = config;
  login = some (record { status = 200; json = some (some (codes "jwt")) });
  answer = λ _. none;
  checked_at = 1000;
  stored_at = 1005;
}

abbrev later : World
later = record granting { login = none; checked_at = 2000; stored_at = 2005 }

abbrev refusing : World
refusing = record granting { login = some (record { status = 401; json = none }) }

abbrev empty : Backend
empty = record { cached = none; sent = [] }

abbrev logged_in : Backend
logged_in = record {
  cached = some (record { token = some (codes "jwt"); exp = 1005 + token_life });
  sent = login_call config ∷ [];
}

first_call : go_token granting empty ≡ (ok (some (codes "jwt")), logged_in)
unfolding go_token
first_call = refl

second_call : go_token later (go_token granting empty).1 ≡ (ok (some (codes "jwt")), logged_in)
unfolding go_token
second_call = refl

refused_call :
    go_token refusing empty ≡ (throw (go_login_failed 401), log (login_call config) empty)
unfolding go_token
refused_call = refl

-- A login whose reply has no token is cached all the same, and later calls use it.
no_token :
    (go_token later
      (go_token
        (record granting { login = some (record { status = 200; json = some none }) })
        empty).1).0
    ≡ ok none
unfolding go_token
no_token = refl

go_token_age_example :
    (v : World) × Memᴰ v (later ∷ granting ∷ [])
    × IssuedBy v (some (codes "jwt"))
    × ((v ≡ later) ⊎ (2000 < v.stored_at + token_life))
go_token_age_example =
    go_token_age (granting ∷ []) (go_token granting empty).1 later (some (codes "jwt"))
      (call granting start) second_call
