-- ===== src/Gate.antt =====
-- The dashboard's request gate (dashboard/proxy.ts): it refuses public sign-up, and sets the
-- content security policy in production. Which requests next passes to it is next's, by the
-- file's matcher.
mod Tests
use sentinel_edr.Common.{
  ℕ, String, ◌≡◌, Bool, true, false, ◌&&◌, Option, none, some, List, [], ◌∷◌, if◌then◌else◌,
  StrictEq, ◌===◌, string_same,
}
use sentinel_edr.Common.Text.{Text, codes, join, starts_with}

pub record Request : Type 0 where
  pub method : String
  pub pathname : Text

pub data Response : Type 0 where
  refused : (status : ℕ) → (error : Text) → Response
  next : (policy : Option Text) → Response

abbrev pub directives : List Text
directives =
    codes "default-src 'self'"
    ∷ codes "script-src 'self' 'unsafe-inline'"
    ∷ codes "style-src 'self' 'unsafe-inline'"
    ∷ codes "img-src 'self' data: blob:"
    ∷ codes "font-src 'self' data:"
    ∷ codes "connect-src 'self'"
    ∷ codes "frame-ancestors 'none'"
    ∷ codes "base-uri 'self'"
    ∷ codes "object-src 'none'"
    ∷ codes "form-action 'self'"
    ∷ []

-- Only in production is the header set.
abbrev pub policy_of : Option String → Option Text
policy_of none = none
policy_of (some env) = if env === "production" then some (join (codes "; ") directives) else none

unfoldable pub proxy : Option String → Request → Response
proxy node_env req =
    if req.method === "POST" && starts_with (codes "/api/auth/sign-up") req.pathname
    then Response.refused 403 (codes "self-registration disabled")
    else Response.next (policy_of node_env)
