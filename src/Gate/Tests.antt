-- ===== src/Gate/Tests.antt =====
-- The gate at concrete requests.
use sentinel_edr.Common.{◌≡◌, refl, none, some}
use sentinel_edr.Common.Text.{codes}
use sentinel_edr.Gate.{Response, proxy}

sign_up :
    proxy
      (some "production")
      (record { method = "POST"; pathname = codes "/api/auth/sign-up/email" })
    ≡ Response.refused 403 (codes "self-registration disabled")
unfolding proxy
sign_up = refl

sign_in :
    proxy none (record { method = "POST"; pathname = codes "/api/auth/sign-in/email" })
    ≡ Response.next none
unfolding proxy
sign_in = refl
