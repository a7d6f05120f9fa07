-- ===== src/GoClient/Headers.antt =====
-- The headers of a proxied request.
use sentinel_edr.Common.{
  ◌≡◌, String, Option, none, some, List, [], ◌∷◌, ◌++◌, arith, if◌then◌else◌, ◌===◌, string_same,
}
use sentinel_edr.Common.Text.{Text, codes}
use sentinel_edr.GoClient.{Config, Init, set_header, spread, json_type, token_text, go_call}

pub header : String → List (String × Text) → Option Text
header k [] = none
header k ((j, v) ∷ hs) = if j === k then some v else header k hs

pub header-set_header :
    (k : String) (v : Text) (hs : List (String × Text)) → header k (set_header k v hs) ≡ some v
unfolding header set_header
header-set_header k v [] = ground (arith, string_same.same_iff k k)
header-set_header k v ((j, w) ∷ hs) =
    ground (arith, header-set_header k v hs, string_same.same_iff k k, string_same.same_iff j k)

-- Whatever headers the caller passes, also an Authorization header of its own, the request carries
-- the service token under that name.
pub go_call-header :
    (c : Config) (path : Text) (init : Init) (token : Option Text)
    → header "Authorization" (go_call c path init token).headers
      ≡ some (codes "Bearer " ++ token_text token)
unfolding go_call
go_call-header c path init token =
    header-set_header "Authorization" (codes "Bearer " ++ token_text token)
      (spread json_type init.headers)
