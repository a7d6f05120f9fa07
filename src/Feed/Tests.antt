-- ===== src/Feed/Tests.antt =====
-- The feed over concrete events.
use sentinel_edr.Common.{◌≡◌, refl, true, false, Option, none, some, List, [], ◌∷◌}
use sentinel_edr.Common.Text.{Text, codes}
use sentinel_edr.Feed.Single.{IsValid, feed-IsValid, no_reconnect}
use sentinel_edr.Feed.Retry.{reconnects}
use sentinel_edr.Feed.{Input, initial, run, handshake, step, on_close, on_retry, clean_up}

abbrev parse : Text → Option Text
parse [] = none
parse (c ∷ data_) = some (c ∷ data_)

abbrev dropped : List Input
dropped = Input.opened 0 ∷ Input.message 0 (codes "hi") ∷ Input.closed 0 ∷ []

reconnected :
    (run parse initial (Input.opened 0 ∷ Input.closed 0 ∷ Input.retried ∷ [])).sockets ≡ 1 ∷ []
unfolding step on_close on_retry
reconnected = refl

with_token :
    handshake true (codes "edr.local") (some (codes "jwt"))
    ≡ record { url = codes "wss://edr.local/ws"; protocols = codes "bearer" ∷ codes "jwt" ∷ [] }
with_token = refl

feed-IsValid_example : IsValid (run parse initial dropped)
feed-IsValid_example = feed-IsValid parse dropped

abbrev left : List Input
left = Input.closed 0 ∷ Input.unmount ∷ []

no_reconnect_example :
    (run parse (run parse initial left) (Input.retried ∷ [])).made ≡ (run parse initial left).made
unfolding step on_close clean_up
no_reconnect_example = no_reconnect parse left (Input.retried ∷ []) refl

abbrev lost : List Input
lost = Input.opened 0 ∷ Input.closed 0 ∷ Input.retried ∷ []

reconnects_example :
    ((run parse
        (run parse initial lost)
        (Input.closed 1 ∷ Input.retried ∷ Input.opened (run parse initial lost).made ∷ [])).sockets
      ≡ (run parse initial lost).made ∷ [])
    × ((run parse (run parse initial lost) (
          Input.closed 1
          ∷ Input.retried
          ∷ Input.opened (run parse initial lost).made
          ∷ [])).connected
        ≡ true)
    × ((run parse (run parse initial lost) (
          Input.closed 1
          ∷ Input.retried
          ∷ Input.opened (run parse initial lost).made
          ∷ [])).unmounted
        ≡ false)
unfolding step on_close on_retry
reconnects_example = reconnects parse lost 1 refl refl
