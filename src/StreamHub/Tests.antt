-- ===== src/StreamHub/Tests.antt =====
-- A run of the hub, and its theorems at concrete inputs.
use sentinel_edr.Common.{
  All, ◌≡◌, refl, String, some, List, [], ◌∷◌, contains, Distinct, arith, nat_same, string_same,
  ◌≢◌,
}
use sentinel_edr.StreamHub.{Hub, initial, on_message, get, timer_fired, of_data, Message}
use sentinel_edr.StreamHub.Lifetime.{
  Sub, handler, sub_eq, Reach, start, next, mounts, unmounts, timer, mount, unmount, Inv, Reach-Inv,
}
use sentinel_edr.StreamHub.Messages.{data_receivers, message_receivers, Carries, message_delivery}

abbrev one : Hub
one = mount (handler "event" 7) initial

abbrev one_live : List Sub
one_live = handler "event" 7 ∷ []

one-Reach : Reach one one_live
one-Reach = next start (mounts (handler "event" 7) refl)

abbrev gone : Hub
gone = (timer_fired (unmount (handler "event" 7) one)).0

gone-Reach : Reach gone []
unfolding mount unmount initial
gone-Reach = next (next one-Reach (unmounts (handler "event" 7) refl)) (timer (omega arith))

Reach-Inv_example : Inv one one_live
Reach-Inv_example = Reach-Inv one-Reach

abbrev hello : Message
hello = record { type = some "event"; payload = 5 }

delivered : on_message one (some hello) ≡ of_data 7 5 ∷ []
unfolding mount initial on_message get
delivered = refl

event_named : ◌≢◌ {A = String} "event" ""
event_named = ground (arith, string_same.same_iff "event" "")

message_delivery_example :
    (contains (data_receivers (on_message one (some hello))) 7
      ≡ contains one_live (handler "event" 7))
    × Distinct (data_receivers (on_message one (some hello)))
    × (contains (message_receivers (on_message one (some hello))) 7
        ≡ contains one_live (handler "*" 7))
    × Distinct (message_receivers (on_message one (some hello)))
    × All (Carries hello) (on_message one (some hello))
message_delivery_example = message_delivery one one_live hello "event" 7 one-Reach refl event_named
