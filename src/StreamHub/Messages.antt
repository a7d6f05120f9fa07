-- ===== src/StreamHub/Messages.antt =====
-- Who hears a message.
use sentinel_edr.Common.{
  ℕ, ◌≡◌, ◌≢◌, refl, ap, ◌∙◌, String, some, List, [], ◌∷◌, ◌++◌, map, arith, contains, Distinct,
  All, nat_same, string_same,
}
use sentinel_edr.StreamHub.{Hub, Delivery, of_data, of_message, Message, on_message, get, truthy}
use sentinel_edr.StreamHub.Lifetime.{Sub, handler, sub_eq, Reach, Reach-Inv}
use sentinel_edr.StreamHub.Handlers.{get-Distinct}

-- The handlers called with the data of a message, and those called with the message itself.
pub data_receivers : List Delivery → List ℕ
data_receivers [] = []
data_receivers (of_data j _ ∷ ds) = j ∷ data_receivers ds
data_receivers (of_message _ _ ∷ ds) = data_receivers ds

pub message_receivers : List Delivery → List ℕ
message_receivers [] = []
message_receivers (of_data _ _ ∷ ds) = message_receivers ds
message_receivers (of_message j _ ∷ ds) = j ∷ message_receivers ds

module _ (payload : ℕ) (msg : Message) where
  data_part :
      (hs js : List ℕ)
      → data_receivers (map (λ j. of_data j payload) hs ++ map (λ j. of_message j msg) js) ≡ hs
  unfolding data_receivers
  data_part [] [] = refl
  data_part [] (j ∷ js) = data_part [] js
  data_part (h ∷ hs) js = ap (◌∷◌ h) (data_part hs js)

  message_part :
      (hs js : List ℕ)
      → message_receivers (map (λ j. of_data j payload) hs ++ map (λ j. of_message j msg) js) ≡ js
  unfolding message_receivers
  message_part [] [] = refl
  message_part [] (j ∷ js) = ap (◌∷◌ j) (message_part [] js)
  message_part (h ∷ hs) js = message_part hs js

-- What a handler of a type is called with is the message's data, and what a handler of "*" is
-- called with is the message.
abbrev pub Carries : Message → Delivery → Type 0
Carries msg (of_data _ payload) = payload ≡ msg.payload
Carries msg (of_message _ whole) = whole ≡ msg

calls-Carries :
    (msg : Message) (hs js : List ℕ)
    → All (Carries msg) (map (λ j. of_data j msg.payload) hs ++ map (λ j. of_message j msg) js)
calls-Carries msg [] [] = tt
calls-Carries msg [] (j ∷ js) = (refl, calls-Carries msg [] js)
calls-Carries msg (h ∷ hs) js = (refl, calls-Carries msg hs js)

on_message-eq :
    (hub : Hub) (msg : Message) (t : String)
    → msg.type ≡ some t
    → t ≢ ""
    → on_message hub (some msg)
      ≡ map (λ j. of_data j msg.payload) (get t hub.handlers)
        ++ map (λ j. of_message j msg) (get "*" hub.handlers)
unfolding on_message
on_message-eq hub msg t e n =
    let typed : truthy msg.type ≡ some t = ground (arith, string_same.same_iff t "") in
    rw (typed, on_message)

-- A message of a type reaches, with its data, exactly the mounted subscriptions to that type, each
-- once, and, as a whole, exactly those to "*", each once.
pub message_delivery :
    (hub : Hub) (live : List Sub) (msg : Message) (t : String) (j : ℕ)
    → Reach hub live
    → msg.type ≡ some t
    → t ≢ ""
    → (contains (data_receivers (on_message hub (some msg))) j ≡ contains live (handler t j))
      × Distinct (data_receivers (on_message hub (some msg)))
      × (contains (message_receivers (on_message hub (some msg))) j ≡ contains live (handler "*" j))
      × Distinct (message_receivers (on_message hub (some msg)))
      × All (Carries msg) (on_message hub (some msg))
message_delivery hub live msg t j r e n =
    let v = Reach-Inv r in
    let call = on_message-eq hub msg t e n in
    let typed =
      ap data_receivers call
      ∙ data_part msg.payload msg (get t hub.handlers) (get "*" hub.handlers) in
    let whole =
      ap message_receivers call
      ∙ message_part msg.payload msg (get t hub.handlers) (get "*" hub.handlers) in
    (
      rw typed (v.heard t j),
      rw typed (get-Distinct t hub.handlers v.sets),
      rw whole (v.heard "*" j),
      rw whole (get-Distinct "*" hub.handlers v.sets),
      rw call (calls-Carries msg (get t hub.handlers) (get "*" hub.handlers)),
    )
