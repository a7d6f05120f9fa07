-- ===== src/Relay/Tests.antt =====
-- The relay over concrete frames.
use sentinel_edr.Common.{◌≡◌, refl, not, some, List, [], ◌∷◌, ◌++◌, any}
use sentinel_edr.Common.Text.{codes}
use sentinel_edr.Relay.Ends.{IsTied, is_end, run-IsTied, lines, run-sent}
use sentinel_edr.Relay.{ws_url, Input, start, run, step, clean_up}

abbrev frames : List Input
frames = Input.message (some (codes "{}")) ∷ Input.tick ∷ Input.socket_close ∷ []

sent_run :
    (run start frames).sent
    ≡ codes ": connected\nretry: 3000\n\n" ∷ codes "data: {}\n\n" ∷ codes ": ping\n\n" ∷ []
unfolding step clean_up
sent_run = refl

run-IsTied_example :
    IsTied (run start frames) × ((run start frames).is_open ≡ not (any is_end frames))
run-IsTied_example = run-IsTied frames

run-sent_example :
    (run start (frames ++ Input.tick ∷ [])).sent
    ≡ codes ": connected\nretry: 3000\n\n" ∷ lines (frames ++ Input.tick ∷ [])
run-sent_example = run-sent (frames ++ Input.tick ∷ [])

-- A secure server's socket is secure, too.
secure_url : ws_url (some (codes "https://edr.example")) ≡ codes "wss://edr.example/ws"
unfolding ws_url
secure_url = refl
