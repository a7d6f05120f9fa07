-- ===== src/Announcer/Tests.antt =====
-- The live regions at concrete messages.
use sentinel_edr.Common.{◌≡◌, refl, true, [], ◌∷◌}
use sentinel_edr.Common.Text.{codes}
use sentinel_edr.Announcer.{polite, assertive, State, region, announce, announce_all, frame}
use sentinel_edr.Announcer.Spoken.{last_of, frame-announce_all}

abbrev quiet : State
quiet = record { mounted = true; polite_text = []; assertive_text = codes "one"; frames = [] }

-- A message that is said again empties its region first.
said_again : (announce (assertive, codes "one") quiet).assertive_text ≡ []
unfolding announce
said_again = refl

-- Of two messages of a level before one frame only the second is said.
first_unsaid :
    (frame (
      announce_all
        ((assertive, codes "two") ∷ (assertive, codes "three") ∷ [])
        quiet)).assertive_text
    ≡ codes "three"
unfolding frame announce_all
first_unsaid = refl

frame-announce_all_example :
    region assertive
      (frame (announce_all ((assertive, codes "two") ∷ (polite, codes "three") ∷ []) quiet))
    ≡ last_of assertive ((assertive, codes "two") ∷ (polite, codes "three") ∷ []) (codes "one")
frame-announce_all_example =
    frame-announce_all assertive ((assertive, codes "two") ∷ (polite, codes "three") ∷ []) quiet
      (refl, refl)
