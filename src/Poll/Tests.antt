-- ===== src/Poll/Tests.antt =====
-- A run of the polled endpoint, and its theorems at concrete inputs.
use sentinel_edr.Common.{
  ℕ, ◌≡◌, ◌≢◌, refl, String, true, false, Option, none, some, List, [], ◌∷◌, arith, string_same,
  ◌===◌,
}
use sentinel_edr.Poll.{State, Event, started, reply, ticked, settled, thrown, step, run, initial}
use sentinel_edr.Poll.Freshness.{reply_shown}

abbrev parse : String → Option ℕ
parse s = elim (s === "7") [ true ↦ some 7 | false ↦ none ]

abbrev trace : List Event
trace = started ∷ reply 1 (settled 200 "7") ∷ ticked false ∷ reply 1 thrown ∷ []

abbrev state : State ℕ
state = run parse trace initial

state_fields : (state.value ≡ some 7) × (state.live ≡ false) × (state.fetches ≡ 2)
unfolding run step initial
state_fields = (refl, refl, refl)

seven_text : ◌≢◌ {A = String} "7" ""
seven_text = ground (arith, string_same.same_iff "7" "")

state_mounted : state.mounted ≡ true
unfolding run step initial
state_mounted = refl

reply_shown_example :
    ((step parse (reply state.effect_run (settled 200 "7")) state).value ≡ some 7)
    × ((step parse (reply state.effect_run (settled 200 "7")) state).live ≡ true)
    × ((step parse (reply state.effect_run (settled 200 "7")) state).error ≡ none)
reply_shown_example =
    reply_shown parse trace state 200 "7" 7 refl state_mounted refl seven_text refl
