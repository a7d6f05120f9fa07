-- ===== src/TwoFactor/Tests.antt =====
-- The card over concrete clicks and replies.
use sentinel_edr.Common.{◌≡◌, refl, true, false, some, ◌⊎◌, [], List, ◌∷◌}
use sentinel_edr.Common.Text.{codes}
use sentinel_edr.TwoFactor.Secrets.{IsClean, Dropped, cancels, run-IsClean_start}
use sentinel_edr.TwoFactor.{
  Input, Reply, SetUp, Screen, Call, initial, run, shown, step, screen, on_submit, on_enable,
  on_disable, Toast,
}

abbrev set_up : SetUp
set_up = record { totp_uri = some (codes "otpauth://totp"); backup_codes = some (codes "1" ∷ []) }

asks :
    (step
      (run (initial false) (Input.begin_enable ∷ Input.type_password (codes "pw") ∷ []))
      Input.submit).1.calls
    ≡ Call.enable (codes "pw") ∷ []
unfolding step screen on_submit
asks = refl

-- The reply to a set-up that was cancelled brings the card back to its code form.
late_reply :
    shown (
      run (initial false) (
        Input.begin_enable
        ∷ Input.type_password (codes "pw")
        ∷ Input.submit
        ∷ Input.cancel
        ∷ Input.enable_reply (Reply.ok (some set_up))
        ∷ []))
    ≡ Screen.verify_form
unfolding step screen on_submit on_enable
late_reply = refl

-- An error whose message is empty shows the card's own text.
empty_message :
    (step (initial true) (Input.disable_reply (Reply.error (some [])))).1.toasts
    ≡ Toast.failure (codes "Incorrect password") ∷ []
unfolding step on_disable
empty_message = refl

abbrev scanning : List Input
scanning =
    Input.begin_enable
    ∷ Input.type_password (codes "pw")
    ∷ Input.submit
    ∷ Input.enable_reply (Reply.ok (some set_up))
    ∷ []

run-IsClean_start_example :
    IsClean (run (initial false) scanning)
    × ((cancels (shown (run (initial false) scanning)) ≡ false)
        ⊎ Dropped (step (run (initial false) scanning) Input.cancel).0)
    × Dropped (step (run (initial false) scanning) (Input.verify_reply (Reply.ok tt))).0
    × Dropped (step (run (initial false) scanning) (Input.disable_reply (Reply.ok tt))).0
run-IsClean_start_example = run-IsClean_start false scanning
