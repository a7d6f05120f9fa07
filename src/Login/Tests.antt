-- ===== src/Login/Tests.antt =====
-- The sign-in page at concrete replies.
use sentinel_edr.Common.{◌≡◌, refl, true, false, ◌||◌, none, List, [], ◌∷◌, any, leb}
use sentinel_edr.Common.Text.{codes}
use sentinel_edr.Login.{
  Input, type_email, type_code, submit, back, replied, ok, error, run, initial, app_layout,
  redirect,
}
use sentinel_edr.Login.Entry.{is_direct, accepted, run-entered}

abbrev with_factor : List Input
with_factor =
    type_email (codes "ana@example.com")
    ∷ submit
    ∷ replied (ok true)
    ∷ type_code (codes "123456")
    ∷ submit
    ∷ replied (ok false)
    ∷ []

-- A reply to no call does nothing.
stray_reply : (run (replied (ok false) ∷ []) initial).entered ≡ false
unfolding run
stray_reply = refl

-- The reply to the code may come after a step back, and its error is shown on the first form.
late_error :
    (run (submit ∷ replied (ok true) ∷ submit ∷ back ∷ replied (error none) ∷ []) initial).err
    ≡ codes "Invalid code"
unfolding run
late_error = refl

no_session : app_layout false ≡ redirect (codes "/login")
unfolding app_layout
no_session = refl

-- The second reply leads to the console.
entered_run : (run with_factor initial).entered ≡ true
unfolding run
entered_run = refl

run-entered_example : any is_direct with_factor || leb 2 (accepted with_factor) ≡ true
run-entered_example = run-entered with_factor entered_run
