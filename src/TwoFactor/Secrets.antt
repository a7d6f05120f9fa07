-- ===== src/TwoFactor/Secrets.antt =====
-- How long the card holds the secret and the backup codes.
use sentinel_edr.Common.{◌≡◌, refl, Bool, true, false, List, [], ◌∷◌, ◌⊎◌, inl, inr}
use sentinel_edr.Common.Text.{Text}
use sentinel_edr.TwoFactor.{
  required, Effect, Step, State, Screen, Input, Reply, initial, screen, step, run, on_enable,
  on_verify, on_disable, on_submit, on_begin_enable, on_begin_disable, on_cancel, shown,
}

-- The secret and the codes are held in the verify step alone.
abbrev pub IsClean : State → Type 0
IsClean s = (s.step ≡ Step.verify) ⊎ ((s.uri ≡ []) × (s.backup ≡ []))

required-IsClean :
    (t : Text) (sent : State × Effect) (s : State)
    → IsClean sent.0
    → IsClean s
    → IsClean (required t sent s).0
required-IsClean [] sent s hs h = h
required-IsClean (c ∷ t) sent s hs h = hs

on_submit-IsClean : (b : Bool) (x : Screen) (s : State) → IsClean s → IsClean (on_submit b x s).0
unfolding on_submit
on_submit-IsClean true x s h = h
on_submit-IsClean false Screen.password_form s h = required-IsClean s.password _ s h h
on_submit-IsClean false Screen.verify_form s h = required-IsClean s.code _ s h h
on_submit-IsClean false Screen.disable_form s h = required-IsClean s.password _ s h h
on_submit-IsClean false _ s h = h

-- A click on the card's offer is possible in the idle step alone.
begin_enable-IsClean :
    (e : Bool) (k : Step) (s : State)
    → s.step ≡ k
    → IsClean s
    → IsClean (on_begin_enable (screen e k) s)
unfolding screen
begin_enable-IsClean false Step.idle s at (inl v) = cc
begin_enable-IsClean false Step.idle s at (inr c) = inr c
begin_enable-IsClean true Step.idle s at h = h
begin_enable-IsClean true Step.password s at h = h
begin_enable-IsClean true Step.verify s at h = h
begin_enable-IsClean true Step.disable s at h = h
begin_enable-IsClean false Step.password s at h = h
begin_enable-IsClean false Step.verify s at h = h
begin_enable-IsClean false Step.disable s at h = h

begin_disable-IsClean :
    (e : Bool) (k : Step) (s : State)
    → s.step ≡ k
    → IsClean s
    → IsClean (on_begin_disable (screen e k) s)
unfolding screen
begin_disable-IsClean true Step.idle s at (inl v) = cc
begin_disable-IsClean true Step.idle s at (inr c) = inr c
begin_disable-IsClean true Step.password s at h = h
begin_disable-IsClean true Step.verify s at h = h
begin_disable-IsClean true Step.disable s at h = h
begin_disable-IsClean false Step.idle s at h = h
begin_disable-IsClean false Step.password s at h = h
begin_disable-IsClean false Step.verify s at h = h
begin_disable-IsClean false Step.disable s at h = h

on_cancel-IsClean : (x : Screen) (s : State) → IsClean s → IsClean (on_cancel x s)
on_cancel-IsClean Screen.password_form s h = inr (refl, refl)
on_cancel-IsClean Screen.verify_form s h = inr (refl, refl)
on_cancel-IsClean Screen.disable_form s h = inr (refl, refl)
on_cancel-IsClean _ s h = h

step-IsClean : (s : State) (i : Input) → IsClean s → IsClean (step s i).0
unfolding step on_enable on_verify on_disable
step-IsClean s Input.begin_enable h = begin_enable-IsClean s.enabled s.step s refl h
step-IsClean s Input.begin_disable h = begin_disable-IsClean s.enabled s.step s refl h
step-IsClean s Input.cancel h = on_cancel-IsClean (screen s.enabled s.step) s h
step-IsClean s Input.submit h = on_submit-IsClean s.busy (screen s.enabled s.step) s h
step-IsClean s (Input.type_password t) h = h
step-IsClean s (Input.type_code t) h = h
step-IsClean s (Input.enable_reply (Reply.error m)) h = h
step-IsClean s (Input.enable_reply (Reply.ok d)) h = inl refl
step-IsClean s (Input.verify_reply (Reply.error m)) h = h
step-IsClean s (Input.verify_reply (Reply.ok d)) h = inr (refl, refl)
step-IsClean s (Input.disable_reply (Reply.error m)) h = h
step-IsClean s (Input.disable_reply (Reply.ok d)) h = inr (refl, refl)
step-IsClean s (Input.session e) h = h

run-IsClean_of : (s : State) (is : List Input) → IsClean s → IsClean (run s is)
run-IsClean_of s [] h = h
run-IsClean_of s (i ∷ is) h = run-IsClean_of (step s i).0 is (step-IsClean s i h)

-- The card is back where it begins: nothing typed and nothing shown is left.
abbrev pub Dropped : State → Type 0
Dropped s =
    (s.step ≡ Step.idle) × (s.uri ≡ []) × (s.backup ≡ []) × (s.password ≡ []) × (s.code ≡ [])

-- The three forms have a cancel button.
abbrev pub cancels : Screen → Bool
cancels Screen.password_form = true
cancels Screen.verify_form = true
cancels Screen.disable_form = true
cancels _ = false

on_cancel-Dropped : (x : Screen) (s : State) → (cancels x ≡ false) ⊎ Dropped (on_cancel x s)
on_cancel-Dropped Screen.password_form s = inr (refl, refl, refl, refl, refl)
on_cancel-Dropped Screen.verify_form s = inr (refl, refl, refl, refl, refl)
on_cancel-Dropped Screen.disable_form s = inr (refl, refl, refl, refl, refl)
on_cancel-Dropped Screen.offer_disable s = inl refl
on_cancel-Dropped Screen.offer_enable s = inl refl
on_cancel-Dropped Screen.blank s = inl refl

-- After every order of clicks, submissions, replies and session changes: the card holds the
-- secret and the backup codes in the verify step alone; a cancel, wherever a form shows one, goes
-- back to the idle step and drops them with the typed password and code; and so do a successful
-- reply to the verification and one to the switching off.
pub run-IsClean_start :
    (enabled : Bool) (is : List Input)
    → IsClean (run (initial enabled) is)
      × ((cancels (shown (run (initial enabled) is)) ≡ false)
          ⊎ Dropped (step (run (initial enabled) is) Input.cancel).0)
      × Dropped (step (run (initial enabled) is) (Input.verify_reply (Reply.ok tt))).0
      × Dropped (step (run (initial enabled) is) (Input.disable_reply (Reply.ok tt))).0
unfolding step on_verify on_disable
run-IsClean_start enabled is = (
  run-IsClean_of (initial enabled) is (inr (refl, refl)),
  on_cancel-Dropped (shown (run (initial enabled) is)) (run (initial enabled) is),
  (refl, refl, refl, refl, refl),
  (refl, refl, refl, refl, refl),
)
