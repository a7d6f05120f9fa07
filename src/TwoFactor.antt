-- ===== src/TwoFactor.antt =====
-- The two-factor card (dashboard/components/two-factor.tsx): its steps, the calls of the auth
-- client and their replies, and what the card shows. The auth client's reply is an input; a click
-- or a submission comes only where the card shows the control.
pub mod Secrets
mod Tests
use sentinel_edr.Common.{
  ℕ, ◌≡◌, Bool, true, false, not, Option, none, some, List, [], ◌∷◌, ◌++◌, if◌then◌else◌, get_or,
}
use sentinel_edr.Common.Text.{Text, codes, message_or}

pub data Step : Type 0 where
  idle password verify disable : Step

pub record State : Type 0 where
  pub enabled : Bool
  pub step : Step
  pub password : Text
  pub code : Text
  pub uri : Text
  pub backup : List Text
  pub busy : Bool

abbrev pub initial : Bool → State
initial enabled = record {
  enabled = enabled;
  step = Step.idle;
  password = [];
  code = [];
  uri = [];
  backup = [];
  busy = false;
}

abbrev pub reset : State → State
reset s = initial s.enabled

-- What the card's content is: at most one of its five blocks.
pub data Screen : Type 0 where
  offer_disable disable_form offer_enable password_form verify_form blank : Screen

unfoldable pub screen : Bool → Step → Screen
screen true Step.idle = Screen.offer_disable
screen true Step.disable = Screen.disable_form
screen true _ = Screen.blank
screen false Step.idle = Screen.offer_enable
screen false Step.password = Screen.password_form
screen false Step.verify = Screen.verify_form
screen false Step.disable = Screen.blank

-- A reply is an error with its message, if it has one, or the data.
pub data Reply (A : Type 0) : Type 0 where
  error : Option Text → Reply A
  ok : A → Reply A

pub record SetUp : Type 0 where
  pub totp_uri : Option Text
  pub backup_codes : Option (List Text)

pub data Input : Type 0 where
  begin_enable begin_disable cancel submit : Input
  type_password type_code : Text → Input
  enable_reply : Reply (Option SetUp) → Input
  verify_reply disable_reply : Reply Unit → Input
  session : Bool → Input

pub data Call : Type 0 where
  enable verify_totp disable : Text → Call

pub data Toast : Type 0 where
  failure success : Text → Toast

pub record Effect : Type 0 where
  pub calls : List Call
  pub toasts : List Toast
  pub refetch : Bool

abbrev quiet : Effect
quiet = record { calls = []; toasts = []; refetch = false }

abbrev calling : Call → Effect
calling c = record { calls = c ∷ []; toasts = []; refetch = false }

abbrev failing : Text → Option Text → Effect
failing other message = record {
  calls = [];
  toasts = Toast.failure (message_or message other) ∷ [];
  refetch = false;
}

abbrev finishing : Text → Effect
finishing text = record { calls = []; toasts = Toast.success text ∷ []; refetch = true }

abbrev uri_of : Option SetUp → Text
uri_of none = []
uri_of (some d) = get_or d.totp_uri []

abbrev codes_of : Option SetUp → List Text
codes_of none = []
codes_of (some d) = get_or d.backup_codes []

unfoldable pub on_enable : Reply (Option SetUp) → State → State × Effect
on_enable (Reply.error m) s = (record s { busy = false }, failing (codes "Incorrect password") m)
on_enable (Reply.ok d) s =
    (record s { busy = false; uri = uri_of d; backup = codes_of d; step = Step.verify }, quiet)

unfoldable pub on_verify : Reply Unit → State → State × Effect
on_verify (Reply.error m) s = (record s { busy = false }, failing (codes "Invalid code") m)
on_verify (Reply.ok d) s = (reset s, finishing (codes "Two-factor authentication enabled"))

unfoldable pub on_disable : Reply Unit → State → State × Effect
on_disable (Reply.error m) s = (record s { busy = false }, failing (codes "Incorrect password") m)
on_disable (Reply.ok d) s = (reset s, finishing (codes "Two-factor authentication disabled"))

-- The form's field is required: an empty one is not submitted.
abbrev pub required : Text → State × Effect → State → State × Effect
required [] sent s = (s, quiet)
required (c ∷ field) sent s = sent

-- The submit button of the form that is shown; a busy one is off.
unfoldable pub on_submit : Bool → Screen → State → State × Effect
on_submit true shown s = (s, quiet)
on_submit false Screen.password_form s =
    required s.password (record s { busy = true }, calling (Call.enable s.password)) s
on_submit false Screen.verify_form s =
    required s.code (record s { busy = true }, calling (Call.verify_totp s.code)) s
on_submit false Screen.disable_form s =
    required s.password (record s { busy = true }, calling (Call.disable s.password)) s
on_submit false _ s = (s, quiet)

abbrev pub on_begin_enable : Screen → State → State
on_begin_enable Screen.offer_enable s = record s { step = Step.password }
on_begin_enable _ s = s

abbrev pub on_begin_disable : Screen → State → State
on_begin_disable Screen.offer_disable s = record s { step = Step.disable }
on_begin_disable _ s = s

-- Each of the three forms has a cancel button, which stays on while a call is out.
abbrev pub on_cancel : Screen → State → State
on_cancel Screen.password_form s = reset s
on_cancel Screen.verify_form s = reset s
on_cancel Screen.disable_form s = reset s
on_cancel _ s = s

abbrev pub shown : State → Screen
shown s = screen s.enabled s.step

unfoldable pub step : State → Input → State × Effect
step s Input.begin_enable = (on_begin_enable (shown s) s, quiet)
step s Input.begin_disable = (on_begin_disable (shown s) s, quiet)
step s Input.cancel = (on_cancel (shown s) s, quiet)
step s Input.submit = on_submit s.busy (shown s) s
step s (Input.type_password t) = (record s { password = t }, quiet)
step s (Input.type_code t) = (record s { code = t }, quiet)
step s (Input.enable_reply r) = on_enable r s
step s (Input.verify_reply r) = on_verify r s
step s (Input.disable_reply r) = on_disable r s
step s (Input.session enabled) = (record s { enabled = enabled }, quiet)

abbrev pub run : State → List Input → State
run s [] = s
run s (i ∷ is) = run (step s i).0 is
