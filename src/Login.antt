-- ===== src/Login.antt =====
-- The dashboard's sign-in page (dashboard/app/login/page.tsx) and the session check of its layout
-- (dashboard/app/(app)/layout.tsx). The auth client's replies are inputs; a submission comes only
-- from the form that is shown, while its button is on.
pub mod Entry
mod Tests
use sentinel_edr.Common.{
  Bool, true, false, not, ◌&&◌, Option, none, some, List, [], ◌∷◌, ◌++◌, if◌then◌else◌, ◌===◌,
  list_same, nat_same,
}
use sentinel_edr.Common.Text.{Text, codes, message_or}

-- The call that is out.
pub data Call : Type 0 where
  sign_in : Text → Text → Call
  verify_totp : Text → Call

pub record State : Type 0 where
  pub email : Text
  pub password : Text
  pub busy : Bool
  pub err : Text
  pub two_fa : Bool
  pub code : Text
  pub show_pw : Bool
  pub out : Option Call
  -- the router was sent to the console
  pub entered : Bool

abbrev pub initial : State
initial = record {
  email = [];
  password = [];
  busy = false;
  err = [];
  two_fa = false;
  code = [];
  show_pw = false;
  out = none;
  entered = false;
}

-- The reply to a call: an error with its message, if it has one, or the data, of which the page reads
-- whether a second factor is asked for.
pub data Reply : Type 0 where
  error : Option Text → Reply
  ok : (two_factor_redirect : Bool) → Reply

pub data Input : Type 0 where
  type_email type_password type_code : Text → Input
  toggle_password submit back : Input
  replied : Reply → Input

-- Either form, by whether a call is out and whether the second form is shown.
abbrev pub submit_form : (busy two_fa : Bool) → State → State
submit_form true two_fa s = s
submit_form false true s = record s { busy = true; err = []; out = some (verify_totp s.code) }
submit_form false false s = record s {
  busy = true;
  err = [];
  out = some (sign_in s.email s.password);
}

-- The second form's button
abbrev pub go_back : (two_fa : Bool) → State → State
go_back true s = record s { two_fa = false; code = []; err = [] }
go_back false s = s

unfoldable pub settled : Call → Reply → State → State
settled (sign_in e p) (error m) s = record s { err = message_or m (codes "Authentication failed") }
settled (sign_in e p) (ok true) s = record s { two_fa = true }
settled (sign_in e p) (ok false) s = record s { entered = true }
settled (verify_totp c) (error m) s = record s { err = message_or m (codes "Invalid code") }
settled (verify_totp c) (ok b) s = record s { entered = true }

-- A reply comes to the call that is out.
unfoldable pub receive : Option Call → Reply → State → State
unfolding settled
receive none r s = s
receive (some c) r s = settled c r (record s { busy = false; out = none })

unfoldable pub step : Input → State → State
unfolding receive
step (type_email t) s = record s { email = t }
step (type_password t) s = record s { password = t }
step (type_code t) s = record s { code = t }
step toggle_password s = record s { show_pw = not s.show_pw }
step submit s = submit_form s.busy s.two_fa s
step back s = go_back s.two_fa s
step (replied r) s = receive s.out r s

unfoldable pub run : List Input → State → State
unfolding step
run [] s = s
run (i ∷ is) s = run is (step i s)

pub data Page : Type 0 where
  redirect : Text → Page
  console : Page

-- The layout of every page of the console.
unfoldable pub app_layout : (has_session : Bool) → Page
app_layout true = console
app_layout false = redirect (codes "/login")
