-- ===== src/Login/Entry.antt =====
-- What it takes to get from the sign-in page to the console.
use sentinel_edr.Common.{
  ℕ, not, ◌+◌, ◌≤◌, leb, ◌≡◌, refl, Bool, true, false, ◌||◌, Option, none, some, List, [], ◌∷◌, any,
  arith, if◌then◌else◌, ap, subst,
}
use sentinel_edr.Login.{
  Call, sign_in, verify_totp, State, initial, Reply, error, ok, Input, type_email, type_password,
  type_code, toggle_password, submit, back, replied, submit_form, go_back, settled, receive, step,
  run,
}

-- A reply that signs in with no second factor.
abbrev pub is_direct : Input → Bool
is_direct (replied (ok false)) = true
is_direct _ = false

-- A reply without an error.
abbrev pub is_ok : Input → Bool
is_ok (replied (ok b)) = true
is_ok _ = false

abbrev pub is_verification : Option Call → Bool
is_verification (some (verify_totp c)) = true
is_verification _ = false

-- After a direct reply, if `d`, and `n` replies without an error: the second form, and a call from
-- it, come after one of these; the console comes after a direct one or after two.
pub record IsGuarded (d : Bool) (n : ℕ) (s : State) : Type 0 where
  pub form : s.two_fa ≡ true → 1 ≤ n
  pub call : is_verification s.out ≡ true → 1 ≤ n
  pub entry : s.entered ≡ true → d || leb 2 n ≡ true

later_entry : (d x : Bool) (n k : ℕ) → d || leb 2 n ≡ true → (d || x) || leb 2 (n + k) ≡ true
later_entry d x n k h = ground arith

later_form : (n k : ℕ) → 1 ≤ n → 1 ≤ n + k
later_form n k h = omega arith

-- More replies keep what held.
later-IsGuarded :
    (d x : Bool) (n k : ℕ) (s : State) → IsGuarded d n s → IsGuarded (d || x) (n + k) s
later-IsGuarded d x n k s h = record {
  form = λ e. later_form n k (h.form e);
  call = λ e. later_form n k (h.call e);
  entry = λ e. later_entry d x n k (h.entry e);
}

submit_form-IsGuarded :
    (d : Bool) (n : ℕ) (busy two_fa : Bool) (s : State)
    → s.two_fa ≡ two_fa
    → IsGuarded d n s
    → IsGuarded d n (submit_form busy two_fa s)
submit_form-IsGuarded d n true two_fa s e h = h
submit_form-IsGuarded d n false true s e h = record {
  form = h.form;
  call = λ t. h.form e;
  entry = h.entry;
}
submit_form-IsGuarded d n false false s e h = record {
  form = h.form;
  call = λ t. cc;
  entry = h.entry;
}

go_back-IsGuarded :
    (d : Bool) (n : ℕ) (two_fa : Bool) (s : State)
    → IsGuarded d n s
    → IsGuarded d n (go_back two_fa s)
go_back-IsGuarded d n true s h = record { form = λ t. cc; call = h.call; entry = h.entry }
go_back-IsGuarded d n false s h = h

receive-IsGuarded :
    (d : Bool) (n : ℕ) (r : Reply) (o : Option Call) (s : State)
    → s.out ≡ o
    → IsGuarded d n s
    → IsGuarded
        (d || is_direct (replied r))
        (n + (if is_ok (replied r) then 1 else 0))
        (receive o r s)
unfolding receive settled
receive-IsGuarded d n r none s e h = later-IsGuarded d _ n _ s h
receive-IsGuarded d n (error m) (some (sign_in i p)) s e h = record {
  form = λ t. later_form n 0 (h.form t);
  call = λ t. cc;
  entry = λ t. later_entry d false n 0 (h.entry t);
}
receive-IsGuarded d n (ok true) (some (sign_in i p)) s e h = record {
  form = λ t. omega arith;
  call = λ t. cc;
  entry = λ t. later_entry d false n 1 (h.entry t);
}
receive-IsGuarded d n (ok false) (some (sign_in i p)) s e h = record {
  form = λ t. later_form n 1 (h.form t);
  call = λ t. cc;
  entry = λ t. ground arith;
}
receive-IsGuarded d n (error m) (some (verify_totp c)) s e h = record {
  form = λ t. later_form n 0 (h.form t);
  call = λ t. cc;
  entry = λ t. later_entry d false n 0 (h.entry t);
}
receive-IsGuarded d n (ok b) (some (verify_totp c)) s e h =
    let one : 1 ≤ n = h.call (ap is_verification e) in
    record { form = λ t. later_form n 1 (h.form t); call = λ t. cc; entry = λ t. ground arith }

abbrev one_if : Bool → ℕ
one_if b = if b then 1 else 0

-- The number of the replies without an error
abbrev pub accepted : List Input → ℕ
accepted [] = 0
accepted (i ∷ is) = one_if (is_ok i) + accepted is

same_IsGuarded : (d : Bool) (n : ℕ) (s : State) → IsGuarded d n s → IsGuarded (d || false) (n + 0) s
same_IsGuarded d n s h = later-IsGuarded d false n 0 s h

step-IsGuarded :
    (d : Bool) (n : ℕ) (i : Input) (s : State)
    → IsGuarded d n s
    → IsGuarded (d || is_direct i) (n + one_if (is_ok i)) (step i s)
unfolding step
step-IsGuarded d n (type_email t) s h =
    same_IsGuarded d n (record s { email = t })
      (record { form = h.form; call = h.call; entry = h.entry })
step-IsGuarded d n (type_password t) s h =
    same_IsGuarded d n (record s { password = t })
      (record { form = h.form; call = h.call; entry = h.entry })
step-IsGuarded d n (type_code t) s h =
    same_IsGuarded d n (record s { code = t })
      (record { form = h.form; call = h.call; entry = h.entry })
step-IsGuarded d n toggle_password s h =
    same_IsGuarded d n (record s { show_pw = not s.show_pw })
      (record { form = h.form; call = h.call; entry = h.entry })
step-IsGuarded d n submit s h =
    same_IsGuarded d n (submit_form s.busy s.two_fa s)
      (submit_form-IsGuarded d n s.busy s.two_fa s refl h)
step-IsGuarded d n back s h =
    same_IsGuarded d n (go_back s.two_fa s) (go_back-IsGuarded d n s.two_fa s h)
step-IsGuarded d n (replied r) s h = receive-IsGuarded d n r s.out s refl h

run-IsGuarded :
    (is : List Input) (d : Bool) (n : ℕ) (s : State)
    → IsGuarded d n s
    → IsGuarded (d || any is_direct is) (n + accepted is) (run is s)
unfolding run
run-IsGuarded [] d n s h = same_IsGuarded d n s h
run-IsGuarded (i ∷ is) d n s h =
    let k =
      run-IsGuarded is (d || is_direct i) (n + one_if (is_ok i)) (step i s)
        (step-IsGuarded d n i s h) in
    let e : (n + one_if (is_ok i)) + accepted is ≡ n + (one_if (is_ok i) + accepted is) =
      omega arith in
    let f : (d || is_direct i) || any is_direct is ≡ d || (is_direct i || any is_direct is) =
      ground arith in
    subst (λ b. IsGuarded b (n + (one_if (is_ok i) + accepted is)) (run is (step i s))) f
      (subst (λ m. IsGuarded ((d || is_direct i) || any is_direct is) m (run is (step i s))) e k)

-- Over every order of typing, clicks and replies: the page goes on to the console only after a reply
-- that signed in with no second factor, or after two replies without an error.
pub run-entered :
    (is : List Input)
    → (run is initial).entered ≡ true
    → any is_direct is || leb 2 (accepted is) ≡ true
run-entered is h =
    let g =
      run-IsGuarded is false 0 initial
        (record { form = λ t. cc; call = λ t. cc; entry = λ t. cc }) in
    let k : any is_direct is || leb 2 (0 + accepted is) ≡ true = g.entry h in
    let e : 0 + accepted is ≡ accepted is = omega arith in
    subst (λ m. any is_direct is || leb 2 m ≡ true) e k
