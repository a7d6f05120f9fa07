-- ===== src/Relay/Ends.antt =====
-- The stream and its resources end together.
use sentinel_edr.Common.{
  ◌≡◌, refl, sym, ap, ◌∙◌, ◌++◌, append_assoc, append-nil, Bool, true, false, none, some, not, ◌&&◌,
  List, [], ◌∷◌, if◌then◌else◌, arith, any,
}
use sentinel_edr.Common.Text.{Text, codes}
use sentinel_edr.Relay.{
  State, Socket, Input, start, send, step, run, clean_up, close_socket, data_line,
}

abbrev pub is_gone : Socket → Bool
is_gone Socket.gone = true
is_gone _ = false

-- The timer runs, and the socket is held, exactly while the stream is open.
abbrev pub IsTied : State → Type 0
IsTied s = (s.ping ≡ s.is_open) × (is_gone s.socket ≡ not s.is_open)

is_gone-close_socket : (w : Socket) → is_gone (close_socket w) ≡ is_gone w
is_gone-close_socket Socket.live = refl
is_gone-close_socket Socket.closing = refl
is_gone-close_socket Socket.gone = refl

if-IsTied : (b : Bool) (x y : State) → IsTied x → IsTied y → IsTied (if b then x else y)
if-IsTied true x y hx hy = hx
if-IsTied false x y hx hy = hy

send-IsTied : (t : Text) (s : State) → IsTied s → IsTied (send t s)
send-IsTied t s h = if-IsTied s.is_open _ s h h

step-IsTied : (s : State) (i : Input) → IsTied s → IsTied (step s i)
unfolding step clean_up
step-IsTied s (Input.message t) h = send-IsTied (data_line t) s h
step-IsTied s Input.socket_error (p, w) = (p, is_gone-close_socket s.socket ∙ w)
step-IsTied s Input.socket_close h = (refl, refl)
step-IsTied s Input.tick h = if-IsTied s.ping _ s (send-IsTied _ s h) h
step-IsTied s Input.cancel h = (refl, refl)

run-IsTied_of : (s : State) (is : List Input) → IsTied s → IsTied (run s is)
run-IsTied_of s [] h = h
run-IsTied_of s (i ∷ is) h = run-IsTied_of (step s i) is (step-IsTied s i h)

abbrev pub is_end : Input → Bool
is_end Input.socket_close = true
is_end Input.cancel = true
is_end _ = false

send-is_open : (t : Text) (s : State) → (send t s).is_open ≡ s.is_open
send-is_open t s = ground arith

step-is_open : (s : State) (i : Input) → (step s i).is_open ≡ s.is_open && not (is_end i)
unfolding step clean_up
step-is_open s (Input.message t) = send-is_open (data_line t) s ∙ ground arith
step-is_open s Input.socket_error = ground arith
step-is_open s Input.socket_close = ground arith
step-is_open s Input.tick = ground arith
step-is_open s Input.cancel = ground arith

run-is_open : (s : State) (is : List Input) → (run s is).is_open ≡ s.is_open && not (any is_end is)
run-is_open s [] = ground arith
run-is_open s (i ∷ is) = run-is_open (step s i) is ∙ ground (arith, step-is_open s i)

-- In every order of messages, errors, pings, the socket's close and the reader's cancel: the
-- stream is open until the first close or cancel, and the timer and the socket are held exactly
-- as long.
pub run-IsTied :
    (is : List Input) → IsTied (run start is) × ((run start is).is_open ≡ not (any is_end is))
run-IsTied is = (run-IsTied_of start is (refl, refl), run-is_open start is)

send_closed : (t : Text) (s : State) → s.is_open ≡ false → (send t s).sent ≡ s.sent
send_closed t s h = ground arith

step_closed : (s : State) (i : Input) → s.is_open ≡ false → (step s i).sent ≡ s.sent
unfolding step clean_up
step_closed s (Input.message t) h = send_closed (data_line t) s h
step_closed s Input.socket_error h = refl
step_closed s Input.socket_close h = refl
step_closed s Input.tick h = ground arith
step_closed s Input.cancel h = refl

run-sent_closed : (s : State) (is : List Input) → s.is_open ≡ false → (run s is).sent ≡ s.sent
run-sent_closed s [] h = refl
run-sent_closed s (i ∷ is) h =
    run-sent_closed (step s i) is (step-is_open s i ∙ ground arith) ∙ step_closed s i h

-- What the inputs up to the first close or cancel are to put on the stream.
abbrev pub lines : List Input → List Text
lines [] = []
lines (Input.message none ∷ is) = codes "data: \n\n" ∷ lines is
lines (Input.message (some t) ∷ is) = (codes "data: " ++ (t ++ codes "\n\n")) ∷ lines is
lines (Input.socket_error ∷ is) = lines is
lines (Input.tick ∷ is) = codes ": ping\n\n" ∷ lines is
lines (Input.socket_close ∷ is) = []
lines (Input.cancel ∷ is) = []

send_open :
    (t : Text) (s : State)
    → s.is_open ≡ true
    → s.ping ≡ true
    → ((send t s).sent ≡ s.sent ++ t ∷ []) × ((send t s).is_open ≡ true) × ((send t s).ping ≡ true)
send_open t s o p = ground arith

sent_next :
    (s : State) (t : Text) (is : List Input)
    → s.is_open ≡ true
    → s.ping ≡ true
    → (run (send t s) is).sent ≡ (send t s).sent ++ lines is
    → (run (send t s) is).sent ≡ s.sent ++ t ∷ lines is
sent_next s t is o p rest =
    rest ∙ ap (λ x. x ++ lines is) (send_open t s o p).0 ∙ append_assoc s.sent (t ∷ []) (lines is)

run-sent_of :
    (s : State) (is : List Input)
    → s.is_open ≡ true
    → s.ping ≡ true
    → (run s is).sent ≡ s.sent ++ lines is
unfolding step clean_up
run-sent_of s [] o p = sym (append-nil s.sent)
run-sent_of s (Input.message none ∷ is) o p =
    let (_, o', p') = send_open (data_line none) s o p in
    sent_next s (data_line none) is o p (run-sent_of (send (data_line none) s) is o' p')
run-sent_of s (Input.message (some t) ∷ is) o p =
    let (_, o', p') = send_open (data_line (some t)) s o p in
    sent_next s (data_line (some t)) is o p (run-sent_of (send (data_line (some t)) s) is o' p')
run-sent_of s (Input.tick ∷ is) o p =
    let ping = codes ": ping\n\n" in
    let (_, o', p') = send_open ping s o p in
    ap (λ b. (run (if b then send ping s else s) is).sent) p
    ∙ sent_next s ping is o p (run-sent_of (send ping s) is o' p')
run-sent_of s (Input.socket_error ∷ is) o p = run-sent_of _ is o p
run-sent_of s (Input.socket_close ∷ is) o p = run-sent_closed _ is refl ∙ sym (append-nil s.sent)
run-sent_of s (Input.cancel ∷ is) o p = run-sent_closed _ is refl ∙ sym (append-nil s.sent)

-- Whatever comes in which order, the browser is sent the greeting, then for each of the socket's
-- messages "data: ", its text and an empty line, and a comment for each ping of the timer, in their
-- order, up to the first close or cancel, and nothing after it.
pub run-sent :
    (is : List Input) → (run start is).sent ≡ codes ": connected\nretry: 3000\n\n" ∷ lines is
run-sent is = run-sent_of start is refl refl
