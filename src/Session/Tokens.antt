-- ===== src/Session/Tokens.antt =====
-- Which token a request carries.
use sentinel_edr.Common.{
  ◌≡◌, refl, ap, ◌∙◌, Bool, true, false, not, ◌&&◌, Option, none, some, List, [], ◌∷◌, ◌++◌, ◌===◌,
  string_same, nat_same, list_same, if◌then◌else◌, arith, Bool-cases, inl, inr, get_or,
}
use sentinel_edr.Common.Text.{Text, codes, includes}
use sentinel_edr.Session.{
  set_session, Outcome, ends_with, reload, new_client, Client, Headers, set_header, spread,
  authorize, req_call, Method, Answer, receive, Input, step, run, settle, clear_session, is_ok,
}

-- What a header's name has in the record of headers
abbrev pub header : Text → Headers → Option Text
header name [] = none
header name ((k, v) ∷ hs) = let rest = header name hs in if k === name then some v else rest

abbrev pub is_success : Outcome → Bool
is_success (Outcome.json t) = true
is_success (Outcome.plain t) = true
is_success _ = false

-- The token of the last sign-in, if no end of the session followed it
abbrev pub current : Option Text → List Input → Option Text
current token [] = token
current token (Input.signed_in new user role ∷ is) = current (some new) is
current token (Input.signed_out ∷ is) = current none is
current token (Input.answered path a ∷ is) = current (if a.status === 401 then none else token) is
current token (Input.reloaded ∷ is) = current none is

-- What an answer does: a 401 empties the session, and reloads the page unless it answers a
-- sign-in; any other answer leaves the session as it is. The call succeeds exactly on a status
-- from 200 to 299.
pub receive_cases :
    (c : Client) (path : Text) (a : Answer)
    → ((receive c path a).client ≡ (if a.status === 401 then clear_session c else c))
      × (((receive c path a).reloads ≡ (a.status === 401) && not (ends_with (codes "/login") path))
          × (is_success (receive c path a).outcome ≡ is_ok a.status))
unfolding receive
receive_cases c path a = elim (Bool-cases (a.status === 401)) [
  | inl e ↦ rw e (refl, (refl, ground arith))
  | inr e ↦ elim (Bool-cases (is_ok a.status)) [
    | inr bad ↦ rw (e, bad) (refl, (refl, refl))
    | inl fine ↦ elim (Bool-cases (includes (codes "json") (get_or a.content_type []))) [
      | inl j ↦ rw (e, fine, j) (refl, (refl, refl))
      | inr p ↦ rw (e, fine, p) (refl, (refl, refl))
    ]
  ]
]

settle_token :
    (r : Bool) (c : Client) (b : Bool)
    → (r ≡ true → b ≡ true)
    → (if r
        then reload (if b then clear_session c else c)
        else (if b then clear_session c else c)).token
      ≡ (if b then none else c.token)
settle_token true c true h = refl
settle_token true c false h = let absurd = h refl in cc
settle_token false c true h = refl
settle_token false c false h = refl

receive-token :
    (c : Client) (path : Text) (a : Answer)
    → (settle (receive c path a)).token ≡ (if a.status === 401 then none else c.token)
receive-token c path a =
    let (client, (reloads, ok)) = receive_cases c path a in
    ap (λ d. (if (receive c path a).reloads then reload d else d).token) client
    ∙ settle_token (receive c path a).reloads c (a.status === 401) (λ h. ground (arith, reloads))

run-token : (c : Client) (is : List Input) → (run c is).token ≡ current c.token is
unfolding step
run-token c [] = refl
run-token c (Input.signed_in token user role ∷ is) = run-token (set_session token user role c) is
run-token c (Input.signed_out ∷ is) = run-token (clear_session c) is
run-token c (Input.answered path a ∷ is) =
    run-token (settle (receive c path a)) is
    ∙ ap (λ token. current token is) (receive-token c path a)
run-token c (Input.reloaded ∷ is) = run-token (reload c) is

abbrev pub bearer : Option Text → Option Text
bearer none = none
bearer (some []) = none
bearer (some (t ∷ token)) = some (codes "Bearer " ++ (t ∷ token))

authorize_bare :
    (token : Option Text)
    → header
        (codes "Authorization")
        (authorize token ((codes "Content-Type", codes "application/json") ∷ []))
      ≡ bearer token
unfolding authorize set_header
authorize_bare none = refl
authorize_bare (some []) = refl
authorize_bare (some (t ∷ token)) = refl

-- A call of the client carries the token of the last sign-in, under the name Authorization, unless
-- a sign-out, a 401 or a reload of the page came after it; then, and before any sign-in, it
-- carries none.
pub req_call-authorization :
    (is : List Input) (path : Text) (method : Method) (body : Option Text)
    → header (codes "Authorization") (req_call (run new_client is) path method [] body).headers
      ≡ bearer (current none is)
unfolding req_call spread
req_call-authorization is path method body =
    authorize_bare (run new_client is).token ∙ ap bearer (run-token new_client is)
