-- ===== src/GoClient/Caching.antt =====
-- When the bridge logs in, and how old a token can be that it uses.
use mathlib.Core.List.{Memᴰ}
use sentinel_edr.Common.{
  ◌<◌, ◌≤◌, ◌+◌, ap, sym, ◌∙◌, ◌≡◌, refl, ◌⊎◌, inl, inr, true, Option, none, some, List, [], ◌∷◌,
  arith, All, map, subst, Option-cases, Bool-cases, ltb,
}
use sentinel_edr.Common.Text.{Text}
use sentinel_edr.GoClient.{
  World, Backend, Cached, LoginReply, Thrown, Result, ok, throw, token_life, is_ok, log, login_call,
  log_in, go_token,
}

-- The login request of this call was answered with the token, or with a body that has none.
pub record IssuedBy (w : World) (t : Option Text) : Type 0 where
  pub reply : LoginReply
  pub answered : w.login ≡ some reply
  pub accepted : is_ok reply.status ≡ true
  pub token : reply.json ≡ some t

-- The states that calls of `goToken` reach, with the worlds of those calls, the latest first.
pub data Reach : List World → Backend → Type 0 where
  start : Reach [] (record { cached = none; sent = [] })
  call : {ws : List World} {b : Backend} (w : World) → Reach ws b → Reach (w ∷ ws) (go_token w b).1

-- Where the cached token comes from.
abbrev pub Traced : List World → Cached → Type 0
Traced ws c = (v : World) × Memᴰ v ws × IssuedBy v c.token × (c.exp ≡ v.stored_at + token_life)

log_in-ok :
    (w : World) (b : Backend) {t : Option Text} {b' : Backend}
    → log_in w b ≡ (ok t, b')
    → IssuedBy w t × (b'.cached ≡ some (record { token = t; exp = w.stored_at + token_life }))
unfolding log_in
log_in-ok w b h = elim (Option-cases w.login) [
  | inl e ↦ absurd (ground arith)
  | inr (r, e) ↦ (
    record { reply = r; answered = e; accepted = ground arith; token = ground arith },
    ground arith,
  )
]

log_in-throw :
    (w : World) (b : Backend) {e : Thrown} {b' : Backend}
    → log_in w b ≡ (throw e, b')
    → b' ≡ log (login_call w.config) b
unfolding log_in
log_in-throw w b h = ground arith

-- A call that finds no usable token is a login; one that finds a usable token changes nothing.
go_token-miss :
    (w : World) (b : Backend)
    → ((go_token w b ≡ log_in w b) × ((c : Cached) → b.cached ≡ some c → c.exp ≤ w.checked_at))
      ⊎ ((c : Cached) × (b.cached ≡ some c)
          × (w.checked_at < c.exp)
          × (go_token w b ≡ (ok c.token, b)))
unfolding go_token
go_token-miss w b = elim (Option-cases b.cached) [
  | inl e ↦ inl (rw e, λ c h. cc)
  | inr (c, e) ↦ elim (Bool-cases (ltb w.checked_at c.exp)) [
    | inl fresh ↦ inr (c, e, ground arith, ground arith)
    | inr stale ↦ inl (ground arith, λ d h. ground arith)
  ]
]

Memᴰ-cons : {w : World} {ws : List World} (c : Cached) → Traced ws c → Traced (w ∷ ws) c
Memᴰ-cons c (v, m, i, e) = (v, Memᴰ.tail m, i, e)

Traced-log_in :
    (w : World) (ws : List World) (b : Backend) (c : Cached) (r : Result (Option Text) × Backend)
    → log_in w b ≡ r
    → (b.cached ≡ some c → Traced ws c)
    → r.1.cached ≡ some c
    → Traced (w ∷ ws) c
Traced-log_in w ws b c (ok t, b') e old h =
    let (issued, stored) = log_in-ok w b e in
    let same : record { token = t; exp = w.stored_at + token_life } ≡ c = cc in
    (
      w,
      Memᴰ.head refl,
      subst (λ (x : Cached). IssuedBy w x.token) same issued,
      ap (λ (x : Cached). x.exp) (sym same),
    )
Traced-log_in w ws b c (throw x, b') e old h = Memᴰ-cons c (old (rw (log_in-throw w b e) at h))

-- Every cached token stems from a login of an earlier call, and expires 11 hours after it.
Reach-Traced :
    {ws : List World} {b : Backend} (c : Cached) → Reach ws b → b.cached ≡ some c → Traced ws c
Reach-Traced c start h = cc
Reach-Traced c (call {ws} {b} w r) h = elim (go_token-miss w b) [
  | inl (e, _) ↦ Traced-log_in w ws b c (go_token w b) (sym e) (Reach-Traced c r) h
  | inr (d, cached, fresh, e) ↦ Memᴰ-cons c (Reach-Traced c r (rw e at h))
]

-- In any sequence of calls from the start of the process, a token that `goToken` returns was
-- granted by the control plane in this call, or in an earlier one less than 11 hours ago; and if it
-- returns undefined, that login's reply had no token.
pub go_token_age :
    (ws : List World) (b : Backend) (w : World) (t : Option Text) {b' : Backend}
    → Reach ws b
    → go_token w b ≡ (ok t, b')
    → (v : World) × Memᴰ v (w ∷ ws)
      × IssuedBy v t
      × ((v ≡ w) ⊎ (w.checked_at < v.stored_at + token_life))
go_token_age ws b w t r h = elim (go_token-miss w b) [
  | inl (e, _) ↦ (w, Memᴰ.head refl, (log_in-ok w b (sym e ∙ h)).0, inl refl)
  | inr (c, cached, fresh, e) ↦
      let (v, m, i, exp) = Reach-Traced c r cached in
      let same : c.token ≡ t = cc in (v, Memᴰ.tail m, subst (IssuedBy v) same i, inr (omega arith))
]

-- Calls in turn.
pub run : List World → Backend → List (Result (Option Text)) × Backend
run [] b = ([], b)
run (w ∷ ws) b = let (r, b') = go_token w b in let (rs, b'') = run ws b' in (r ∷ rs, b'')

usable :
    (c : Cached) (ws : List World) (b : Backend)
    → b.cached ≡ some c
    → All (λ w. w.checked_at < c.exp) ws
    → run ws b ≡ (map (λ _. ok c.token) ws, b)
unfolding run go_token
usable c [] b e h = refl
usable c (w ∷ ws) b e h = ground (arith, usable c ws b e h.1)

-- Once a call has returned a token, every call before the token's expiry returns it again, and
-- sends nothing: of all calls between a login and its expiry one request reaches the control plane.
pub go_token_once :
    (w : World) (b : Backend) (t : Option Text) {b' : Backend}
    → go_token w b ≡ (ok t, b')
    → (c : Cached) × (b'.cached ≡ some c)
      × (c.token ≡ t)
      × ((ws : List World)
          → All (λ v. v.checked_at < c.exp) ws
          → run ws b' ≡ (map (λ _. ok t) ws, b'))
go_token_once w b t {b'} h = elim (go_token-miss w b) [
  | inl (e, _) ↦
      let c : Cached = record { token = t; exp = w.stored_at + token_life } in
      let stored = (log_in-ok w b (sym e ∙ h)).1 in
      (c, stored, refl, λ ws early. usable c ws b' stored early)
  | inr (c, cached, fresh, e) ↦
      let same : c.token ≡ t = cc in
      let kept : b'.cached ≡ some c = cc in
      (c, kept, same, λ ws early. rw (← same) (usable c ws b' kept early))
]

-- A call that throws has sent exactly the login request and has cached nothing.
pub go_token_failure :
    (w : World) (b : Backend) (x : Thrown) {b' : Backend}
    → go_token w b ≡ (throw x, b')
    → b' ≡ log (login_call w.config) b
go_token_failure w b x h = elim (go_token-miss w b) [
  | inl (e, _) ↦ log_in-throw w b (sym e ∙ h)
  | inr (c, cached, fresh, e) ↦ cc
]
