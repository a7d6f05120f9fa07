-- ===== src/Bff/Roles.antt =====
-- Who gets through the proxy: the roles of its sessions, on each of the three handlers.
use sentinel_edr.Common.{
  ◌≡◌, refl, ℕ, true, false, arith, Bool-cases, inl, inr, ◌⊎◌, ◌↔◌, none, some, Option-cases,
  list_same, nat_same,
}
use sentinel_edr.Common.Text.{Text, codes}
use sentinel_edr.GoClient.{Backend, HttpReply, ok, M, ◌>>=◌, pure}
use sentinel_edr.Bff.{
  allowed, operator_role, valid_path, Request, Response, refuse, or_forward, passthrough, plain,
  forbidden,
}

abbrev pub admin : Text
admin = codes "admin"

abbrev pub analyst : Text
analyst = codes "analyst"

abbrev pub viewer : Text
viewer = codes "viewer"

module _ (role : Text) where
  pub allowed-admin : (allowed (some role) admin ≡ true) ↔ (role ≡ admin)
  unfolding allowed
  allowed-admin = ground (
    arith,
    list_same.same_iff role admin,
    list_same.same_iff role analyst,
    list_same.same_iff role viewer,
  )

  pub allowed-analyst : (allowed (some role) analyst ≡ true) ↔ ((role ≡ admin) ⊎ (role ≡ analyst))
  unfolding allowed
  allowed-analyst = ground (
    arith,
    list_same.same_iff role admin,
    list_same.same_iff role analyst,
    list_same.same_iff role viewer,
  )

  pub allowed-viewer :
      (allowed (some role) viewer ≡ true) ↔ ((role ≡ admin) ⊎ ((role ≡ analyst) ⊎ (role ≡ viewer)))
  unfolding allowed
  allowed-viewer = ground (
    arith,
    list_same.same_iff role admin,
    list_same.same_iff role analyst,
    list_same.same_iff role viewer,
  )

-- The request has a valid path, and a session whose role may do what it asks.
abbrev pub Access : (Text → Type 0) → Request → Type 0
Access may req =
    (role : Text) × (valid_path req.path ≡ true)
    × (operator_role req.session ≡ some role)
    × may role

-- Why a call ends with a status: the first check that fails decides it.
pub data Refused (may : Text → Type 0) (req : Request) (status : ℕ) : Type 0 where
  bad_path : status ≡ 400 → valid_path req.path ≡ false → Refused may req status
  no_session :
      status ≡ 401
      → valid_path req.path ≡ true
      → operator_role req.session ≡ none
      → Refused may req status
  low_role :
      (role : Text)
      → status ≡ 403
      → valid_path req.path ≡ true
      → operator_role req.session ≡ some role
      → ¬ may role
      → Refused may req status

-- What a handler does: with access it sends the call on; without, it answers 400, 401 or 403 and
-- touches neither the control plane nor the cached token.
abbrev pub Decides : (Text → Type 0) → Request → M Response → M Response → Backend → Type 0
Decides may req handler forward b =
    (Access may req × (handler b ≡ forward b))
    ⊎ ((r : Response) × (handler b ≡ (ok r, b)) × Refused may req r.status)

abbrev pub forward : M HttpReply → M Response
forward fetch = do r ← fetch; pure (passthrough r)

abbrev Allowed : Text → Text → Type 0
Allowed min role = allowed (some role) min ≡ true

refuse_cases :
    (req : Request) (min : Text)
    → ((refuse req min ≡ none) × Access (Allowed min) req)
      ⊎ ((r : Response) × (refuse req min ≡ some r) × Refused (Allowed min) req r.status)
unfolding refuse
refuse_cases req min = elim (Bool-cases (valid_path req.path)) [
  | inr bad ↦ inr (plain 400 (codes "bad request"), ground arith, bad_path refl bad)
  | inl good ↦ elim (Option-cases (operator_role req.session)) [
    | inl out ↦ inr (plain 401 (codes "unauthorized"), ground arith, no_session refl good out)
    | inr (role, signed) ↦ elim (Bool-cases (allowed (some role) min)) [
      | inl may ↦ inl (ground arith, (role, good, signed, may))
      | inr not_may ↦ inr (forbidden min, ground arith, low_role role refl good signed (λ may. cc))
    ]
  ]
]

Refused-of :
    {may may' : Text → Type 0} {req : Request} {status : ℕ}
    → ((role : Text) → valid_path req.path ≡ true → may' role → may role)
    → Refused may req status
    → Refused may' req status
Refused-of f (bad_path e h) = bad_path e h
Refused-of f (no_session e v h) = no_session e v h
Refused-of f (low_role role e v h n) = low_role role e v h (λ m. n (f role v m))

pub refuse-Decides :
    (req : Request) (min : Text) (may : Text → Type 0) (fetch : M HttpReply) (b : Backend)
    → ((role : Text) → valid_path req.path ≡ true → (allowed (some role) min ≡ true) ↔ may role)
    → Decides may req (or_forward (refuse req min) fetch) (forward fetch) b
refuse-Decides req min may fetch b iff = elim (refuse_cases req min) [
  | inl (e, (role, v, s, a)) ↦ inl ((role, v, s, (iff role v).0 a), rw e)
  | inr (r, e, why) ↦ inr (r, rw e, Refused-of (λ role v m. (iff role v).1 m) why)
]
