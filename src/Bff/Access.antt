-- ===== src/Bff/Access.antt =====
-- Who gets what through the proxy, handler by handler.
use sentinel_edr.Common.{◌≡◌, true, List, [], some, inl, inr, ◌⊎◌, ◌↔◌, arith, none}
use sentinel_edr.Common.Text.{Text}
use sentinel_edr.GoClient.{Backend, World, go_fetch, no_init, text}
use sentinel_edr.Bff.{
  allowed, valid_path, get_min_role, write_min_role, Request, target, get, post, delete,
}
use sentinel_edr.Bff.Roles.{
  admin, analyst, viewer, allowed-admin, allowed-analyst, allowed-viewer, Decides, forward,
  refuse-Decides,
}
use sentinel_edr.Bff.Routes.{AdminRoute, write_min_role-admin_iff}
use sentinel_edr.Bff.Exports.{SiemRoute, get_min_role_cases}

-- Who may write to a path: an admin, and on all but the admin routes an analyst.
abbrev pub MayWrite : List Text → Text → Type 0
MayWrite path role = (role ≡ admin) ⊎ ((role ≡ analyst) × (¬ AdminRoute path))

-- Who may read a path: all three roles, but the SIEM exports no viewer.
abbrev pub MayRead : List Text → Text → Type 0
MayRead path role = (role ≡ admin) ⊎ ((role ≡ analyst) ⊎ ((role ≡ viewer) × (¬ SiemRoute path)))

abbrev pub MayDelete : Text → Type 0
MayDelete role = (role ≡ admin) ⊎ (role ≡ analyst)

write_min_role-cases :
    (path : List Text) → (write_min_role path ≡ admin) ⊎ ((write_min_role path ≡ analyst))
unfolding write_min_role
write_min_role-cases path = ground arith

allowed_write :
    (path : List Text) (role : Text)
    → valid_path path ≡ true
    → (allowed (some role) (write_min_role path) ≡ true) ↔ MayWrite path role
allowed_write path role v = elim (write_min_role-cases path) [
  | inl e ↦
      let route = (write_min_role-admin_iff path v).0 e in
      rw e ((λ h. inl ((allowed-admin role).0 h)), λ m. (allowed-admin role).1 (only_admin route m))
  | inr e ↦ rw e (
    (λ h. elim ((allowed-analyst role).0 h) [
      | inl a ↦ inl a
      | inr b ↦ inr (b, λ r. absurd (differ e r))
    ]),
    λ m. (allowed-analyst role).1 (elim m [ inl a ↦ inl a | inr (b, _) ↦ inr b ]),
  )
]
  where
    only_admin : AdminRoute path → MayWrite path role → role ≡ admin
    only_admin r (inl a) = a
    only_admin r (inr (_, other)) = absurd (other r)

    differ : write_min_role path ≡ analyst → AdminRoute path → ⊥
    differ e r = let x = (write_min_role-admin_iff path v).1 r in cc

allowed_read :
    (path : List Text) (role : Text)
    → valid_path path ≡ true
    → (allowed (some role) (get_min_role path) ≡ true) ↔ MayRead path role
allowed_read path role v = elim (get_min_role_cases path v) [
  | inl (e, siem) ↦ rw e (
    (λ h. elim ((allowed-analyst role).0 h) [ inl a ↦ inl a | inr b ↦ inr (inl b) ]),
    λ m. (allowed-analyst role).1 (elim m [
      | inl a ↦ inl a
      | inr (inl b) ↦ inr b
      | inr (inr (_, other)) ↦ absurd (other siem)
    ]),
  )
  | inr (e, other) ↦ rw e (
    (λ h. elim ((allowed-viewer role).0 h) [
      | inl a ↦ inl a
      | inr (inl b) ↦ inr (inl b)
      | inr (inr c) ↦ inr (inr (c, other))
    ]),
    λ m.
        (allowed-viewer role).1
          (elim m [ inl a ↦ inl a | inr (inl b) ↦ inr (inl b) | inr (inr (c, _)) ↦ inr (inr c) ]),
  )
]

module _ (w : World) (req : Request) (b : Backend) where
  -- POST: the call goes on exactly for a valid path and a session that may write to it; an admin
  -- route wants an admin. Any other call is answered 400, 401 or 403 and changes nothing.
  pub post_access :
      Decides
        (MayWrite req.path)
        req
        (post w req)
        (forward (
          go_fetch w
            (target req)
            (record { method = some "POST"; headers = []; body = some (text req.body) })))
        b
  unfolding post
  post_access =
      refuse-Decides req (write_min_role req.path) (MayWrite req.path) _ b (allowed_write req.path)

  -- GET: the call goes on exactly for a valid path and a session of one of the three roles; the
  -- SIEM exports want more than a viewer. Any other call is refused and changes nothing.
  pub get_access :
      Decides (MayRead req.path) req (get w req) (forward (go_fetch w (target req) no_init)) b
  unfolding get
  get_access =
      refuse-Decides req (get_min_role req.path) (MayRead req.path) _ b (allowed_read req.path)

  -- DELETE: the call goes on exactly for a valid path and an analyst's or an admin's session, on
  -- every path. Any other call is refused and changes nothing.
  pub delete_access :
      Decides MayDelete req
        (delete w req)
        (forward
          (go_fetch w (target req) (record { method = some "DELETE"; headers = []; body = none })))
        b
  unfolding delete
  delete_access = refuse-Decides req analyst MayDelete _ b (λ role v. allowed-analyst role)
