-- ===== src/Seed/Writes.antt =====
-- What the script leaves, however it ends.
use sentinel_edr.Common.{
  ◌≡◌, refl, Bool, true, false, ◌⊎◌, inl, inr, Option, none, some, [], ◌∷◌, contains, Bool-cases,
  list_same, nat_same,
}
use sentinel_edr.Common.Text.{Text, to_lower}
use sentinel_edr.Seed.{
  Env, SignUp, created, failed, User, Result, roles, role_of, user_of, is_taken, signed_up, checked,
  seed_with, seed,
}

-- The script failed and no role was set, or it ended well: the operator was signed up and has the
-- role, one of the three.
abbrev pub IsSettled : Text → Result → Type 0
IsSettled role r =
    ((r.code ≡ 1) × (r.updates ≡ []))
    ⊎ ((u : User) × (r.code ≡ 0)
        × (r.sign_ups ≡ u ∷ [])
        × (r.updates ≡ record { email = u.email; role = role } ∷ [])
        × (contains roles role ≡ true))

signed_up-IsSettled :
    (role : Text) (u : User) (reply : SignUp)
    → contains roles role ≡ true
    → IsSettled role (signed_up role u reply)
signed_up-IsSettled role u created h = inr (u, refl, refl, refl, h)
signed_up-IsSettled role u (failed m) h = elim (Bool-cases (is_taken (to_lower m))) [
  | inl e ↦ rw e (inr (u, refl, refl, refl, h))
  | inr e ↦ rw e (inl (refl, refl))
]

checked-IsSettled :
    (b : Bool) (role : Text) (u : User) (reply : SignUp)
    → contains roles role ≡ b
    → IsSettled role (checked b role u reply)
checked-IsSettled true role u reply h = signed_up-IsSettled role u reply h
checked-IsSettled false role u reply h = inl (refl, refl)

seed_with-IsSettled :
    (email password : Option Text) (role : Text) (reply : SignUp)
    → IsSettled role (seed_with email password role reply)
seed_with-IsSettled (some (c ∷ e)) (some (d ∷ p)) role reply =
    checked-IsSettled (contains roles role) role (user_of (c ∷ e) (d ∷ p)) reply refl
seed_with-IsSettled none password role reply = inl (refl, refl)
seed_with-IsSettled (some []) password role reply = inl (refl, refl)
seed_with-IsSettled (some (c ∷ e)) none role reply = inl (refl, refl)
seed_with-IsSettled (some (c ∷ e)) (some []) role reply = inl (refl, refl)

-- For every environment and every reply to the sign-up, the script fails and sets no role, or it
-- sets a role that is one of the three, for the operator that it signed up or found there.
pub seed-IsSettled : (env : Env) (reply : SignUp) → IsSettled (role_of env.op_role) (seed env reply)
unfolding seed
seed-IsSettled env reply = seed_with-IsSettled env.op_email env.op_pass (role_of env.op_role) reply
