-- ===== src/Seed.antt =====
-- The script that provisions an operator (dashboard/scripts/seed-operator.mjs): its checks, its two
-- writes, and how it ends. The sign-up of better-auth is a reply, and the query succeeds.
pub mod Writes
mod Tests
use sentinel_edr.Common.{
  ℕ, Bool, true, false, not, ◌||◌, Option, none, some, List, [], ◌∷◌, ◌++◌, if◌then◌else◌, contains,
  get_or, find_index, take, length, nat_beq, list_same, nat_same,
}
use sentinel_edr.Common.Text.{Text, codes, to_lower, includes}

pub record Env : Type 0 where
  pub op_email : Option Text
  pub op_pass : Option Text
  pub op_role : Option Text

-- The reply to the sign-up: done, or failed with the text of the error.
pub data SignUp : Type 0 where
  created : SignUp
  failed : Text → SignUp

pub record User : Type 0 where
  pub email : Text
  pub password : Text
  pub name : Text

-- The update of a role.
pub record Update : Type 0 where
  pub email : Text
  pub role : Text

pub record Result : Type 0 where
  pub code : ℕ
  pub sign_ups : List User
  pub updates : List Update

abbrev pub roles : List Text
roles = codes "viewer" ∷ codes "analyst" ∷ codes "admin" ∷ []

-- `(OP_ROLE || "viewer").toLowerCase()`
abbrev pub role_of : Option Text → Text
role_of (some (c ∷ s)) = to_lower (c ∷ s)
role_of _ = codes "viewer"

abbrev exit_1 : List User → Result
exit_1 us = record { code = 1; sign_ups = us; updates = [] }

-- `email.split("@")[0]`
abbrev pub name_of : Text → Text
name_of email = take (get_or (find_index (λ c. nat_beq c b'@') email) (length email)) email

abbrev pub user_of : Text → Text → User
user_of email password = record { email = email; password = password; name = name_of email }

abbrev pub is_taken : Text → Bool
is_taken m =
    includes (codes "exist") m || includes (codes "already") m || includes (codes "unique") m

abbrev with_role : Text → User → Result
with_role role u = record {
  code = 0;
  sign_ups = u ∷ [];
  updates = record { email = u.email; role = role } ∷ [];
}

abbrev pub signed_up : Text → User → SignUp → Result
signed_up role u created = with_role role u
signed_up role u (failed m) = if is_taken (to_lower m) then with_role role u else exit_1 (u ∷ [])

abbrev pub checked : (valid_role : Bool) → Text → User → SignUp → Result
checked true role u reply = signed_up role u reply
checked false role u reply = exit_1 []

-- The script, by the reply to the sign-up that it makes; an empty variable counts as none.
abbrev pub seed_with : Option Text → Option Text → Text → SignUp → Result
seed_with (some (c ∷ e)) (some (d ∷ p)) role reply =
    checked (contains roles role) role (user_of (c ∷ e) (d ∷ p)) reply
seed_with _ _ role reply = exit_1 []

unfoldable pub seed : Env → SignUp → Result
seed env reply = seed_with env.op_email env.op_pass (role_of env.op_role) reply
