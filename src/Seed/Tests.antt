-- ===== src/Seed/Tests.antt =====
-- The script at concrete environments.
use sentinel_edr.Common.{◌≡◌, refl, some, [], ◌∷◌}
use sentinel_edr.Common.Text.{codes}
use sentinel_edr.Seed.{Env, created, failed, seed, name_of}

abbrev env : Env
env = record {
  op_email = some (codes "ana@example.com");
  op_pass = some (codes "a-strong-passphrase");
  op_role = some (codes "Analyst");
}

-- An operator that is there already gets the role.
raised :
    (seed env (failed (codes "User already exists"))).updates
    ≡ record { email = codes "ana@example.com"; role = codes "analyst" } ∷ []
unfolding seed
raised = refl

-- A role that is none of the three ends the script before the sign-up.
odd_role : (seed (record env { op_role = some (codes "root") }) created).sign_ups ≡ []
unfolding seed
odd_role = refl

ana : name_of (codes "ana@example.com") ≡ codes "ana"
ana = refl
