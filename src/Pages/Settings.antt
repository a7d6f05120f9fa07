-- ===== src/Pages/Settings.antt =====
-- dashboard/app/(app)/settings/page.tsx: the exports, the enrolment commands and how they are
-- copied, and the change of the password. `message` is the text of an exception of the browser, and
-- the reply of the authentication service is a parameter.
use sentinel_edr.Common.{
  ℕ, Bool, true, false, not, ◌&&◌, Option, none, some, List, [], ◌∷◌, ◌++◌, length, if◌then◌else◌,
  ltb, nat_beq,
}
use sentinel_edr.Common.Text.{Text, codes, decimal, is_space, starts_with}
use sentinel_edr.Calls.{
  Fetched, failed, replied, is_ok, Effect, success, error, close_form, or_text,
}

-- The path of an export, below the proxy.
unfoldable pub export_path : Text → Text → Text
export_path kind format = codes "siem/export?kind=" ++ (kind ++ (codes "&format=" ++ format))

abbrev pub export_failed : Text → Effect
export_failed message = error (codes "Export failed: " ++ message)

-- What `download` says. The file is saved where the body can be read.
unfoldable pub download : Text → Text → Fetched → Effect
download message filename failed = export_failed message
download message filename (replied r) =
    if not (is_ok r.status)
    then export_failed (codes "HTTP " ++ decimal r.status)
    else elim r.text [
      | none ↦ export_failed message
      | some body ↦ success (codes "Exported " ++ filename)
    ]

-- `origin || "https://<your-console>"`
unfoldable pub server : Text → Text
server origin = or_text origin (codes "https://<your-console>")

abbrev pub newline : ℕ
newline = 10

abbrev pub backslash : ℕ
backslash = 92

-- Lines, each of which but the last ends in a backslash.
abbrev pub continued : List Text → Text
continued [] = []
continued (l ∷ []) = l
continued (l ∷ m ∷ ls) = l ++ backslash ∷ newline ∷ continued (m ∷ ls)

abbrev pub quick_lines : Text → List Text
quick_lines s =
    (codes "curl -fsSL " ++ (s ++ codes "/install-agent.sh | sudo "))
    ∷ (codes "  SENTINEL_SERVER=" ++ (s ++ codes " "))
    ∷ codes "  SENTINEL_ENROLL_TOKEN=<ENROLL_TOKEN> "
    ∷ codes "  SENTINEL_REQUIRE_CHECKSUM=1 SENTINEL_REQUIRE_SIGNATURE=1 bash"
    ∷ []

abbrev pub docker_lines : Text → List Text
docker_lines s =
    codes "docker run -d --name sentinel-agent --restart unless-stopped "
    ∷ codes "  --pid host --cap-add NET_ADMIN "
    ∷ (codes "  -e SENTINEL_SERVER=" ++ (s ++ codes " "))
    ∷ codes "  -e SENTINEL_ENROLL_TOKEN=<ENROLL_TOKEN> "
    ∷ codes "  sentinel/agent:latest"
    ∷ []

unfoldable pub quick : Text → Text
quick s = continued (quick_lines s)

unfoldable pub docker : Text → Text
docker s = continued (docker_lines s)

-- `cmd.replace(/\\\n\s*/g, " ")`: `skip` is true within the white space after a continuation, to
-- which the newline itself belongs.
unfoldable pub one_line : Bool → Text → Text
one_line skip [] = []
one_line skip (c ∷ s) =
    let skipped = one_line true s in
    let kept = one_line false s in
    if skip && is_space c
    then skipped
    else if nat_beq c backslash && starts_with (newline ∷ []) s
    then 32 ∷ skipped
    else c ∷ kept

-- The change of the password.
pub data Submitted : Type 0 where
  -- shown, and not sent
  refused : Text → Submitted
  -- the two fields; other sessions are revoked
  sent : Text → Text → Submitted

unfoldable pub submit : Text → Text → Submitted
submit current next =
    if ltb (length next) 8
    then refused (codes "New password must be ≥ 8 characters")
    else sent current next

-- The reply: `some message` is an error, with an empty message where it has none. A success empties
-- both fields.
unfoldable pub answered : Option Text → List Effect
answered none = success (codes "Password updated · other sessions revoked") ∷ close_form ∷ []
answered (some message) = error (or_text message (codes "Could not change password")) ∷ []
