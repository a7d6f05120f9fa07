-- ===== src/Bff/RoleMap.antt =====
-- The proxy's minimum roles against the role map of the Go API (server/internal/api/api.go).
use mathlib.Core.List.{Memᴰ}
use sentinel_edr.Common.{◌≡◌, refl, true, List, [], ◌∷◌, All, All-mem}
use sentinel_edr.Common.Text.{Text, codes}
use sentinel_edr.Bff.{segment_re, get_min_role, write_min_role}
use sentinel_edr.Bff.Paths.{IsPlainSegment, segment_re-IsPlainSegment}
use sentinel_edr.Bff.Routes.{agents_re_complete, rules_re_complete}

pub data Method : Type 0 where
  get post delete : Method

pub data Role : Type 0 where
  viewer analyst admin : Role

-- A segment of a route pattern: a word, or `{id}`.
pub data Segment : Type 0 where
  word : Text → Segment
  id : Segment

pub record Route : Type 0 where
  pub method : Method
  pub pattern : List Segment
  pub role : Role

abbrev route : Method → List Segment → Role → Route
route m p r = record { method = m; pattern = p; role = r }

abbrev one : Text → List Segment
one w = word w ∷ []

abbrev of_id : Text → List Segment
of_id w = word w ∷ id ∷ []

abbrev two : Text → Text → List Segment
two v w = word v ∷ word w ∷ []

abbrev action : Text → Text → List Segment
action w a = word w ∷ id ∷ word a ∷ []

-- Every route under /api/v1 that the Go server guards by a role.
abbrev pub console_routes : List Route
console_routes =
    route get (one (codes "agents")) viewer
    ∷ route get (of_id (codes "agents")) viewer
    ∷ route get (one (codes "events")) viewer
    ∷ route get (one (codes "detections")) viewer
    ∷ route get (one (codes "responses")) viewer
    ∷ route get (one (codes "rules")) viewer
    ∷ route get (one (codes "cases")) viewer
    ∷ route get (of_id (codes "cases")) viewer
    ∷ route get (one (codes "suppressions")) viewer
    ∷ route get (two (codes "dlp") (codes "policies")) viewer
    ∷ route get (two (codes "dlp") (codes "classifiers")) viewer
    ∷ route get (two (codes "stats") (codes "overview")) viewer
    ∷ route get (two (codes "siem") (codes "export")) analyst
    ∷ route post (action (codes "detections") (codes "status")) analyst
    ∷ route post (action (codes "detections") (codes "triage")) analyst
    ∷ route post (one (codes "respond")) analyst
    ∷ route post (action (codes "agents") (codes "policy")) admin
    ∷ route post (action (codes "agents") (codes "upgrade")) admin
    ∷ route post (one (codes "cases")) analyst
    ∷ route post (of_id (codes "cases")) analyst
    ∷ route post (action (codes "cases") (codes "notes")) analyst
    ∷ route post (one (codes "suppressions")) analyst
    ∷ route delete (of_id (codes "suppressions")) analyst
    ∷ route post (action (codes "rules") (codes "toggle")) admin
    ∷ []

abbrev pub role_text : Role → Text
role_text viewer = codes "viewer"
role_text analyst = codes "analyst"
role_text admin = codes "admin"

abbrev fill : Text → Segment → Text
fill i (word w) = w
fill i id = i

-- The path of a route at an id.
abbrev pub path_of : Text → List Segment → List Text
path_of i [] = []
path_of i (s ∷ ss) = fill i s ∷ path_of i ss

-- The minimum role that each handler of the proxy asks for.
abbrev pub min_role : Method → List Text → Text
min_role get path = get_min_role path
min_role post path = write_min_role path
min_role delete path = codes "analyst"

abbrev Agrees : Text → Route → Type 0
Agrees i r = min_role r.method (path_of i r.pattern) ≡ role_text r.role

module _ (i : Text) (p : IsPlainSegment i) where
  post_policy : Agrees i (route post (action (codes "agents") (codes "policy")) admin)
  unfolding write_min_role
  post_policy = rw (agents_re_complete i p (codes "policy") refl)

  post_upgrade : Agrees i (route post (action (codes "agents") (codes "upgrade")) admin)
  unfolding write_min_role
  post_upgrade = rw (agents_re_complete i p (codes "upgrade") refl)

  post_toggle : Agrees i (route post (action (codes "rules") (codes "toggle")) admin)
  unfolding write_min_role
  post_toggle = rw (rules_re_complete i p)

  All-agree : All (Agrees i) console_routes
  unfolding get_min_role write_min_role
  All-agree = (
    refl,
    (
      refl,
      (
        refl,
        (
          refl,
          (
            refl,
            (
              refl,
              (
                refl,
                (
                  refl,
                  (
                    refl,
                    (
                      refl,
                      (
                        refl,
                        (
                          refl,
                          (
                            refl,
                            (
                              refl,
                              (
                                refl,
                                (
                                  refl,
                                  (
                                    post_policy,
                                    (
                                      post_upgrade,
                                      (refl, (refl, (refl, (refl, (refl, (post_toggle, tt)))))),
                                    ),
                                  ),
                                ),
                              ),
                            ),
                          ),
                        ),
                      ),
                    ),
                  ),
                ),
              ),
            ),
          ),
        ),
      ),
    ),
  )

-- The proxy asks for exactly the role that the Go API asks for, on every guarded route and for
-- every id that is one plain segment.
pub role_map_agrees :
    (r : Route) (i : Text)
    → Memᴰ r console_routes
    → segment_re i ≡ true
    → min_role r.method (path_of i r.pattern) ≡ role_text r.role
role_map_agrees r i m h =
    All-mem (Agrees i) console_routes (All-agree i (segment_re-IsPlainSegment i h)) m
