-- ===== src/Session/Routes.antt =====
-- The calls of the API client against the guarded routes of the Go server.
use mathlib.Core.List.{Memᴰ}
use sentinel_edr.Common.{
  ℕ, ◌≡◌, refl, Bool, true, false, some, List, [], ◌∷◌, ◌++◌, ◌∙◌, append-nil, ap, sym, any, All,
  any-append, ◌||◌, if◌then◌else◌, nat_beq, arith,
}
use sentinel_edr.Common.Text.{Text, codes, join, split, split-join}
use sentinel_edr.Bff.{valid_path, segment_re}
use sentinel_edr.Bff.Paths.{IsPlainChar, IsPlainSegment, valid_path-IsPlain, valid_path-Lacks}
use sentinel_edr.Bff.RoleMap.{Route, console_routes, path_of}
use sentinel_edr.Bff.RoleMap
use sentinel_edr.Calls.{ResponseArgs}
use sentinel_edr.Calls.Routes.{route_at, route_at-Mem, valid_item, valid_action}
use sentinel_edr.Session.{Method}
use sentinel_edr.Session.Endpoints.{Request, NewCase, CaseChange}
use sentinel_edr.Session.Endpoints

-- Every call of the `api` object but the login, with what it takes besides an id.
pub data Endpoint : Type 0 where
  overview agents agent responses rules dlp_policies dlp_classifiers triage case_detail : Endpoint
  events detections cases set_status add_note : Text → Endpoint
  respond : ResponseArgs → Endpoint
  create : NewCase → Endpoint
  update : CaseChange → Endpoint

abbrev pub request : Text → Endpoint → Request
request id Endpoint.overview = Endpoints.overview
request id Endpoint.agents = Endpoints.agents
request id Endpoint.agent = Endpoints.agent id
request id Endpoint.responses = Endpoints.responses
request id Endpoint.rules = Endpoints.rules
request id Endpoint.dlp_policies = Endpoints.dlp_policies
request id Endpoint.dlp_classifiers = Endpoints.dlp_classifiers
request id Endpoint.triage = Endpoints.triage_detection id
request id Endpoint.case_detail = Endpoints.case_detail id
request id (Endpoint.events q) = Endpoints.events q
request id (Endpoint.detections q) = Endpoints.detections q
request id (Endpoint.cases q) = Endpoints.cases q
request id (Endpoint.set_status s) = Endpoints.set_detection_status id s
request id (Endpoint.add_note b) = Endpoints.add_case_note id b
request id (Endpoint.respond a) = Endpoints.respond a
request id (Endpoint.create c) = Endpoints.create_case c
request id (Endpoint.update c) = Endpoints.update_case id c

abbrev pub query_of : Endpoint → Text
query_of (Endpoint.events q) = codes "?" ++ q
query_of (Endpoint.detections q) = codes "?" ++ q
query_of (Endpoint.cases q) = codes "?" ++ q
query_of _ = []

-- The number of the route, among the guarded ones.
abbrev pub place_of : Endpoint → ℕ
place_of Endpoint.agents = 0
place_of Endpoint.agent = 1
place_of (Endpoint.events q) = 2
place_of (Endpoint.detections q) = 3
place_of Endpoint.responses = 4
place_of Endpoint.rules = 5
place_of (Endpoint.cases q) = 6
place_of Endpoint.case_detail = 7
place_of Endpoint.dlp_policies = 9
place_of Endpoint.dlp_classifiers = 10
place_of Endpoint.overview = 11
place_of (Endpoint.set_status s) = 13
place_of Endpoint.triage = 14
place_of (Endpoint.respond a) = 15
place_of (Endpoint.create c) = 18
place_of (Endpoint.update c) = 19
place_of (Endpoint.add_note b) = 20

abbrev pub as_method : Method → RoleMap.Method
as_method Method.get = RoleMap.Method.get
as_method Method.post = RoleMap.Method.post

-- What a server reads as the path: all before the first question mark.
abbrev pub before_query : Text → Text
before_query [] = []
before_query (c ∷ s) = let rest = before_query s in if nat_beq c b'?' then [] else c ∷ rest

abbrev marked : Text → Bool
marked s = any (λ c. nat_beq c b'?') s

before_query_unmarked : (s : Text) → marked s ≡ false → before_query s ≡ s
before_query_unmarked [] h = refl
before_query_unmarked (c ∷ s) h = ground (arith, before_query_unmarked s)

plain_unmarked : (s : Text) → All IsPlainChar s → marked s ≡ false
plain_unmarked [] h = refl
plain_unmarked (c ∷ s) h = let (_, _, _, n, _, _) = h.0 in ground (arith, plain_unmarked s h.1)

join_unmarked :
    (p : Text) (ps : List Text)
    → All IsPlainSegment (p ∷ ps)
    → marked (join (codes "/") (p ∷ ps)) ≡ false
join_unmarked p [] h = plain_unmarked p h.0.1
join_unmarked p (q ∷ ps) h =
    any-append (λ c. nat_beq c b'?') p (b'/' ∷ join (codes "/") (q ∷ ps))
    ∙ ap (λ b. b || marked (b'/' ∷ join (codes "/") (q ∷ ps))) (plain_unmarked p h.0.1)
    ∙ join_unmarked q ps h.1

-- The request has the route's method. Its path, read before the query and split at the slashes, is
-- "", "api", "v1" and the route's pattern with the id in its place; the query is what follows.
abbrev pub Reaches : Text → Endpoint → Route → Type 0
Reaches id e r =
    (r.method ≡ as_method (request id e).method)
    × (split b'/' (before_query (request id e).path)
        ≡ [] ∷ codes "api" ∷ codes "v1" ∷ path_of id r.pattern)
    × ((request id e).path ≡ before_query (request id e).path ++ query_of e)

abbrev url : Text → List Text → Text
url p ps = codes "/api/v1/" ++ join (codes "/") (p ∷ ps)

plain_url :
    (p : Text) (ps : List Text)
    → valid_path (p ∷ ps) ≡ true
    → (split b'/' (before_query (url p ps)) ≡ [] ∷ codes "api" ∷ codes "v1" ∷ p ∷ ps)
      × (url p ps ≡ before_query (url p ps) ++ [])
plain_url p ps v =
    let whole : before_query (url p ps) ≡ url p ps =
      before_query_unmarked (url p ps) (join_unmarked p ps (valid_path-IsPlain (p ∷ ps) v)) in
    (
      ap (split b'/') whole ∙ rw (split-join b'/' p ps (valid_path-Lacks (p ∷ ps) v)) refl,
      sym (append-nil (before_query (url p ps)) ∙ whole),
    )

reaches :
    (id : Text) (e : Endpoint)
    → segment_re id ≡ true
    → (r : Route) × (route_at (place_of e) console_routes ≡ some r) × Reaches id e r
unfolding Endpoints.overview Endpoints.agents Endpoints.agent Endpoints.events Endpoints.detections
    Endpoints.responses Endpoints.rules Endpoints.dlp_policies Endpoints.dlp_classifiers
    Endpoints.set_detection_status Endpoints.triage_detection Endpoints.respond Endpoints.cases
    Endpoints.case_detail Endpoints.create_case Endpoints.update_case Endpoints.add_case_note
    segment_re
reaches id Endpoint.overview plain = (_, refl, (refl, refl, refl))
reaches id Endpoint.agents plain = (_, refl, (refl, refl, refl))
reaches id Endpoint.agent plain =
    let (s, q) = plain_url (codes "agents") _ (valid_item id plain (codes "agents") refl) in
    (_, refl, (refl, s, q))
reaches id Endpoint.responses plain = (_, refl, (refl, refl, refl))
reaches id Endpoint.rules plain = (_, refl, (refl, refl, refl))
reaches id Endpoint.dlp_policies plain = (_, refl, (refl, refl, refl))
reaches id Endpoint.dlp_classifiers plain = (_, refl, (refl, refl, refl))
reaches id Endpoint.triage plain =
    let (s, q) =
      plain_url (codes "detections") _
        (valid_action id plain (codes "detections") (codes "triage") refl refl) in
    (_, refl, (refl, s, q))
reaches id Endpoint.case_detail plain =
    let (s, q) = plain_url (codes "cases") _ (valid_item id plain (codes "cases") refl) in
    (_, refl, (refl, s, q))
reaches id (Endpoint.events q) plain = (_, refl, (refl, refl, refl))
reaches id (Endpoint.detections q) plain = (_, refl, (refl, refl, refl))
reaches id (Endpoint.cases q) plain = (_, refl, (refl, refl, refl))
reaches id (Endpoint.set_status t) plain =
    let (s, q) =
      plain_url (codes "detections") _
        (valid_action id plain (codes "detections") (codes "status") refl refl) in
    (_, refl, (refl, s, q))
reaches id (Endpoint.add_note b) plain =
    let (s, q) =
      plain_url (codes "cases") _
        (valid_action id plain (codes "cases") (codes "notes") refl refl) in
    (_, refl, (refl, s, q))
reaches id (Endpoint.respond a) plain = (_, refl, (refl, refl, refl))
reaches id (Endpoint.create c) plain = (_, refl, (refl, refl, refl))
reaches id (Endpoint.update c) plain =
    let (s, q) = plain_url (codes "cases") _ (valid_item id plain (codes "cases") refl) in
    (_, refl, (refl, s, q))

-- Every call of the `api` object but the login, for an id that is one plain segment, is one that a
-- guarded route of the Go server takes: it has the route's method; and its path, read up to the
-- first question mark and split at the slashes, is "", "api", "v1" and the route's pattern with the
-- id in its place. What follows is the call's query.
pub request-Reaches :
    (id : Text) (e : Endpoint)
    → segment_re id ≡ true
    → (r : Route) × Memᴰ r console_routes × Reaches id e r
request-Reaches id e plain =
    let (r, place, reached) = reaches id e plain in
    (r, route_at-Mem (place_of e) console_routes r place, reached)
