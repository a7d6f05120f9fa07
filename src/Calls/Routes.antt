-- ===== src/Calls/Routes.antt =====
-- The console's writes against the proxy's path check and the role map of the Go API.
use mathlib.Core.List.{Memᴰ}
use sentinel_edr.Common.{
  ℕ, zero, suc, ◌≡◌, refl, true, Option, none, some, List, [], ◌∷◌, arith, ap, ◌∙◌,
}
use sentinel_edr.Common.Text.{Text, codes, split, join, split-join}
use sentinel_edr.Bff.{valid_path, segment_re}
use sentinel_edr.Bff.Paths.{valid_path-Lacks}
use sentinel_edr.Bff.RoleMap.{
  Method, Route, console_routes, role_text, path_of, min_role, role_map_agrees,
}
use sentinel_edr.Calls.{
  status_path, triage_path, case_path, notes_path, toggle_path, policy_path, upgrade_path,
  suppression_path,
}

-- The writes of the pages and panels, with the id of what they change.
pub data Write : Type 0 where
  set_status triage update_case add_note toggle_rule push_policy upgrade lift_suppression : Write
  open_case suppress issue_response : Write

abbrev pub method_of : Write → Method
method_of Write.lift_suppression = Method.delete
method_of _ = Method.post

abbrev pub path_to : Write → Text → Text
path_to Write.set_status id = status_path id
path_to Write.triage id = triage_path id
path_to Write.update_case id = case_path id
path_to Write.add_note id = notes_path id
path_to Write.toggle_rule id = toggle_path id
path_to Write.push_policy id = policy_path id
path_to Write.upgrade id = upgrade_path id
path_to Write.lift_suppression id = suppression_path id
path_to Write.open_case id = codes "cases"
path_to Write.suppress id = codes "suppressions"
path_to Write.issue_response id = codes "respond"

-- The number of the Go route, among the guarded ones, that serves a write.
abbrev pub place_of : Write → ℕ
place_of Write.set_status = 13
place_of Write.triage = 14
place_of Write.issue_response = 15
place_of Write.push_policy = 16
place_of Write.upgrade = 17
place_of Write.open_case = 18
place_of Write.update_case = 19
place_of Write.add_note = 20
place_of Write.suppress = 21
place_of Write.lift_suppression = 22
place_of Write.toggle_rule = 23

abbrev pub route_at : ℕ → List Route → Option Route
route_at n [] = none
route_at zero (r ∷ rs) = some r
route_at (suc n) (r ∷ rs) = route_at n rs

pub route_at-Mem : (n : ℕ) (rs : List Route) (r : Route) → route_at n rs ≡ some r → Memᴰ r rs
route_at-Mem n [] r h = cc
route_at-Mem zero (q ∷ rs) r h = Memᴰ.head (cc)
route_at-Mem (suc n) (q ∷ rs) r h = Memᴰ.tail (route_at-Mem n rs r h)

split_valid :
    (p : Text) (ps : List Text)
    → valid_path (p ∷ ps) ≡ true
    → split b'/' (join (b'/' ∷ []) (p ∷ ps)) ≡ p ∷ ps
split_valid p ps v = split-join b'/' p ps (valid_path-Lacks (p ∷ ps) v)

abbrev pub Serves : Write → Text → Route → Type 0
Serves w id r =
    (r.method ≡ method_of w)
    × (split b'/' (path_to w id) ≡ path_of id r.pattern)
    × (valid_path (split b'/' (path_to w id)) ≡ true)

module _ (id : Text) (plain : segment_re id ≡ true) where
  pub valid_item : (w : Text) → segment_re w ≡ true → valid_path (w ∷ id ∷ []) ≡ true
  unfolding valid_path
  valid_item w h = ground arith

  pub valid_action :
      (w a : Text) → segment_re w ≡ true → segment_re a ≡ true → valid_path (w ∷ id ∷ a ∷ []) ≡ true
  unfolding valid_path
  valid_action w a h k = ground arith

  action_serves :
      (w a : Text) (path : Text)
      → segment_re w ≡ true
      → segment_re a ≡ true
      → path ≡ join (b'/' ∷ []) (w ∷ id ∷ a ∷ [])
      → (split b'/' path ≡ w ∷ id ∷ a ∷ []) × (valid_path (split b'/' path) ≡ true)
  action_serves w a path h k e =
      let v = valid_action w a h k in
      let s : split b'/' path ≡ w ∷ id ∷ a ∷ [] = rw e (split_valid w (id ∷ a ∷ []) v) in
      (s, rw s v)

  item_serves :
      (w : Text) (path : Text)
      → segment_re w ≡ true
      → path ≡ join (b'/' ∷ []) (w ∷ id ∷ [])
      → (split b'/' path ≡ w ∷ id ∷ []) × (valid_path (split b'/' path) ≡ true)
  item_serves w path h e =
      let v = valid_item w h in
      let s : split b'/' path ≡ w ∷ id ∷ [] = rw e (split_valid w (id ∷ []) v) in (s, rw s v)

  served :
      (w : Write) → (r : Route) × (route_at (place_of w) console_routes ≡ some r) × Serves w id r
  unfolding status_path triage_path case_path notes_path toggle_path policy_path upgrade_path
      suppression_path valid_path segment_re
  served Write.set_status =
      let (s, v) =
        action_serves (codes "detections") (codes "status") (status_path id) refl refl refl in
      (_, refl, (refl, s, v))
  served Write.triage =
      let (s, v) =
        action_serves (codes "detections") (codes "triage") (triage_path id) refl refl refl in
      (_, refl, (refl, s, v))
  served Write.update_case =
      let (s, v) = item_serves (codes "cases") (case_path id) refl refl in (_, refl, (refl, s, v))
  served Write.add_note =
      let (s, v) = action_serves (codes "cases") (codes "notes") (notes_path id) refl refl refl in
      (_, refl, (refl, s, v))
  served Write.toggle_rule =
      let (s, v) = action_serves (codes "rules") (codes "toggle") (toggle_path id) refl refl refl in
      (_, refl, (refl, s, v))
  served Write.push_policy =
      let (s, v) =
        action_serves (codes "agents") (codes "policy") (policy_path id) refl refl refl in
      (_, refl, (refl, s, v))
  served Write.upgrade =
      let (s, v) =
        action_serves (codes "agents") (codes "upgrade") (upgrade_path id) refl refl refl in
      (_, refl, (refl, s, v))
  served Write.lift_suppression =
      let (s, v) = item_serves (codes "suppressions") (suppression_path id) refl refl in
      (_, refl, (refl, s, v))
  served Write.open_case = (_, refl, (refl, refl, refl))
  served Write.suppress = (_, refl, (refl, refl, refl))
  served Write.issue_response = (_, refl, (refl, refl, refl))

-- The path of every write of the console passes the proxy's check, for every id that is one plain
-- segment; it is that of a guarded route of the Go API for the write's method, and the proxy asks
-- for exactly the role that this route asks for.
pub path_to-served :
    (w : Write) (id : Text)
    → segment_re id ≡ true
    → (r : Route) × Memᴰ r console_routes
      × Serves w id r
      × (min_role r.method (split b'/' (path_to w id)) ≡ role_text r.role)
path_to-served w id plain =
    let (r, place, serves) = served id plain w in
    let m : Memᴰ r console_routes = route_at-Mem (place_of w) console_routes r place in
    (r, m, serves, ap (min_role r.method) serves.1 ∙ role_map_agrees r id m plain)
