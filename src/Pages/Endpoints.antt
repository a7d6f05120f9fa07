-- ===== src/Pages/Endpoints.antt =====
-- dashboard/app/(app)/endpoints/page.tsx and dashboard/app/(app)/responses/page.tsx: the actions on
-- agents, and the retry of a response.
use sentinel_edr.Common.{
  ℕ, Bool, true, false, not, Option, none, some, List, [], ◌∷◌, ◌++◌, length, map, filter,
  if◌then◌else◌, nat_beq, ◌===◌, string_same, String,
}
use sentinel_edr.Common.Text.{Text, codes, decimal, to_lower}
use sentinel_edr.Format.{response_label}
use sentinel_edr.Model.{Agent, AgentStatus, ResponseAction}
use sentinel_edr.Calls.{
  Json, Call, M, ◌>>=◌, ◌>>◌, emit, respond, post_json_all, response_call, Effect, success, error,
  clear, count_ok,
}
use sentinel_edr.Pages.{Pending, with_status, tell}

unfoldable pub act : Pending Agent → M (Unit {0})
unfolding respond
act p = do
  r ← respond (record {
    type_ = p.type_;
    agent_id = codes p.subject.id;
    target = p.target;
    reason = some (codes "manual " ++ (p.type_ ++ codes " from console"));
    detection_id = none;
  })
  tell r (p.label ++ (codes " dispatched to " ++ codes p.subject.hostname)) (
      with_status
        (codes "Could not " ++ (to_lower p.label ++ (codes " " ++ codes p.subject.hostname)))
        r.status)

unfoldable pub triage : Agent → M (Unit {0})
unfolding respond
triage a = do
  r ← respond (record {
    type_ = codes "live_triage";
    agent_id = codes a.id;
    target = none;
    reason = some (codes "live triage from console");
    detection_id = none;
  })
  tell r
      (codes "Triage requested for "
        ++ (codes a.hostname ++ codes " — results will land in Response"))
      (with_status (codes "Triage failed") r.status)

abbrev pub is_isolated : AgentStatus → Bool
is_isolated AgentStatus.isolated = true
is_isolated AgentStatus.online = false
is_isolated AgentStatus.offline = false

abbrev pub bulk_call : Text → Text → Agent → Call
bulk_call type_ reason a = response_call (record {
  type_ = type_;
  agent_id = codes a.id;
  target = none;
  reason = some reason;
  detection_id = none;
})

abbrev pub isolate_call : Agent → Call
isolate_call = bulk_call (codes "isolate") (codes "bulk isolate from console")

abbrev pub lift_call : Agent → Call
lift_call = bulk_call (codes "unisolate") (codes "bulk lift isolation")

abbrev pub of_all : ℕ → ℕ → Text
of_all n all = decimal n ++ (codes "/" ++ decimal all)

-- `toast[ok === res.length ? "success" : "error"](...)`
abbrev pub bulk_toast : ℕ → ℕ → Text → Effect
bulk_toast n all message = if nat_beq n all then success message else error message

-- The buttons of the selection. They ask for no confirmation.
unfoldable pub bulk_isolate : List Agent → M (Unit {0})
unfolding response_call
bulk_isolate rows = do
  res ← post_json_all (map isolate_call (filter (λ a. not (is_isolated a.status)) rows))
  emit (
      bulk_toast (count_ok res) (length res)
        (codes "Isolated " ++ (of_all (count_ok res) (length res) ++ codes " endpoints")))
  emit clear

unfoldable pub bulk_lift : List Agent → M (Unit {0})
unfolding response_call
bulk_lift rows = do
  res ← post_json_all (map lift_call (filter (λ a. is_isolated a.status) rows))
  emit (
      bulk_toast (count_ok res) (length res)
        (codes "Lifted isolation on " ++ of_all (count_ok res) (length res)))
  emit clear

-- The verb, its label and the destructive mark of an item of a row's menu.
abbrev pub Item : Type 0
Item = Text × Text × Bool

abbrev pub isolation_item : Bool → Item
isolation_item true = (codes "unisolate", codes "Lift isolation", false)
isolation_item false = (codes "isolate", codes "Isolate", true)

-- The items of a row's menu that ask for a confirmation.
unfoldable pub menu : Agent → List Item
menu a =
    isolation_item (is_isolated a.status)
    ∷ (codes "freeze", codes "Freeze", true)
    ∷ (codes "unfreeze", codes "Unfreeze", false)
    ∷ (codes "block_usb", codes "Block USB", false)
    ∷ (codes "unblock_usb", codes "Lift USB block", false)
    ∷ (codes "block_upload", codes "Block uploads", false)
    ∷ (codes "unblock_upload", codes "Lift upload block", false)
    ∷ []

abbrev pub detection_of : Option String → Option Text
detection_of none = none
detection_of (some d) = some (codes d)

-- The retry of a failed response, with the target that it had.
unfoldable pub retry : Option Json → ResponseAction → M (Unit {0})
unfolding respond response_label
retry target x = do
  res ← respond (record {
    type_ = codes x.type_;
    agent_id = codes x.agent_id;
    target = target;
    reason = some (codes "retry of " ++ codes x.id);
    detection_id = detection_of x.detection_id;
  })
  tell res
      (codes "Re-issued " ++ (response_label (codes x.type_) ++ (codes " to " ++ codes x.hostname)))
      (with_status (codes "Retry failed") res.status)

unfoldable pub automated : List ResponseAction → ℕ
automated r = length (filter (λ x. x.automated) r)

-- `done` and `failed`
unfoldable pub in_status : String → List ResponseAction → ℕ
in_status s r = length (filter (λ x. x.status === s) r)
