-- ===== src/Calls.antt =====
-- The console's calls of the proxy (dashboard/lib/use-data.ts: post, del, postJSON, respond) and
-- the calls that the pages make with them. A page's handler runs against the replies that its calls
-- get, in the order in which they are sent, and leaves what it sends and what it shows. Handlers
-- that run at the same time are separate runs. The path of a call is what follows /api/proxy/.
pub mod Results
pub mod Routes
mod Tests
use sentinel_edr.Common.{
  ℕ, suc, ◌+◌, Bool, true, false, not, ◌&&◌, Option, none, some, List, [], ◌∷◌, ◌++◌, length, map,
  filter, if◌then◌else◌, leb, get_or,
}
use sentinel_edr.Common.Text.{Text, codes, decimal}
use sentinel_edr.Bff.RoleMap.{Method, get, post, delete}

-- `Items` and `Fields` are the lists inside an array and an object.
mutual
  pub data Json : Type 0 where
    null : Json
    flag : Bool → Json
    number : ℕ → Json
    text : Text → Json
    array : Items → Json
    object : Fields → Json

  pub data Items : Type 0 where
    no_items : Items
    item : Json → Items → Items

  pub data Fields : Type 0 where
    no_fields : Fields
    field : Text → Json → Fields → Fields

abbrev pub texts : List Text → Items
texts [] = no_items
texts (t ∷ ts) = item (text t) (texts ts)

-- `JSON.stringify` leaves out a field that is undefined.
abbrev pub optional : Text → Option Json → Fields → Fields
optional name none fs = fs
optional name (some v) fs = field name v fs

pub record Call : Type 0 where
  pub method : Method
  pub path : Text
  pub body : Option Json

-- A reply, with its body as a text and as JSON where it can be read so.
pub record Reply : Type 0 where
  pub status : ℕ
  pub text : Option Text
  pub json : Option Json

pub data Fetched : Type 0 where
  failed : Fetched
  replied : Reply → Fetched

-- `Response.ok`
abbrev pub is_ok : ℕ → Bool
is_ok status = leb 200 status && leb status 299

pub record ActionResult : Type 0 where
  pub ok : Bool
  pub status : ℕ
  pub error : Option Text
  pub json : Option Json

-- What a handler does besides its calls: toasts, the selection of a table that is cleared, the
-- list that is asked for again, the form that is closed and emptied, and the record that is shown.
pub data Effect : Type 0 where
  success error : Text → Effect
  clear reload close_form : Effect
  show : Json → Effect
  created : Text → Effect

-- `replies n` is what the call number `n` gets.
pub record Client : Type 0 where
  pub replies : ℕ → Fetched
  pub sent : List Call
  pub effects : List Effect

-- A handler may end by an exception that nothing catches.
pub data Outcome {ℓ} (A : Type ℓ) : Type ℓ where
  done : A → Outcome A
  thrown : Outcome A

abbrev pub M {ℓ} : Type ℓ → Type ℓ
M A = Client → Outcome A × Client

abbrev pub and_then {ℓ κ} :
    {A : Type ℓ} {B : Type κ} → Outcome A × Client → (A → M B) → Outcome B × Client
and_then (done a, k) f = f a k
and_then (thrown, k) f = (thrown, k)

infixl 5 ◌>>=◌ ◌>>◌
abbrev pub ◌>>=◌ {ℓ κ} : {A : Type ℓ} {B : Type κ} → M A → (A → M B) → M B
◌>>=◌ m f k = and_then (m k) f

abbrev pub ◌>>◌ {ℓ} : {B : Type ℓ} → M (Unit {0}) → M B → M B
m >> n = m >>= λ _. n

abbrev pub pure {ℓ} : {A : Type ℓ} → A → M A
pure a k = (done a, k)

abbrev pub emit : Effect → M (Unit {0})
emit e k = (done tt, record k { effects = k.effects ++ e ∷ [] })

abbrev pub sending : List Call → Client → Client
sending cs k = record k { sent = k.sent ++ cs }

-- The reply to the next call.
abbrev pub next_reply : Client → Fetched
next_reply k = k.replies (length k.sent)

-- `fetch`, awaited
unfoldable pub fetch : Call → M Reply
fetch c k = elim (next_reply k) [
  | failed ↦ (thrown, sending (c ∷ []) k)
  | replied r ↦ (done r, sending (c ∷ []) k)
]

-- `r.json()`, awaited
abbrev pub read_json : Reply → M Json
read_json r k = elim r.json [ none ↦ (thrown, k) | some j ↦ (done j, k) ]

-- The calls of `Promise.all(xs.map(...))` are all sent before one is awaited.
unfoldable pub send_all : List Call → Client → List Fetched × Client
send_all [] k = ([], k)
send_all (c ∷ cs) k = let rest = send_all cs (sending (c ∷ []) k) in (next_reply k ∷ rest.0, rest.1)

abbrev pub prepend {ℓ} : {A : Type ℓ} → A → Outcome (List A) → Outcome (List A)
prepend a thrown = thrown
prepend a (done as') = done (a ∷ as')

-- One rejection rejects the whole.
unfoldable pub all_replies : List Fetched → Outcome (List Reply)
all_replies [] = done []
all_replies (failed ∷ fs) = thrown
all_replies (replied r ∷ fs) = prepend r (all_replies fs)

unfoldable pub fetch_all : List Call → M (List Reply)
unfolding send_all all_replies
fetch_all cs k = let s = send_all cs k in (all_replies s.0, s.1)

abbrev pub post_call : Text → Json → Call
post_call path body = record { method = Method.post; path = path; body = some body }

abbrev pub delete_call : Text → Call
delete_call path = record { method = Method.delete; path = path; body = none }

-- `a || b` of texts, where an absent one is empty.
abbrev pub or_text : Text → Text → Text
or_text [] d = d
or_text (c ∷ s) d = c ∷ s

abbrev pub network_error : Text
network_error = codes "Network error — the console could not reach the server"

-- `postJSON`: every rejection on its way becomes a result.
unfoldable pub result_of : Fetched → ActionResult
result_of failed = record { ok = false; status = 0; error = some network_error; json = none }
result_of (replied r) =
    if not (is_ok r.status)
    then record {
      ok = false;
      status = r.status;
      error = some (or_text (get_or r.text []) (codes "HTTP " ++ decimal r.status));
      json = none;
    }
    else record { ok = true; status = r.status; error = none; json = r.json }

unfoldable pub post_json : Text → Json → M ActionResult
unfolding result_of
post_json path body k = (done (result_of (next_reply k)), sending (post_call path body ∷ []) k)

unfoldable pub post_json_all : List Call → M (List ActionResult)
unfolding result_of send_all
post_json_all cs k = let s = send_all cs k in (done (map result_of s.0), s.1)

-- The argument of `respond`.
pub record ResponseArgs : Type 0 where
  pub type_ : Text
  pub agent_id : Text
  pub target : Option Json
  pub reason : Option Text
  pub detection_id : Option Text

abbrev pub optional_text : Option Text → Option Json
optional_text none = none
optional_text (some t) = some (text t)

unfoldable pub response_body : ResponseArgs → Json
response_body a = object (
    field (codes "type") (text a.type_) (
      field (codes "agent_id") (text a.agent_id) (
        field (codes "target") (get_or a.target (object no_fields)) (
          field (codes "reason")
            (text (get_or a.reason (codes "manual " ++ (a.type_ ++ codes " from console"))))
            (optional (codes "detection_id") (optional_text a.detection_id) no_fields)))))

unfoldable pub response_call : ResponseArgs → Call
unfolding response_body
response_call a = post_call (codes "respond") (response_body a)

unfoldable pub respond : ResponseArgs → M ActionResult
unfolding post_json response_body
respond a = post_json (codes "respond") (response_body a)

-- The paths of the pages' and panels' calls, by the id of what they change.
unfoldable pub status_path : Text → Text
status_path id = codes "detections/" ++ (id ++ codes "/status")

unfoldable pub triage_path : Text → Text
triage_path id = codes "detections/" ++ (id ++ codes "/triage")

unfoldable pub case_path : Text → Text
case_path id = codes "cases/" ++ id

unfoldable pub notes_path : Text → Text
notes_path id = codes "cases/" ++ (id ++ codes "/notes")

unfoldable pub toggle_path : Text → Text
toggle_path id = codes "rules/" ++ (id ++ codes "/toggle")

unfoldable pub policy_path : Text → Text
policy_path id = codes "agents/" ++ (id ++ codes "/policy")

unfoldable pub upgrade_path : Text → Text
upgrade_path id = codes "agents/" ++ (id ++ codes "/upgrade")

unfoldable pub suppression_path : Text → Text
suppression_path id = codes "suppressions/" ++ id

abbrev pub count_ok : List ActionResult → ℕ
count_ok rs = length (filter (λ r. r.ok) rs)

-- `r.error || fallback`
abbrev pub error_or : ActionResult → Text → Text
error_or r fallback = or_text (get_or r.error []) fallback
