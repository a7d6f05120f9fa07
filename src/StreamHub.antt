-- ===== src/StreamHub.antt =====
-- dashboard/lib/use-stream.ts: one shared EventSource, and the handlers that components subscribe.
-- The module's variables are one record. A handler and a status callback are named by numbers,
-- one for each closure. `refs` is decremented by clean-up functions, each of which React runs
-- once for a subscription, so it does not pass below 0.
pub mod Handlers
pub mod Lifetime
pub mod Messages
mod Tests
use sentinel_edr.Common.{
  ℕ, ◌+◌, ◌-◌, String, Bool, true, false, not, ◌&&◌, ◌||◌, Option, none, some, List, [], ◌∷◌, ◌++◌,
  map, filter, ltb, contains, if◌then◌else◌, get_or, ◌===◌, nat_same, string_same,
}

-- `handlers`, a map from a type to a set.
abbrev pub Handlers : Type 0
Handlers = List (String × List ℕ)

-- `pending` counts the `setTimeout(teardown, 0)` that have not fired; `sources` counts the
-- EventSources made, and `closed` those closed.
pub record Hub : Type 0 where
  pub es : Bool
  pub refs : ℕ
  pub handlers : Handlers
  pub status_cbs : List ℕ
  pub connected : Bool
  pub pending : ℕ
  pub sources : ℕ
  pub closed : ℕ

unfoldable pub initial : Hub
initial = record {
  es = false;
  refs = 0;
  handlers = [];
  status_cbs = [];
  connected = false;
  pending = 0;
  sources = 0;
  closed = 0;
}

-- The calls `cb(c)` that a change of the connection makes.
pub record Notice : Type 0 where
  pub cb : ℕ
  pub value : Bool

abbrev pub same : Bool → Bool → Bool
same true b = b
same false b = not b

unfoldable pub set_connected : Bool → Hub → Hub × List Notice
set_connected c h =
    if same c h.connected
    then (h, [])
    else (record h { connected = c }, map (λ cb. record { cb = cb; value = c }) h.status_cbs)

unfoldable pub ensure : Hub → Hub
ensure h = if h.es then h else record h { es = true; sources = h.sources + 1 }

unfoldable pub teardown : Hub → Hub × List Notice
unfolding set_connected
teardown h =
    if ltb 0 h.refs || not h.es
    then (h, [])
    else set_connected false (record h { es = false; closed = h.closed + 1 })

-- `handlers.get(type)`, the empty set where there is none
pub get : String → Handlers → List ℕ
get t [] = []
get t ((u, hs) ∷ m) = if u === t then hs else get t m

abbrev pub add : ℕ → List ℕ → List ℕ
add h hs = if contains hs h then hs else hs ++ h ∷ []

-- `if (!handlers.has(type)) handlers.set(type, new Set()); handlers.get(type)!.add(handler)`
unfoldable pub add_handler : String → ℕ → Handlers → Handlers
add_handler t h [] = (t, h ∷ []) ∷ []
add_handler t h ((u, hs) ∷ m) = if u === t then (u, add h hs) ∷ m else (u, hs) ∷ add_handler t h m

abbrev pub remove : ℕ → List ℕ → List ℕ
remove h hs = filter (λ j. not (j === h)) hs

-- `handlers.get(type)?.delete(handler)`
unfoldable pub delete_handler : String → ℕ → Handlers → Handlers
delete_handler t h [] = []
delete_handler t h ((u, hs) ∷ m) =
    if u === t then (u, remove h hs) ∷ m else (u, hs) ∷ delete_handler t h m

unfoldable pub subscribe : String → ℕ → Hub → Hub
unfolding ensure add_handler
subscribe t handler h =
    let h' = ensure (record h { refs = h.refs + 1 }) in
    record h' { handlers = add_handler t handler h'.handlers }

-- The function that `subscribe` returns.
unfoldable pub unsubscribe : String → ℕ → Hub → Hub
unfolding delete_handler
unsubscribe t handler h = record h {
  handlers = delete_handler t handler h.handlers;
  refs = h.refs - 1;
  pending = h.pending + 1;
}

-- The effect of `useStreamStatus`, and its clean-up; `setC(connected)` is the notice.
unfoldable pub watch_status : ℕ → Hub → Hub × List Notice
unfolding ensure
watch_status cb h =
    let h' = ensure (record h { status_cbs = add cb h.status_cbs }) in
    (record h' { refs = h'.refs + 1 }, record { cb = cb; value = h.connected } ∷ [])

unfoldable pub unwatch_status : ℕ → Hub → Hub
unwatch_status cb h = record h {
  status_cbs = remove cb h.status_cbs;
  refs = h.refs - 1;
  pending = h.pending + 1;
}

unfoldable pub timer_fired : Hub → Hub × List Notice
unfolding teardown
timer_fired h = teardown (record h { pending = h.pending - 1 })

-- A message, after `JSON.parse`; `none` is one that does not parse.
pub record Message : Type 0 where
  pub type : Option String
  pub payload : ℕ

pub data Delivery : Type 0 where
  of_data : (handler payload : ℕ) → Delivery
  of_message : (handler : ℕ) → Message → Delivery

abbrev pub truthy : Option String → Option String
truthy none = none
truthy (some t) = if t === "" then none else some t

unfoldable pub on_message : Hub → Option Message → List Delivery
on_message h none = []
on_message h (some msg) = elim (truthy msg.type) [
  | none ↦ []
  | some t ↦
      map (λ j. of_data j msg.payload) (get t h.handlers)
      ++ map (λ j. of_message j msg) (get "*" h.handlers)
]
