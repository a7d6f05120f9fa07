-- ===== src/Poll.antt =====
-- dashboard/lib/use-data.ts, `useData`: a polled endpoint, with an error kind, a short cut for
-- unchanged replies, and a debounced refetch on pushes. `JSON.parse` at the type of the caller is
-- a parameter. The state and the refs of the hook are one record; a tick carries the number of
-- the effect run that started it, so its flag `on` is true while that number is the current one.
pub mod Freshness
pub mod Debounce
mod Tests
use sentinel_edr.Common.{
  ℕ, ◌+◌, String, Bool, true, false, not, ◌&&◌, Option, none, some, List, [], ◌∷◌, if◌then◌else◌,
  ◌===◌, nat_same, string_same, leb,
}

pub data Kind : Type 0 where
  forbidden unauthorized network server : Kind

pub record Failure : Type 0 where
  pub status : ℕ
  pub kind : Kind

-- `fetches` counts the requests sent; `debounce` is true while a timer is set.
pub record State (D : Type 0) : Type 0 where
  pub value : Option D
  pub live : Bool
  pub error : Option Failure
  pub last : String
  pub effect_run : ℕ
  pub mounted : Bool
  pub debounce : Bool
  pub fetches : ℕ

-- How a fetch settles: a status and the text of the body, or a throw.
pub data Reply : Type 0 where
  settled : (status : ℕ) (text : String) → Reply
  thrown : Reply

abbrev pub is_ok : ℕ → Bool
is_ok status = leb 200 status && leb status 299

unfoldable pub kind_of : ℕ → Kind
kind_of status =
    if status === 403 then forbidden else if status === 401 then unauthorized else server

module _ {D : Type 0} (parse : String → Option D) where
  -- `try { setData(JSON.parse(text)) } catch {}`
  abbrev pub parsed_or : Option D → Option D → Option D
  parsed_or none old = old
  parsed_or (some d) old = some d

  -- The tick after its fetch has settled, while `on` holds.
  unfoldable pub receive : Reply → State D → State D
  unfolding kind_of
  receive thrown s = record s { live = false; error = some (record { status = 0; kind = network }) }
  receive (settled status text) s =
      if is_ok status
      then if text === s.last then record s { live = true; error = none } else record s {
        live = true;
        error = none;
        last = text;
        value = parsed_or (parse text) s.value;
      }
      else record s {
        live = false;
        error = some (record { status = status; kind = kind_of status });
      }

  unfoldable pub finish : ℕ → Reply → State D → State D
  unfolding receive
  finish run reply s = if s.mounted && run === s.effect_run then receive reply s else s

module _ {D : Type 0} where
  abbrev pub fetch : State D → State D
  fetch s = record s { fetches = s.fetches + 1 }

  unfoldable pub initial : State D
  initial = record {
    value = none;
    live = false;
    error = none;
    last = "";
    effect_run = 0;
    mounted = false;
    debounce = false;
    fetches = 0;
  }

  -- The effect runs: its first tick.
  unfoldable pub start : State D → State D
  start s = fetch (record s { mounted = true; effect_run = s.effect_run + 1 })

  -- The clean-up of an effect run.
  unfoldable pub stop : State D → State D
  stop s = record s { mounted = false; debounce = false }

  -- The interval fires while the effect run is on.
  unfoldable pub interval : Bool → State D → State D
  interval hidden s = if hidden then s else fetch s

  unfoldable pub visibility_changed : Bool → State D → State D
  visibility_changed visible s = if visible then fetch s else s

  -- A push of the type `revalidateOn`.
  unfoldable pub pushed : State D → State D
  pushed s = if s.debounce then s else record s { debounce = true }

  -- The timer of 250 ms fires.
  unfoldable pub debounce_fired : State D → State D
  debounce_fired s = fetch (record s { debounce = false })

-- What can happen to the hook. The clean-up clears its timers and listeners, so the last five but
-- `refetch` happen only in a mounted state; `refetch` does nothing before the first effect run, and
-- sends a request from then on. A reply may come at any time.
pub data Event : Type 0 where
  started stopped : Event
  reply : (run : ℕ) → Reply → Event
  ticked : (hidden : Bool) → Event
  visibility : (visible : Bool) → Event
  push timer refetch : Event

module _ {D : Type 0} (parse : String → Option D) where
  unfoldable pub step : Event → State D → State D
  unfolding finish start stop interval visibility_changed pushed debounce_fired
  step started s = start (stop s)
  step stopped s = stop s
  step (reply run r) s = finish parse run r s
  step (ticked hidden) s = if s.mounted then interval hidden s else s
  step (visibility visible) s = if s.mounted then visibility_changed visible s else s
  step push s = if s.mounted then pushed s else s
  step timer s = if s.mounted && s.debounce then debounce_fired s else s
  step refetch s = if s.effect_run === 0 then s else fetch s

  unfoldable pub run : List Event → State D → State D
  run [] s = s
  run (e ∷ es) s = run es (step e s)
