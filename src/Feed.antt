-- ===== src/Feed.antt =====
-- The embedded console's live feed (web/src/ws.ts): one WebSocket, opened again two seconds after
-- it closed. A socket's number is the count of those made before it. Events of a socket come until
-- its close event; a timer's event comes once for each timer that is set and not cleared. `parse`
-- stands for JSON.parse, and is `none` where that throws, or where the handler does.
pub mod Single
pub mod Retry
mod Tests
use sentinel_edr.Common.{
  ℕ, suc, ◌≡◌, Bool, true, false, not, ◌&&◌, ◌||◌, Option, none, some, List, [], ◌∷◌, ◌++◌,
  StrictEq, list_same, ◌===◌, nat_same, contains, erase, if◌then◌else◌, ◌+◌, ◌-◌,
}
use sentinel_edr.Common.Text.{Text, codes}

pub record State (M : Type 0) : Type 0 where
  pub ws : Option ℕ
  pub sockets : List ℕ
  pub made : ℕ
  pub timers : ℕ
  pub closing : List ℕ
  pub unmounted : Bool
  pub connected : Bool
  pub delivered : List M

pub data Input : Type 0 where
  opened closed errored : ℕ → Input
  message : ℕ → Text → Input
  retried unmount : Input

pub record Handshake : Type 0 where
  pub url : Text
  pub protocols : List Text

-- What the new socket is made with: the page's host, and the token where there is one.
abbrev pub handshake : Bool → Text → Option Text → Handshake
handshake https host token = record {
  url = (if https then codes "wss" else codes "ws") ++ (codes "://" ++ (host ++ codes "/ws"));
  protocols = elim token [ none ↦ [] | some t ↦ if t === [] then [] else codes "bearer" ∷ t ∷ [] ];
}

-- `ws?.close()`
abbrev close_asked : Option ℕ → List ℕ → List ℕ
close_asked none is = is
close_asked (some i) is = i ∷ is

module _ {M : Type 0} where
  abbrev pub connect : State M → State M
  connect s = record s { ws = some s.made; sockets = s.made ∷ s.sockets; made = suc s.made }

  -- The mount's effect
  abbrev pub initial : State M
  initial = connect (record {
    ws = none;
    sockets = [];
    made = 0;
    timers = 0;
    closing = [];
    unmounted = false;
    connected = false;
    delivered = [];
  })

  unfoldable pub on_close : ℕ → State M → State M
  on_close i s = record s {
    sockets = erase i s.sockets;
    connected = false;
    timers = if s.unmounted then s.timers else suc s.timers;
  }

  unfoldable pub on_retry : State M → State M
  on_retry s = if s.timers === 0 then s else connect (record s { timers = s.timers - 1 })

  -- `clearTimeout(retry)` clears the timer that was set last, if it has not fired.
  unfoldable pub clean_up : State M → State M
  clean_up s = record s {
    unmounted = true;
    timers = s.timers - 1;
    closing = close_asked s.ws s.closing;
  }

  abbrev pub deliver : Option M → State M → State M
  deliver none s = s
  deliver (some m) s = record s { delivered = s.delivered ++ m ∷ [] }

  module _ (parse : Text → Option M) where
    abbrev pub on_message : Text → State M → State M
    on_message data_ s = deliver (parse data_) s

    unfoldable pub step : State M → Input → State M
    step s (Input.opened i) = if contains s.sockets i then record s { connected = true } else s
    step s (Input.closed i) = if contains s.sockets i then on_close i s else s
    step s (Input.errored i) =
        if contains s.sockets i then record s { closing = close_asked s.ws s.closing } else s
    step s (Input.message i data_) = if contains s.sockets i then on_message data_ s else s
    step s Input.retried = on_retry s
    step s Input.unmount = if s.unmounted then s else clean_up s

    abbrev pub run : State M → List Input → State M
    run s [] = s
    run s (i ∷ is) = run (step s i) is
