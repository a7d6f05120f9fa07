-- ===== src/Relay.antt =====
-- The relay from the Go server's WebSocket to an EventSource
-- (dashboard/app/api/stream/route.ts): the session check, and the stream's start, messages, pings
-- and clean-up. The session and the token are inputs. An event of the socket or of the timer comes
-- until the clean-up or the stream's end; the reader's cancel ends the stream.
pub mod Ends
mod Tests
use sentinel_edr.Common.{
  ℕ, suc, String, ◌≡◌, Bool, true, false, not, Option, none, some, List, [], ◌∷◌, ◌++◌,
  if◌then◌else◌, drop,
}
use sentinel_edr.Common.Text.{Text, codes, starts_with}

-- What `ws` holds: a socket that `close` was not called on, one that it was called on, or null
-- after the clean-up (which calls it).
pub data Socket : Type 0 where
  live closing gone : Socket

pub record State : Type 0 where
  pub socket : Socket
  pub ping : Bool
  pub is_open : Bool
  pub sent : List Text

-- `controller.enqueue`, which throws on a stream that has ended; the throw is caught.
abbrev pub send : Text → State → State
send t s = if s.is_open then record s { sent = s.sent ++ t ∷ [] } else s

abbrev pub start : State
start = record {
  socket = Socket.live;
  ping = true;
  is_open = true;
  sent = codes ": connected\nretry: 3000\n\n" ∷ [];
}

unfoldable pub clean_up : State → State
clean_up s = record s { socket = Socket.gone; ping = false }

pub data Input : Type 0 where
  message : Option Text → Input
  socket_error socket_close tick cancel : Input

-- A frame that is no text is sent as an empty one.
abbrev pub data_line : Option Text → Text
data_line none = codes "data: \n\n"
data_line (some t) = codes "data: " ++ (t ++ codes "\n\n")

-- `ws?.close()`
abbrev pub close_socket : Socket → Socket
close_socket Socket.gone = Socket.gone
close_socket _ = Socket.closing

unfoldable pub step : State → Input → State
step s (Input.message t) = send (data_line t) s
step s Input.socket_error = record s { socket = close_socket s.socket }
step s Input.socket_close = record (clean_up s) { is_open = false }
step s Input.tick = if s.ping then send (codes ": ping\n\n") s else s
step s Input.cancel = record (clean_up s) { is_open = false }

abbrev pub run : State → List Input → State
run s [] = s
run s (i ∷ is) = run (step s i) is

pub data Response : Type 0 where
  unauthorized : Response
  stream : State → Response

-- The token is minted after the session check, and only then is the socket opened.
unfoldable pub get : Bool → Response
get false = Response.unauthorized
get true = Response.stream start

-- Where the relay's socket goes: `GO_API`, or the server's address for an empty one, with its first
-- four letters exchanged if they are `http`.
abbrev pub go_api : Option Text → Text
go_api (some (c ∷ s)) = c ∷ s
go_api _ = codes "http://server:8080"

unfoldable pub ws_url : Option Text → Text
ws_url env =
    (if starts_with (codes "http") (go_api env)
      then codes "ws" ++ drop 4 (go_api env)
      else go_api env)
    ++ codes "/ws"

-- The subprotocols carry the token, and the address does not.
abbrev pub protocols : Text → List Text
protocols token = codes "bearer" ∷ token ∷ []

abbrev pub stream_headers : List (Text × Text)
stream_headers =
    (codes "content-type", codes "text/event-stream; charset=utf-8")
    ∷ (codes "cache-control", codes "no-cache, no-transform")
    ∷ (codes "connection", codes "keep-alive")
    ∷ (codes "x-accel-buffering", codes "no")
    ∷ []
