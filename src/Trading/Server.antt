-- ===== src/Trading/Server.antt =====
-- The connections and the routes of src/trading/server.cpp: what its loop does to them when a client
-- connects, a frame is complete, a response leaves the engine, or a connection goes. Which of these
-- happens, and when a connection is dead, is left to the sockets and the clock. `none` is an
-- exception.
pub mod Routes
pub mod Moves
pub mod Sessions
mod Tests
use limit_order_book.Base.{
  ℕ, zero, suc, ◌+◌, ◌-◌, Bool, true, false, not, ◌&&◌, ◌||◌, Option, none, some, List, [], ◌∷◌,
  ◌++◌, ◌%◌, length, drop, ltb, leb, ◌==◌, nat_eq, if◌then◌else◌,
}
use limit_order_book.Types.{u64_mod}
use limit_order_book.Map.{Map, lookup, insert, erase, contains}
use limit_order_book.Net.Frames.{Frame}
use limit_order_book.Trading.Messages.{Message, Kind, Action, ReportType, Reject}
use limit_order_book.Trading.Codec.{decode, encode}
use limit_order_book.Trading.Engine.State.{◌>>=◌}
use limit_order_book.Trading.Engine.Submit.{emplace_ℕ}

pub record Connection : Type 0 where
  pub client : ℕ
  pub output : List Frame
  pub closing : Bool
  pub admitted : ℕ

pub record Server : Type 0 where
  pub connections : Map ℕ Connection
  pub routes : Map ℕ ℕ
  pub next_connection : ℕ
  pub accepted : ℕ
  pub slow_clients : ℕ
  pub malformed : ℕ

abbrev pub new_server : Server
new_server = record {
  connections = [];
  routes = [];
  next_connection = 1;
  accepted = 0;
  slow_clients = 0;
  malformed = 0;
}

-- The messages that end a request.
abbrev pub is_last : Message → Bool
is_last m = ends_report m.kind m.report
  where
    ends_report : Kind → ReportType → Bool
    ends_report Kind.report ReportType.complete = true
    ends_report Kind.report ReportType.status = true
    ends_report Kind.snapshot_end r = true
    ends_report k r = false

-- `append` behind its guard; a count of requests that is 0 stays.
abbrev pub queued : Connection → Message → Option Connection
queued c m = encode m >>= λ frame. some (record c {
  output = c.output ++ frame ∷ [];
  admitted = if is_last m then c.admitted - 1 else c.admitted;
})

abbrev pub put_connection : Server → ℕ → Connection → Server
put_connection s id c = record s { connections = insert ltb id c s.connections }

-- append(c, m), for the connection `id`: a client that lets 4096 frames wait is cut off.
unfoldable pub append_to : Server → ℕ → Connection → Message → Option Server
append_to s id c m =
    if leb 4096 (length c.output)
    then some (record (put_connection s id (record c { closing = true; output = [] })) {
      slow_clients = (s.slow_clients + 1) % u64_mod;
    })
    else (queued c m >>= λ c'. some (put_connection s id c'))

-- The connection of a response: its own, or for 0 that of the client.
abbrev pub target_of : Server → ℕ → Message → Option ℕ
target_of s connection m = if connection == 0 then lookup m.client_id s.routes else some connection

-- A response of the engine; one without a connection is dropped.
unfoldable pub deliver : Server → ℕ → Message → Option Server
unfolding append_to
deliver s connection m = elim (target_of s connection m) [
  | none ↦ some s
  | some target ↦ elim (lookup target s.connections) [
    | none ↦ some s
    | some c ↦ if c.closing then some s else append_to s target c m
  ]
]

-- A client that connects, unless there are 64.
unfoldable pub accept_client : Server → Server
accept_client s = if leb 64 (length s.connections) then s else record s {
  connections =
      emplace_ℕ s.next_connection
        (record { client = 0; output = []; closing = false; admitted = 0 }) s.connections;
  next_connection = (s.next_connection + 1) % u64_mod;
  accepted = (s.accepted + 1) % u64_mod;
}

abbrev pub is_command : Kind → Bool
is_command Kind.command = true
is_command _ = false

abbrev pub is_snapshot : Action → Bool
is_snapshot Action.snapshot = true
is_snapshot _ = false

-- A command that a connection may send.
abbrev pub is_allowed : Connection → Message → Bool
is_allowed c m =
    is_command m.kind
    && ((is_snapshot m.action || not (m.client_id == 0))
        && (c.client == 0 || (m.client_id == c.client)))

-- requests->try_push, which may find the queue full.
abbrev pub admit : Server → ℕ → Connection → Bool → Server
admit s id c room =
    if room then put_connection s id (record c { admitted = (c.admitted + 1) % u64_mod }) else s

-- The answer to a client that has a session already.
abbrev pub busy : Message → ℕ → Message
busy m epoch = record m {
  kind = Kind.report;
  report = ReportType.rejected;
  reject = Reject.session_busy;
  epoch = epoch;
}

abbrev pub close : ℕ → Server → Option Server
close id s =
    lookup id s.connections >>= λ c. some (put_connection s id (record c { closing = true }))

-- The first command of a client on a connection claims its session.
unfoldable pub claim : Server → ℕ → Connection → Message → ℕ → Bool → Option Server
unfolding append_to
claim s id c m epoch room =
    if contains m.client_id s.routes
    then (append_to s id c (busy m epoch) >>= close id)
    else some (
        let mine = record c { client = m.client_id } in
        admit (put_connection (record s { routes = insert ltb m.client_id id s.routes }) id mine) id
          mine room)

unfoldable pub receive_message : Server → ℕ → Connection → Message → ℕ → Bool → Option Server
unfolding claim
receive_message s id c m epoch room =
    if not (is_allowed c m)
    then some (record s { malformed = (s.malformed + 1) % u64_mod })
    else if (c.client == 0) && not (is_snapshot m.action)
    then claim s id c m epoch room
    else some (admit s id c room)

-- A complete frame of a connection that is not closing. A malformed one is the connection's last.
unfoldable pub receive_frame : Server → ℕ → Connection → Frame → ℕ → Bool → Option Server
unfolding receive_message
receive_frame s id c frame epoch room = elim (decode frame) [
  | none ↦ some (record s { malformed = (s.malformed + 1) % u64_mod })
  | some m ↦ receive_message s id c m epoch room
]

-- net::detail::flush(...), where the socket decides how many frames it takes.
unfoldable pub flush_output : Server → ℕ → ℕ → Option Server
flush_output s id sent = lookup id s.connections >>= λ c.
    some (put_connection s id (record c { output = drop sent c.output }))

-- A connection that is stuck in a frame for more than five seconds.
abbrev pub time_out : Server → Server
time_out s = record s { slow_clients = (s.slow_clients + 1) % u64_mod }

-- The end of a connection.
unfoldable pub remove_connection : Server → ℕ → Option Server
remove_connection s id = lookup id s.connections >>= λ c.
    some (record s { routes = erase c.client s.routes; connections = erase id s.connections })
