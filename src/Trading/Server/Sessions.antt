-- ===== src/Trading/Server/Sessions.antt =====
-- Which client owns which connection in src/trading/server.cpp.
use limit_order_book.Base.{ℕ, ◌+◌, ◌<◌, Bool, false, some, nat_eq, ◌≡◌, ◌≢◌, refl, ◌∙◌}
use limit_order_book.Types.{u64_mod}
use limit_order_book.Map.{lookup}
use limit_order_book.Net.Frames.{Frame}
use limit_order_book.Trading.Messages.{Message}
use limit_order_book.Trading.Engine.Ensures.{Ensures-elim}
use limit_order_book.Trading.Server.{
  Connection, Server, new_server, deliver, accept_client, receive_frame, remove_connection,
  flush_output, time_out,
}
use limit_order_book.Trading.Server.Routes.{IsRouted, same_value}
use limit_order_book.Trading.Server.Moves.{
  deliver-Routed, receive_frame-Routed, accept_client-Routed, remove_connection-Routed,
  flush_output-Routed,
}

-- What the loop does in a turn, whatever the sockets, the queues and the clock do, up to 2^64 - 2
-- connections.
pub data Step : Server → Server → Type 0 where
  accepts : {s : Server} → s.next_connection + 1 < u64_mod → Step s (accept_client s)
  delivers :
      {s t : Server} (connection : ℕ) (m : Message) → deliver s connection m ≡ some t → Step s t
  receives :
      {s t : Server} {c : Connection} (id : ℕ) (frame : Frame) (epoch : ℕ) (room : Bool)
      → lookup id s.connections ≡ some c
      → c.closing ≡ false
      → receive_frame s id c frame epoch room ≡ some t
      → Step s t
  flushes : {s t : Server} (id sent : ℕ) → flush_output s id sent ≡ some t → Step s t
  times_out : {s : Server} → Step s (time_out s)
  removes : {s t : Server} (id : ℕ) → remove_connection s id ≡ some t → Step s t

pub data Reachable : Server → Type 0 where
  starts : Reachable new_server
  turns : {s t : Server} → Reachable s → Step s t → Reachable t

Step-Routed : {s t : Server} → Step s t → IsRouted s → IsRouted t
Step-Routed {s} (accepts few) h = accept_client-Routed s few h
Step-Routed {s} {t} (delivers connection m e) h =
    Ensures-elim IsRouted _ t (deliver-Routed s connection m h) e
Step-Routed {s} {t} (receives {c = c} id frame epoch room at up e) h =
    Ensures-elim IsRouted _ t (receive_frame-Routed s id c frame epoch room h at) e
Step-Routed {s} {t} (flushes id sent e) h =
    Ensures-elim IsRouted _ t (flush_output-Routed s id sent h) e
Step-Routed times_out h = h
Step-Routed {s} {t} (removes id e) h = Ensures-elim IsRouted _ t (remove_connection-Routed s id h) e

Reachable-Routed : {s : Server} → Reachable s → IsRouted s
unfolding lookup
Reachable-Routed starts = record {
  owned = λ k i found. cc;
  no_zero = refl;
  routed = λ i c found nz. cc;
  fresh = λ i c found. cc;
}
Reachable-Routed (turns r st) = Step-Routed st (Reachable-Routed r)

-- Whatever the clients send and in whatever order the loop runs, as long as the numbers of
-- connections stay below 2^64, a client has a session on at most
-- one connection: two connections of one client are the same, and the responses to the client are
-- routed to it.
pub Reachable-session :
    {s : Server} (i j : ℕ) (c d : Connection)
    → Reachable s
    → lookup i s.connections ≡ some c
    → lookup j s.connections ≡ some d
    → c.client ≢ 0
    → c.client ≡ d.client
    → (i ≡ j) × (lookup c.client s.routes ≡ some i)
Reachable-session {s} i j c d r at_i at_j nz same =
    let h = Reachable-Routed r in
    let route = h.routed i c at_i nz in
    (
      same_value c.client d.client i j s.routes route (h.routed j d at_j (λ z. nz (same ∙ z))) same,
      route,
    )
