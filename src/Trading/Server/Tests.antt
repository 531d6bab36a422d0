-- ===== src/Trading/Server/Tests.antt =====
-- A client that connects and sends its first order.
use limit_order_book.Base.{ℕ, true, false, some, [], ◌∷◌, ◌≡◌, refl, arith, nat_eq}
use limit_order_book.Map.{lookup, insert}
use limit_order_book.Trading.Codec.{frame_of}
use limit_order_book.Trading.Codec.RoundTrip.{decode-frame_of}
use limit_order_book.Trading.Codec.Tests.{order, order-MessageFits}
use limit_order_book.Trading.Server.{
  Connection, Server, new_server, accept_client, receive_frame, receive_message, claim,
}
use limit_order_book.Trading.Server.Sessions.{
  Reachable, starts, turns, accepts, receives, Reachable-session,
}

abbrev waiting : Connection
waiting = record { client = 0; output = []; closing = false; admitted = 0 }

abbrev connected : Server
connected = record new_server { connections = (1, waiting) ∷ []; next_connection = 2; accepted = 1 }

abbrev owner : Connection
owner = record { client = 8; output = []; closing = false; admitted = 1 }

abbrev claimed : Server
claimed = record connected { connections = (1, owner) ∷ []; routes = (8, 1) ∷ [] }

is_connected : Reachable connected
unfolding accept_client insert lookup
is_connected = turns starts (accepts (omega arith))

first_order : receive_frame connected 1 waiting (frame_of order) 5 true ≡ some claimed
unfolding receive_frame receive_message claim lookup insert
first_order = rw (receive_frame, decode-frame_of order order-MessageFits) refl

is_claimed : Reachable claimed
unfolding lookup
is_claimed = turns is_connected (receives 1 (frame_of order) 5 true refl refl first_order)

Reachable-session_example : ◌≡◌ {A = ℕ} 1 1 × (lookup 8 claimed.routes ≡ some 1)
unfolding lookup
Reachable-session_example =
    Reachable-session 1 1 owner owner is_claimed refl refl (omega arith) refl
