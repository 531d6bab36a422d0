-- ===== src/Trading/Server/Moves.antt =====
-- What each turn of the loop of src/trading/server.cpp keeps.
use limit_order_book.Base.{
  both_true, not-true, ℕ, ◌+◌, Bool, true, false, not, ◌&&◌, ◌||◌, Option, some, [], ◌∷◌, length,
  ◌-◌, ◌++◌, ◌%◌, ◌<◌, arith, drop, ltb, leb, ◌==◌, nat_eq, if◌then◌else◌, ◌≡◌, ◌≢◌, refl,
  Bool-cases, Option-cases, inl, inr, nat_beq_iff, is_some,
}
use limit_order_book.Types.{u64_mod}
use limit_order_book.Map.{lookup, insert, contains}
use limit_order_book.Net.Frames.{Frame}
use limit_order_book.Trading.Messages.{Message}
use limit_order_book.Trading.Codec.{decode, encode}
use limit_order_book.Trading.Engine.State.{◌>>=◌}
use limit_order_book.Trading.Engine.Ensures.{Ensures, Ensures-bind, Ensures-elim, Ensures-then}
use limit_order_book.Trading.Server.{
  Connection, Server, is_last, put_connection, append_to, target_of, deliver, accept_client,
  is_command, is_snapshot, is_allowed, admit, busy, close, claim, receive_message, receive_frame,
  remove_connection, flush_output,
}
use limit_order_book.Trading.Server.Routes.{
  at_key, IsRouted, unused, put-Routed, claim-Routed, remove-Routed, accept-Routed,
}

append_to-Routed :
    (s : Server) (id : ℕ) (c : Connection) (m : Message)
    → IsRouted s
    → lookup id s.connections ≡ some c
    → Ensures IsRouted (append_to s id c m)
unfolding append_to
append_to-Routed s id c m h at = elim (Bool-cases (leb 4096 (length c.output))) [
  | inl slow ↦ rw slow (
      put-Routed s.connections s.routes s.next_connection h id c
        (record c { closing = true; output = [] }) at refl)
  | inr quick ↦ rw quick (
      Ensures-bind IsRouted (encode m >>= taken) _ λ c' k.
        put-Routed s.connections s.routes s.next_connection h id c c' at (
          Ensures-elim (λ x. x.client ≡ c.client) _ c'
            (Ensures-bind (λ x. x.client ≡ c.client) (encode m) taken λ f e. refl) k))
]
  where
    taken : Frame → Option Connection
    taken frame = some (record c {
      output = c.output ++ frame ∷ [];
      admitted = if is_last m then c.admitted - 1 else c.admitted;
    })

admit-Routed :
    (s : Server) (id : ℕ) (c : Connection) (room : Bool)
    → IsRouted s
    → lookup id s.connections ≡ some c
    → IsRouted (admit s id c room)
admit-Routed s id c true h at =
    put-Routed s.connections s.routes s.next_connection h id c
      (record c { admitted = (c.admitted + 1) % u64_mod }) at refl
admit-Routed s id c false h at = h

pub deliver-Routed :
    (s : Server) (connection : ℕ) (m : Message)
    → IsRouted s
    → Ensures IsRouted (deliver s connection m)
unfolding deliver
deliver-Routed s connection m h = elim (Option-cases (target_of s connection m)) [
  | inl lost ↦ rw (deliver, target_of, lost) h
  | inr (target, found) ↦ elim (Option-cases (lookup target s.connections)) [
    | inl gone ↦ rw (deliver, target_of, found, gone) h
    | inr (c, at) ↦
        rw (deliver, target_of, found, at)
          (unless c.closing (append_to s target c m) (append_to-Routed s target c m h at))
  ]
]
  where
    unless :
        (b : Bool) (o : Option Server)
        → Ensures IsRouted o
        → Ensures IsRouted (if b then some s else o)
    unless true o k = h
    unless false o k = k

close-Routed : (s : Server) (id : ℕ) → IsRouted s → Ensures IsRouted (close id s)
close-Routed s id h = Ensures-bind IsRouted (lookup id s.connections) _ λ c at.
    put-Routed s.connections s.routes s.next_connection h id c (record c { closing = true }) at refl

claim-IsRouted :
    (s : Server) (id : ℕ) (c : Connection) (m : Message) (epoch : ℕ) (room : Bool)
    → IsRouted s
    → lookup id s.connections ≡ some c
    → c.client ≡ 0
    → m.client_id ≢ 0
    → Ensures IsRouted (claim s id c m epoch room)
unfolding claim
claim-IsRouted s id c m epoch room h at unclaimed nz =
    elim (Option-cases (lookup m.client_id s.routes)) [
      | inr (i, there) ↦
          rw (contains, is_some, there)
            (Ensures-then IsRouted IsRouted (append_to s id c (busy m epoch)) (close id)
              (append_to-Routed s id c (busy m epoch) h at) λ t h'. close-Routed t id h')
      | inl free ↦
          rw (contains, is_some, free)
            (let mine = record c { client = m.client_id } in
              admit-Routed
                (put_connection (record s { routes = insert ltb m.client_id id s.routes }) id mine)
                id mine room
                (claim-Routed s.connections s.routes s.next_connection h id m.client_id c mine at
                  unclaimed nz free refl)
                (at_key id mine s.connections))
    ]

-- An allowed command that is not for a snapshot names its client.
names_client : (a b d : Bool) (n : ℕ) → a && ((b || not (n == 0)) && d) ≡ true → b ≡ false → n ≢ 0
names_client true true d n h k = cc
names_client true false d n h k = λ z. contradiction (n == 0) d h ((nat_beq_iff n 0).1 z)
  where
    contradiction : (z d : Bool) → (not z && d) ≡ true → z ≡ true → ⊥
    contradiction true d p q = cc
    contradiction false d p q = cc
names_client false b d n h k = cc

receive_message-Routed :
    (s : Server) (id : ℕ) (c : Connection) (m : Message) (epoch : ℕ) (room : Bool)
    → IsRouted s
    → lookup id s.connections ≡ some c
    → Ensures IsRouted (receive_message s id c m epoch room)
unfolding receive_message
receive_message-Routed s id c m epoch room h at = elim (Bool-cases (is_allowed c m)) [
  | inr bad ↦ rw (is_allowed, bad) h
  | inl allowed ↦ elim (Bool-cases ((c.client == 0) && not (is_snapshot m.action))) [
    | inr known ↦ rw (is_allowed, allowed, known) (admit-Routed s id c room h at)
    | inl first ↦
        rw (is_allowed, allowed, first)
          (let (none_yet, no_snapshot) =
              both_true (c.client == 0) (not (is_snapshot m.action)) first in
            claim-IsRouted s id c m epoch room h at ((nat_beq_iff c.client 0).0 none_yet) (
              names_client (is_command m.kind) (is_snapshot m.action)
                (c.client == 0 || (m.client_id == c.client)) m.client_id allowed
                (not-true (is_snapshot m.action) no_snapshot)))
  ]
]

pub receive_frame-Routed :
    (s : Server) (id : ℕ) (c : Connection) (frame : Frame) (epoch : ℕ) (room : Bool)
    → IsRouted s
    → lookup id s.connections ≡ some c
    → Ensures IsRouted (receive_frame s id c frame epoch room)
unfolding receive_frame
receive_frame-Routed s id c frame epoch room h at = elim (Option-cases (decode frame)) [
  | inl bad ↦ rw (receive_frame, bad) h
  | inr (m, read) ↦ rw (receive_frame, read) (receive_message-Routed s id c m epoch room h at)
]

no_wrap : (n : ℕ) → n + 1 < u64_mod → (n + 1) % u64_mod ≡ n + 1
no_wrap n h = omega (arith, h)

pub accept_client-Routed :
    (s : Server) → s.next_connection + 1 < u64_mod → IsRouted s → IsRouted (accept_client s)
unfolding accept_client
accept_client-Routed s few h = elim (Bool-cases (leb 64 (length s.connections))) [
  | inl full ↦ rw full h
  | inr room ↦
      rw
        (
          room,
          no_wrap s.next_connection few,
          contains,
          is_some,
          unused s.connections s.routes s.next_connection h,
        )
        (accept-Routed s.connections s.routes s.next_connection h
          (record { client = 0; output = []; closing = false; admitted = 0 }) refl)
]

pub flush_output-Routed :
    (s : Server) (id sent : ℕ) → IsRouted s → Ensures IsRouted (flush_output s id sent)
unfolding flush_output
flush_output-Routed s id sent h = Ensures-bind IsRouted (lookup id s.connections) _ λ c at.
    put-Routed s.connections s.routes s.next_connection h id c
      (record c { output = drop sent c.output }) at refl

pub remove_connection-Routed :
    (s : Server) (id : ℕ) → IsRouted s → Ensures IsRouted (remove_connection s id)
unfolding remove_connection
remove_connection-Routed s id h =
    Ensures-bind IsRouted (lookup id s.connections) _
      λ c at. remove-Routed s.connections s.routes s.next_connection h id c at
