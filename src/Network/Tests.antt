-- ===== src/Network/Tests.antt =====
-- A server and two clients, and the theorems of the network at their calls.
use native.Mathlib.Decide.{ℕ_discrete}
use mycore.Base.{
  ℕ, ◌≡◌, refl, ◌∙◌, Option, none, some, List, [], ◌∷◌, ◌++◌, true, false, arith, zero, suc, ltb,
  if◌then◌else◌, get_elem?,
}
use mycore.Rollback.Keyed.{find, emplace}
use mycore.Rollback.Router.Sets.{assign}
use mycore.Network.{
  invalid_handle, DeliveryMode, DisconnectReason, SendStatus, Event, payload_received, server,
  client, InMemoryNetwork, make_network, endpoint_at, connect_client, send, poll, disconnect,
  find_connection, push, store, put,
}
use mycore.Network.Wire.{
  Call, connects, polls, sends, disconnects, Answer, handed, polled, status, done, Wire, perform,
  on_wire, new_wire,
}
use mycore.Network.Represents.{Represents, endpoint_of, connection_of}
use mycore.Network.Refines.{perform-Represents}
use mycore.Network.Slots.{find-cons}
use mycore.Network.Runs.{perform_all, received, posted, waiting, received-waiting}
use mycore.Network.Ends.{ends_once, perform_all-ends_once}

abbrev calls : List Call
calls =
    connects
    ∷ connects
    ∷ sends server 0 (1 ∷ 2 ∷ []) DeliveryMode.reliable
    ∷ sends server 0 (3 ∷ []) DeliveryMode.unreliable
    ∷ polls (client 0)
    ∷ sends (client 1) 1 (4 ∷ []) DeliveryMode.reliable
    ∷ sends (client 1) 0 (5 ∷ []) DeliveryMode.reliable
    ∷ disconnects (client 0) 0
    ∷ sends server 0 (6 ∷ []) DeliveryMode.reliable
    ∷ polls server
    ∷ []

abbrev answers : List Answer
answers =
    handed (client 0)
    ∷ handed (client 1)
    ∷ status SendStatus.sent
    ∷ status SendStatus.sent
    ∷ polled (
        Event.connected 0
        ∷ payload_received 0 DeliveryMode.reliable (1 ∷ 2 ∷ [])
        ∷ payload_received 0 DeliveryMode.unreliable (3 ∷ [])
        ∷ [])
    ∷ status SendStatus.sent
    ∷ status SendStatus.unknown_connection
    ∷ done true
    ∷ status SendStatus.disconnected
    ∷ polled (
        Event.connected 0
        ∷ Event.connected 1
        ∷ payload_received 1 DeliveryMode.reliable (4 ∷ [])
        ∷ Event.disconnected 0 DisconnectReason.remote_request
        ∷ [])
    ∷ []

abbrev answers_of : Option (InMemoryNetwork × List Answer) → List Answer
answers_of none = []
answers_of (some (n, given)) = given

run : answers_of (perform_all make_network calls) ≡ answers
unfolding perform_all perform make_network connect_client send poll disconnect emplace find assign
    find_connection push store endpoint_at put ℕ_discrete
run = refl

received-waiting_example :
    (m : InMemoryNetwork) × (given : List Answer) × (perform_all make_network calls
      ≡ some (m, given))
    × (received (client 0) calls given ++ waiting m (client 0) ≡ posted (client 0) calls given)
received-waiting_example =
    received-waiting calls (client 0)
      (tt, (tt, (tt, (tt, (refl, (refl, (refl, (refl, (tt, (tt, tt))))))))))

perform_all-ends_once_example :
    (m : InMemoryNetwork) × (given : List Answer) × (perform_all make_network calls
      ≡ some (m, given))
    × (ends_once 0 calls given ≡ true)
perform_all-ends_once_example =
    perform_all-ends_once 0 calls
      (tt, (tt, (tt, (tt, (refl, (refl, (refl, (refl, (tt, (tt, tt))))))))))

abbrev wire : Wire
wire = (on_wire new_wire connects).0

abbrev network : InMemoryNetwork
network = record {
  connections = (0, record { handle = 0; client = client 0; connected = true }) ∷ [];
  server = record {
    server = true;
    client_connection = invalid_handle;
    events = Event.connected 0 ∷ [];
  };
  clients = record { server = false; client_connection = 0; events = Event.connected 0 ∷ [] } ∷ [];
  next_connection = 1;
}

network-clients :
    (i : ℕ)
    → get_elem? network.clients i
      ≡ (if ltb i 1 then some (endpoint_of (client i) (wire.inbox (client i))) else none)
network-clients zero = refl
network-clients (suc i) = ground arith

network-unopened : (i : ℕ) → ltb i 1 ≡ false → wire.inbox (client i) ≡ []
network-unopened i late = ground arith

network-connections :
    (h : ℕ)
    → find ℕ_discrete h network.connections
      ≡ (if ltb h 1 then some (connection_of wire h) else none)
unfolding find
network-connections h =
    find-cons h 0 (connection_of wire 0) []
    ∙ (elim (ℕ_discrete h 0) [ yes e ↦ rw (e) refl | no ne ↦ ground arith ])

network-Represents : Represents network wire
unfolding find
network-Represents = record {
  opened = refl;
  bounded = omega arith;
  server = refl;
  count = refl;
  clients = network-clients;
  connections = network-connections;
  unopened = network-unopened;
  unclosed = λ h late. refl;
}

perform-Represents_example :
    (m : InMemoryNetwork) × (perform network (sends server 0 (7 ∷ []) DeliveryMode.reliable)
      ≡ some (m, status SendStatus.sent))
    × Represents m (on_wire wire (sends server 0 (7 ∷ []) DeliveryMode.reliable)).0
perform-Represents_example =
    perform-Represents network wire network-Represents
      (sends server 0 (7 ∷ []) DeliveryMode.reliable) tt
