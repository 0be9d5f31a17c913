-- ===== src/Network.antt =====
-- engine/net_transport: net_transport.hpp and src/in_memory_network.cpp. A ConnectionHandle is its
-- value. A pointer to an endpoint says whose it is: the server's, or that of a client by its place in
-- `clients`. A pointer to no endpoint that is dereferenced is `none`.
pub mod Wire
pub mod Slots
pub mod Represents
pub mod Connects
pub mod Refines
pub mod Runs
pub mod Ends
mod Tests
use native.Mathlib.Decide.{ℕ_discrete}
use mycore.Base.{
  ℕ, zero, suc, ◌+◌, Option, none, some, List, [], ◌∷◌, ◌++◌, Bool, true, false, not, ◌&&◌, ◌||◌,
  ◌==◌, if◌then◌else◌, length, get_elem?,
}
use mycore.Rollback.Keyed.{find, emplace}
use mycore.Rollback.Router.Sets.{assign}

abbrev pub invalid_handle : ℕ
invalid_handle = 4294967295

pub data DeliveryMode : Type 0 where
  reliable unreliable : DeliveryMode

pub data DisconnectReason : Type 0 where
  local_request remote_request transport_failure : DisconnectReason

pub data SendStatus : Type 0 where
  sent unknown_connection disconnected payload_too_large queue_full transport_failure : SendStatus

pub data ConnectionState : Type 0 where
  connecting connected closing disconnected failed : ConnectionState

pub data Event : Type 0 where
  connected : ℕ → Event
  disconnected : ℕ → DisconnectReason → Event
  payload_received : ℕ → DeliveryMode → List ℕ → Event

pub data Side : Type 0 where
  server : Side
  client : ℕ → Side

pub record Connection : Type 0 where
  pub handle : ℕ
  pub client : Side
  pub connected : Bool

pub record InMemoryEndpoint : Type 0 where
  pub server : Bool
  pub client_connection : ℕ
  pub events : List Event

-- `Impl` with its `SharedState`.
pub record InMemoryNetwork : Type 0 where
  pub connections : List (ℕ × Connection)
  pub server : InMemoryEndpoint
  pub clients : List InMemoryEndpoint
  pub next_connection : ℕ

unfoldable pub make_network : InMemoryNetwork
make_network = record {
  connections = [];
  server = record { server = true; client_connection = invalid_handle; events = [] };
  clients = [];
  next_connection = 0;
}

-- A write at a place that is there.
unfoldable pub put : {A : Type 0} → List A → ℕ → A → List A
put [] i a = []
put (x ∷ xs) zero a = a ∷ xs
put (x ∷ xs) (suc i) a = x ∷ put xs i a

unfoldable pub endpoint_at : InMemoryNetwork → Side → Option InMemoryEndpoint
endpoint_at n server = some n.server
endpoint_at n (client i) = get_elem? n.clients i

unfoldable pub store : InMemoryNetwork → Side → InMemoryEndpoint → InMemoryNetwork
unfolding put
store n server endpoint = record n { server = endpoint }
store n (client i) endpoint = record n { clients = put n.clients i endpoint }

unfoldable pub push : InMemoryNetwork → Side → Event → Option InMemoryNetwork
unfolding endpoint_at store
push n side event = elim (endpoint_at n side) [
  | none ↦ none
  | some endpoint ↦ some (store n side (record endpoint { events = endpoint.events ++ event ∷ [] }))
]

unfoldable pub find_connection : List (ℕ × Connection) → InMemoryEndpoint → ℕ → Option Connection
find_connection connections endpoint connection =
    if connection == invalid_handle
      || (not endpoint.server && not (connection == endpoint.client_connection))
    then none
    else find ℕ_discrete connection connections

-- `server_ ? value->client : state_.server`.
abbrev pub peer_of : InMemoryEndpoint → Connection → Side
peer_of endpoint value = if endpoint.server then value.client else server

unfoldable pub poll : InMemoryNetwork → Side → Option (InMemoryNetwork × List Event)
unfolding endpoint_at store
poll n side = elim (endpoint_at n side) [
  | none ↦ none
  | some endpoint ↦ some (store n side (record endpoint { events = [] }), endpoint.events)
]

-- The answer of a call that pushes an event first.
abbrev pub answer : {A : Type 0} → A → Option InMemoryNetwork → Option (InMemoryNetwork × A)
answer a none = none
answer a (some n) = some (n, a)

unfoldable pub send :
    InMemoryNetwork → Side → ℕ → List ℕ → DeliveryMode → Option (InMemoryNetwork × SendStatus)
unfolding endpoint_at find_connection push
send n side connection payload delivery = elim (endpoint_at n side) [
  | none ↦ none
  | some endpoint ↦ elim (find_connection n.connections endpoint connection) [
    | none ↦ some (n, SendStatus.unknown_connection)
    | some value ↦
        if not value.connected
        then some (n, SendStatus.disconnected)
        else answer SendStatus.sent
            (push n (peer_of endpoint value) (payload_received connection delivery payload))
  ]
]

abbrev pub push_next : Option InMemoryNetwork → Side → Event → Option InMemoryNetwork
push_next none side event = none
push_next (some n) side event = push n side event

unfoldable pub disconnect : InMemoryNetwork → Side → ℕ → Option (InMemoryNetwork × Bool)
unfolding endpoint_at find_connection push
disconnect n side connection = elim (endpoint_at n side) [
  | none ↦ none
  | some endpoint ↦ elim (find_connection n.connections endpoint connection) [
    | none ↦ some (n, false)
    | some value ↦
        if not value.connected
        then some (n, false)
        else let marked : InMemoryNetwork = record n {
          connections =
              assign ℕ_discrete connection (record value { connected = false }) n.connections;
        } in
          let here = push marked side (disconnected connection DisconnectReason.local_request) in
          answer true (
            push_next here (peer_of endpoint value)
              (disconnected connection DisconnectReason.remote_request))
  ]
]

-- The state of a connection; the other statistics stay empty.
unfoldable pub statistics : InMemoryNetwork → Side → ℕ → Option (Option ConnectionState)
unfolding endpoint_at find_connection
statistics n side connection = elim (endpoint_at n side) [
  | none ↦ none
  | some endpoint ↦ elim (find_connection n.connections endpoint connection) [
    | none ↦ some none
    | some value ↦
        some (
          some
            (if value.connected then ConnectionState.connected else ConnectionState.disconnected))
  ]
]

-- `none` is the exception `std::runtime_error`.
unfoldable pub connect_client : InMemoryNetwork → Option (InMemoryNetwork × Side)
connect_client n =
    if n.next_connection == invalid_handle
    then none
    else let handle = n.next_connection in
      let pointer = client (length n.clients) in
      some (
        record {
          connections =
              (emplace ℕ_discrete handle
                (record { handle = handle; client = pointer; connected = true }) n.connections).0;
          server = record n.server { events = n.server.events ++ Event.connected handle ∷ [] };
          clients =
              n.clients
              ++ record {
                server = false;
                client_connection = handle;
                events = Event.connected handle ∷ [];
              }
                ∷ [];
          next_connection = handle + 1;
        },
        pointer,
      )
