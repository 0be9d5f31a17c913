-- ===== src/Network/Represents.antt =====
-- When a network holds what a wire says, and what a write to an endpoint or to the connections keeps of it.
use native.Mathlib.Decide.{ℕ_discrete}
use mycore.Base.{
  ℕ, ◌≤◌, ◌≡◌, refl, ap, ◌∙◌, Option, none, some, List, [], ◌∷◌, ◌++◌, Bool, true, false, not, ltb,
  if◌then◌else◌, length, get_elem?, arith,
}
use mycore.Rollback.Keyed.{find}
use mycore.Rollback.Router.Sets.{assign}
use mycore.Network.{
  invalid_handle, Event, Side, server, client, Connection, InMemoryEndpoint, InMemoryNetwork,
  peer_of, endpoint_at, store, push, find_connection,
}
use mycore.Network.Wire.{Wire, set_inbox, deliver, knows, peer, close, IsOpen}
use mycore.Network.Slots.{length-put, get_elem?-put, find-assign}

abbrev pub is_server : Side → Bool
is_server server = true
is_server (client i) = false

abbrev pub own_handle : Side → ℕ
own_handle server = invalid_handle
own_handle (client i) = i

abbrev pub endpoint_of : Side → List Event → InMemoryEndpoint
endpoint_of side events = record {
  server = is_server side;
  client_connection = own_handle side;
  events = events;
}

abbrev pub connection_of : Wire → ℕ → Connection
connection_of w h = record { handle = h; client = client h; connected = not (w.closed h) }

-- The network holds what the wire says.
pub record Represents (n : InMemoryNetwork) (w : Wire) : Type 0 where
  pub opened : n.next_connection ≡ w.opened
  pub bounded : w.opened ≤ invalid_handle
  pub server : n.server ≡ endpoint_of server (w.inbox server)
  pub count : length n.clients ≡ w.opened
  pub clients :
      (i : ℕ)
      → get_elem? n.clients i
        ≡ (if ltb i w.opened then some (endpoint_of (client i) (w.inbox (client i))) else none)
  pub connections :
      (h : ℕ)
      → find ℕ_discrete h n.connections
        ≡ (if ltb h w.opened then some (connection_of w h) else none)
  pub unopened : (i : ℕ) → ltb i w.opened ≡ false → w.inbox (client i) ≡ []
  pub unclosed : (h : ℕ) → ltb h w.opened ≡ false → w.closed h ≡ false

pub peer-Open :
    (w : Wire) (side : Side) (h : ℕ)
    → IsOpen w side
    → knows w side h ≡ true
    → IsOpen w (peer side h)
peer-Open w server h at known = known
peer-Open w (client i) h at known = tt

pub peer_of-peer :
    (w : Wire) (side : Side) (h : ℕ) (events : List Event)
    → peer_of (endpoint_of side events) (connection_of w h) ≡ peer side h
peer_of-peer w server h events = refl
peer_of-peer w (client i) h events = refl

-- A call of the code gives the answer of the wire, in a network that holds what the wire says then.
abbrev pub Does : {A : Type 0} → Option (InMemoryNetwork × A) → Wire × A → Type 0
Does result (w, a) = (m : InMemoryNetwork) × (result ≡ some (m, a)) × Represents m w

module _ (n : InMemoryNetwork) (w : Wire) (r : Represents n w) where
  pub endpoint_at-Represents :
      (side : Side) → IsOpen w side → endpoint_at n side ≡ some (endpoint_of side (w.inbox side))
  unfolding endpoint_at
  endpoint_at-Represents server h = ap some r.server
  endpoint_at-Represents (client i) h = r.clients i ∙ (rw (h) refl)

  pub store-Represents :
      (side : Side) (events : List Event)
      → IsOpen w side
      → Represents (store n side (endpoint_of side events)) (set_inbox side events w)
  unfolding store
  store-Represents server events h = record {
    opened = r.opened;
    bounded = r.bounded;
    server = refl;
    count = r.count;
    clients = r.clients;
    connections = r.connections;
    unopened = r.unopened;
    unclosed = r.unclosed;
  }
  store-Represents (client i) events h = record {
    opened = r.opened;
    bounded = r.bounded;
    server = r.server;
    count = length-put n.clients i (endpoint_of (client i) events) ∙ r.count;
    clients = λ j.
        let old = r.clients j in
        let new = get_elem?-put n.clients i j (endpoint_of (client i) events) (rw (r.count) h) in
        ground arith;
    connections = r.connections;
    unopened = λ j late. let old = r.unopened j late in ground arith;
    unclosed = r.unclosed;
  }

  pub find_connection-Represents :
      (side : Side) (h : ℕ)
      → IsOpen w side
      → find_connection n.connections (endpoint_of side (w.inbox side)) h
        ≡ (if knows w side h then some (connection_of w h) else none)
  unfolding find_connection
  find_connection-Represents server h at =
      let found = r.connections h in let few = r.bounded in ground arith
  find_connection-Represents (client i) h at =
      let found = r.connections h in let few = r.bounded in ground arith

  pub push-Represents :
      (side : Side) (event : Event)
      → IsOpen w side
      → (m : InMemoryNetwork) × (push n side event ≡ some m) × Represents m (deliver side event w)
  unfolding push
  push-Represents side event h =
      let events = w.inbox side ++ event ∷ [] in
      (
        store n side (endpoint_of side events),
        rw (push, endpoint_at-Represents side h) refl,
        store-Represents side events h,
      )

  pub close-Represents :
      (h : ℕ)
      → ltb h w.opened ≡ true
      → Represents
          (record n {
            connections =
                assign ℕ_discrete h
                  (record (connection_of w h) { connected = false })
                  n.connections;
          })
          (close h w)
  close-Represents h known = record {
    opened = r.opened;
    bounded = r.bounded;
    server = r.server;
    count = r.count;
    clients = r.clients;
    connections = λ j.
        let old = r.connections j in
        let there = r.connections h ∙ (rw (known) refl) in
        let new =
          find-assign j h (record (connection_of w h) { connected = false }) (connection_of w h)
            n.connections there in
        ground arith;
    unopened = r.unopened;
    unclosed = λ j late. let old = r.unclosed j late in ground arith;
  }

pub IsOpen-opened : (w v : Wire) (side : Side) → w.opened ≡ v.opened → IsOpen w side → IsOpen v side
IsOpen-opened w v server e at = tt
IsOpen-opened w v (client i) e at = ground arith

pub knows-opened :
    (w : Wire) (side : Side) (h : ℕ) → IsOpen w side → knows w side h ≡ true → ltb h w.opened ≡ true
knows-opened w server h at known = known
knows-opened w (client i) h at known = ground arith
