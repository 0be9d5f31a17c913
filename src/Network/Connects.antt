-- ===== src/Network/Connects.antt =====
-- A new client.
use native.Mathlib.Decide.{ℕ_discrete}
use mycore.Base.{
  ℕ, ◌+◌, ◌≡◌, refl, ap, ◌∙◌, inl, inr, none, some, [], ◌∷◌, ◌++◌, true, false, ltb, ◌==◌,
  if◌then◌else◌, length, get_elem?, arith, Bool-cases, length-append,
}
use mycore.Rollback.Keyed.{find, emplace, emplace-new}
use mycore.Network.{invalid_handle, Event, client, Connection, InMemoryNetwork, connect_client}
use mycore.Network.Wire.{connects, handed, perform, Wire, connect_on}
use mycore.Network.Slots.{get_elem?-snoc, find-cons}
use mycore.Network.Represents.{endpoint_of, connection_of, Represents, Does}

module _ (n : InMemoryNetwork) (w : Wire) (r : Represents n w) where
  connected : InMemoryNetwork
  connected = record {
    connections =
        (emplace ℕ_discrete n.next_connection
          (record {
            handle = n.next_connection;
            client = client (length n.clients);
            connected = true;
          })
          n.connections).0;
    server = record n.server { events = n.server.events ++ Event.connected n.next_connection ∷ [] };
    clients =
        n.clients
        ++ endpoint_of (client n.next_connection) (Event.connected n.next_connection ∷ []) ∷ [];
    next_connection = n.next_connection + 1;
  }

  connected-connections :
      (h : ℕ)
      → find ℕ_discrete h connected.connections
        ≡ (if ltb h (w.opened + 1) then some (connection_of w h) else none)
  unfolding connected
  connected-connections h =
      let o = n.next_connection in
      let free : find ℕ_discrete o n.connections ≡ none =
        let found = r.connections o in let e = r.opened in ground arith in
      let value : Connection = record {
        handle = o;
        client = client (length n.clients);
        connected = true;
      } in
      let added = emplace-new ℕ_discrete o value n.connections free in
      let found = find-cons h o value n.connections in
      let old = r.connections h in
      let live = r.unclosed w.opened (ground arith) in
      rw (added) (
        found
        ∙ (rw (r.opened, r.count)
            (elim (ℕ_discrete h w.opened) [
              | yes e ↦ rw (e, live) (ground arith)
              | no ne ↦ ground arith
            ])))

  connected-clients :
      (i : ℕ)
      → get_elem? connected.clients i ≡ (
          if ltb i (w.opened + 1)
          then some (
              endpoint_of (client i) (
                if w.opened == i
                then w.inbox (client w.opened) ++ Event.connected w.opened ∷ []
                else w.inbox (client i)))
          else none)
  unfolding connected
  connected-clients i =
      let new =
        get_elem?-snoc n.clients i
          (endpoint_of (client n.next_connection) (Event.connected n.next_connection ∷ [])) in
      let old = r.clients i in
      let empty = r.unopened w.opened (ground arith) in
      let e = r.opened in
      let c = r.count in
      new
      ∙ (rw (empty, r.opened, r.count)
          (elim (ℕ_discrete i w.opened) [ yes e ↦ rw (e) (ground arith) | no ne ↦ ground arith ]))

  pub connect_client-Represents : Does (perform n connects) (connect_on w)
  unfolding perform connect_client connected
  connect_client-Represents = elim (Bool-cases (w.opened == invalid_handle)) [
    | inl full ↦
        let full' : (n.next_connection == invalid_handle) ≡ true = rw (r.opened) full in
        rw (full) (n, rw (perform, connect_client, full') refl, r)
    | inr room ↦
        let room' : (n.next_connection == invalid_handle) ≡ false = rw (r.opened) room in
        rw (room) (
          connected,
          rw (perform, connect_client, room')
              (ap (λ i. some (connected, handed (client i))) r.count),
          record {
            opened = ap (λ o. o + 1) r.opened;
            bounded = let few = r.bounded in ground arith;
            server = rw (r.server, r.opened) refl;
            count = length-append n.clients _ ∙ ap (λ k. k + 1) r.count;
            clients = connected-clients;
            connections = λ h. connected-connections h;
            unopened = λ i late. let old = r.unopened i (ground arith) in ground arith;
            unclosed = λ h late. let old = r.unclosed h (ground arith) in ground arith;
          },
        )
  ]
