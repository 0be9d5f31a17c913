-- ===== src/Network/Refines.antt =====
-- The network does what Wire says.
use mycore.Base.{ℕ, ◌≡◌, refl, inl, inr, some, List, [], arith, Bool-cases}
use mycore.Rollback.Keyed.{find}
use mycore.Network.{
  DeliveryMode, DisconnectReason, Event, payload_received, Side, InMemoryNetwork, make_network,
  store, poll, send, disconnect, statistics,
}
use mycore.Network.Wire.{
  Call, connects, polls, sends, disconnects, asks, perform, Wire, set_inbox, deliver, knows, peer,
  close, on_wire, state_on, send_on, disconnect_on, IsOpen, IsHeld, new_wire,
}
use mycore.Network.Represents.{
  endpoint_of, Represents, peer-Open, peer_of-peer, Does, endpoint_at-Represents, store-Represents,
  find_connection-Represents, push-Represents, close-Represents, IsOpen-opened, knows-opened,
}
use mycore.Network.Connects.{connect_client-Represents}

module _ (n : InMemoryNetwork) (w : Wire) (r : Represents n w) where
  poll-Represents :
      (side : Side) → IsOpen w side → Does (poll n side) (set_inbox side [] w, w.inbox side)
  unfolding poll
  poll-Represents side h = (
    store n side (endpoint_of side []),
    rw (poll, endpoint_at-Represents n w r side h) refl,
    store-Represents n w r side [] h,
  )

  statistics-Represents :
      (side : Side) (h : ℕ) → IsOpen w side → statistics n side h ≡ some (state_on w side h)
  unfolding statistics
  statistics-Represents side h at =
      rw
        (
          statistics,
          endpoint_at-Represents n w r side at,
          find_connection-Represents n w r side h at,
        )
        (ground arith)

  send-Represents :
      (side : Side) (h : ℕ) (payload : List ℕ) (delivery : DeliveryMode)
      → IsOpen w side
      → Does (send n side h payload delivery) (send_on w side h payload delivery)
  unfolding send
  send-Represents side h payload delivery at =
      let found = find_connection-Represents n w r side h at in
      let here = endpoint_at-Represents n w r side at in
      elim (Bool-cases (knows w side h)) [
        | inr unknown ↦ rw (unknown) (n, rw (send, here, found, unknown) refl, r)
        | inl known ↦ elim (Bool-cases (w.closed h)) [
          | inl shut ↦ rw (known, shut) (n, rw (send, here, found, known, shut) refl, r)
          | inr live ↦
              let event = payload_received h delivery payload in
              let (m, at', held) =
                push-Represents n w r (peer side h) event (peer-Open w side h at known) in
              rw (known, live)
                (
                  m,
                  rw (send, here, found, known, live, peer_of-peer w side h (w.inbox side), at')
                      refl,
                  held,
                )
        ]
      ]

  disconnect-Represents :
      (side : Side) (h : ℕ) → IsOpen w side → Does (disconnect n side h) (disconnect_on w side h)
  unfolding disconnect
  disconnect-Represents side h at =
      let found = find_connection-Represents n w r side h at in
      let here = endpoint_at-Represents n w r side at in
      elim (Bool-cases (knows w side h)) [
        | inr unknown ↦ rw (unknown) (n, rw (disconnect, here, found, unknown) refl, r)
        | inl known ↦ elim (Bool-cases (w.closed h)) [
          | inl shut ↦ rw (known, shut) (n, rw (disconnect, here, found, known, shut) refl, r)
          | inr live ↦
              let own = Event.disconnected h DisconnectReason.local_request in
              let other = Event.disconnected h DisconnectReason.remote_request in
              let v = close h w in
              let u = deliver side own v in
              let marked = close-Represents n w r h (knows-opened w side h at known) in
              let (m, first, held) =
                push-Represents _ v marked side own (IsOpen-opened w v side refl at) in
              let (l, second, last) =
                push-Represents m u held (peer side h) other
                  (IsOpen-opened w u (peer side h) refl (peer-Open w side h at known)) in
              rw (known, live)
                (
                  l,
                  rw
                      (
                        disconnect,
                        here,
                        found,
                        known,
                        live,
                        peer_of-peer w side h (w.inbox side),
                        first,
                        second,
                      )
                      refl,
                  last,
                )
        ]
      ]

  -- A call at an end that exists returns what the wire answers, and the network then holds what the
  -- wire says: no pointer to no endpoint is dereferenced.
  pub perform-Represents : (call : Call) → IsHeld w call → Does (perform n call) (on_wire w call)
  unfolding perform
  perform-Represents connects at = connect_client-Represents n w r
  perform-Represents (polls side) at =
      let (m, same, held) = poll-Represents side at in (m, rw (same) refl, held)
  perform-Represents (sends side h payload delivery) at =
      let (m, same, held) = send-Represents side h payload delivery at in (m, rw (same) refl, held)
  perform-Represents (disconnects side h) at =
      let (m, same, held) = disconnect-Represents side h at in (m, rw (same) refl, held)
  perform-Represents (asks side h) at = (n, rw (statistics-Represents side h at) refl, r)

pub make_network-Represents : Represents make_network new_wire
unfolding make_network find
make_network-Represents = record {
  opened = refl;
  bounded = omega arith;
  server = refl;
  count = refl;
  clients = λ i. ground arith;
  connections = λ h. ground arith;
  unopened = λ i late. refl;
  unclosed = λ h late. refl;
}
