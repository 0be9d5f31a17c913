-- ===== src/Network/Wire.antt =====
-- What a network of endpoints in one process promises, without its pointers: how many connections were
-- opened, which are closed, and what waits at each end.
use mycore.Base.{
  ℕ, ◌+◌, Option, none, some, List, [], ◌∷◌, ◌++◌, Bool, true, false, ltb, ◌==◌, if◌then◌else◌, ◌≡◌,
}
use mycore.Network.{
  invalid_handle, DeliveryMode, DisconnectReason, SendStatus, ConnectionState, Event, disconnected,
  payload_received, Side, server, client, InMemoryNetwork, poll, send, disconnect, statistics,
  connect_client,
}

pub data Call : Type 0 where
  connects : Call
  polls : Side → Call
  sends : Side → ℕ → List ℕ → DeliveryMode → Call
  disconnects : Side → ℕ → Call
  asks : Side → ℕ → Call

pub data Answer : Type 0 where
  exhausted : Answer
  handed : Side → Answer
  polled : List Event → Answer
  status : SendStatus → Answer
  done : Bool → Answer
  state : Option ConnectionState → Answer

abbrev answered :
    {A : Type 0} → (A → Answer) → Option (InMemoryNetwork × A) → Option (InMemoryNetwork × Answer)
answered wrap none = none
answered wrap (some (n, a)) = some (n, wrap a)

abbrev reported :
    InMemoryNetwork → Option (Option ConnectionState) → Option (InMemoryNetwork × Answer)
reported n none = none
reported n (some found) = some (n, state found)

-- A call of the network's functions; the network stays as it was when one throws.
unfoldable pub perform : InMemoryNetwork → Call → Option (InMemoryNetwork × Answer)
perform n connects = elim (connect_client n) [
  | none ↦ some (n, exhausted)
  | some (m, side) ↦ some (m, handed side)
]
perform n (polls side) = answered polled (poll n side)
perform n (sends side connection payload delivery) =
    answered status (send n side connection payload delivery)
perform n (disconnects side connection) = answered done (disconnect n side connection)
perform n (asks side connection) = reported n (statistics n side connection)

pub record Wire : Type 0 where
  pub opened : ℕ
  pub closed : ℕ → Bool
  pub inbox : Side → List Event

abbrev pub new_wire : Wire
new_wire = record { opened = 0; closed = λ h. false; inbox = λ side. [] }

abbrev pub same_side : Side → Side → Bool
same_side server server = true
same_side server (client j) = false
same_side (client i) server = false
same_side (client i) (client j) = i == j

abbrev pub set_inbox : Side → List Event → Wire → Wire
set_inbox to events w = record w {
  inbox = λ side. if same_side to side then events else w.inbox side;
}

abbrev pub deliver : Side → Event → Wire → Wire
deliver to event w = set_inbox to (w.inbox to ++ event ∷ []) w

-- A client has one connection, and the server all that were opened.
abbrev pub knows : Wire → Side → ℕ → Bool
knows w server h = ltb h w.opened
knows w (client i) h = h == i

abbrev pub peer : Side → ℕ → Side
peer server h = client h
peer (client i) h = server

abbrev pub opens : Wire → Wire
opens w = record w { opened = w.opened + 1 }

abbrev pub close : ℕ → Wire → Wire
close h w = record w { closed = λ j. if j == h then true else w.closed j }

abbrev pub send_on : Wire → Side → ℕ → List ℕ → DeliveryMode → Wire × SendStatus
send_on w side h payload delivery =
    if knows w side h
    then if w.closed h
      then (w, SendStatus.disconnected)
      else (deliver (peer side h) (payload_received h delivery payload) w, SendStatus.sent)
    else (w, SendStatus.unknown_connection)

abbrev pub disconnect_on : Wire → Side → ℕ → Wire × Bool
disconnect_on w side h =
    if knows w side h
    then if w.closed h then (w, false) else (
      deliver (peer side h) (disconnected h DisconnectReason.remote_request)
          (deliver side (disconnected h DisconnectReason.local_request) (close h w)),
      true,
    )
    else (w, false)

abbrev pub state_on : Wire → Side → ℕ → Option ConnectionState
state_on w side h =
    if knows w side h
    then some (if w.closed h then ConnectionState.disconnected else ConnectionState.connected)
    else none

abbrev pub connect_on : Wire → Wire × Answer
connect_on w = if w.opened == invalid_handle then (w, exhausted) else (
  deliver (client w.opened) (Event.connected w.opened)
      (deliver server (Event.connected w.opened) (opens w)),
  handed (client w.opened),
)

-- What each call does.
abbrev pub on_wire : Wire → Call → Wire × Answer
on_wire w connects = connect_on w
on_wire w (polls side) = (set_inbox side [] w, polled (w.inbox side))
on_wire w (sends side h payload delivery) =
    let (v, s) = send_on w side h payload delivery in (v, status s)
on_wire w (disconnects side h) = let (v, b) = disconnect_on w side h in (v, done b)
on_wire w (asks side h) = (w, state (state_on w side h))

-- An end that exists: the server's, or that of a client that was connected.
abbrev pub IsOpen : Wire → Side → Type 0
IsOpen w server = Unit
IsOpen w (client i) = ltb i w.opened ≡ true

-- A call at an end that exists.
abbrev pub IsHeld : Wire → Call → Type 0
IsHeld w connects = Unit
IsHeld w (polls side) = IsOpen w side
IsHeld w (sends side h payload delivery) = IsOpen w side
IsHeld w (disconnects side h) = IsOpen w side
IsHeld w (asks side h) = IsOpen w side
