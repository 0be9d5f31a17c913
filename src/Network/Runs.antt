-- ===== src/Network/Runs.antt =====
-- Sequences of calls, and what arrives at an end over one.
use mathlib.Core.List.{append_assoc, append-nil}
use mycore.Base.{
  ◌≡◌, refl, sym, ap, ◌∙◌, inl, inr, Option, none, some, List, [], ◌∷◌, ◌++◌, Bool, true, false,
  ltb, ◌==◌, if◌then◌else◌, Bool-cases, arith,
}
use mycore.Network.{
  invalid_handle, DisconnectReason, SendStatus, Event, payload_received, Side, server, client,
  InMemoryNetwork, make_network, endpoint_at,
}
use mycore.Network.Wire.{
  Call, connects, polls, sends, disconnects, asks, Answer, handed, polled, status, done, perform,
  Wire, new_wire, same_side, deliver, close, opens, knows, peer, on_wire, IsHeld,
}
use mycore.Network.Represents.{Represents}
use mycore.Network.Refines.{perform-Represents, make_network-Represents}

unfoldable pub perform_all : InMemoryNetwork → List Call → Option (InMemoryNetwork × List Answer)
perform_all n [] = some (n, [])
perform_all n (call ∷ calls) = elim (perform n call) [
  | none ↦ none
  | some (m, answer) ↦ elim (perform_all m calls) [
    | none ↦ none
    | some (l, answers) ↦ some (l, answer ∷ answers)
  ]
]

abbrev pub on_wire_all : Wire → List Call → Wire × List Answer
on_wire_all w [] = (w, [])
on_wire_all w (call ∷ calls) =
    let (v, answer) = on_wire w call in
    let (u, answers) = on_wire_all v calls in (u, answer ∷ answers)

-- Each call is at an end that exists then.
abbrev pub AreHeld : Wire → List Call → Type 0
AreHeld w [] = Unit
AreHeld w (call ∷ calls) = IsHeld w call × AreHeld (on_wire w call).0 calls

pub perform_all-Represents :
    (n : InMemoryNetwork) (w : Wire) (calls : List Call)
    → Represents n w
    → AreHeld w calls
    → (m : InMemoryNetwork) × (perform_all n calls ≡ some (m, (on_wire_all w calls).1))
      × Represents m (on_wire_all w calls).0
unfolding perform_all
perform_all-Represents n w [] r h = (n, refl, r)
perform_all-Represents n w (call ∷ calls) r h =
    let (m, first, held) = perform-Represents n w r call h.0 in
    let (l, others, last) = perform_all-Represents m (on_wire w call).0 calls held h.1 in
    (l, rw (perform_all, first, others) refl, last)

abbrev pub when : {A : Type 0} → Bool → A → List A
when true a = a ∷ []
when false a = []

-- The events for an end that a call makes, by its answer.
abbrev pub posts : Side → Call → Answer → List Event
posts side connects (handed (client h)) =
    when (same_side server side) (Event.connected h)
    ++ when (same_side (client h) side) (Event.connected h)
posts side (sends from h payload delivery) (status SendStatus.sent) =
    when (same_side (peer from h) side) (payload_received h delivery payload)
posts side (disconnects from h) (done true) =
    when (same_side from side) (Event.disconnected h DisconnectReason.local_request)
    ++ when (same_side (peer from h) side) (Event.disconnected h DisconnectReason.remote_request)
posts side call answer = []

abbrev pub posted : Side → List Call → List Answer → List Event
posted side (call ∷ calls) (answer ∷ answers) = posts side call answer ++ posted side calls answers
posted side calls answers = []

-- The events that a call has taken from an end.
abbrev pub takes : Side → Call → Answer → List Event
takes side (polls from) (polled events) = if same_side from side then events else []
takes side call answer = []

abbrev pub received : Side → List Call → List Answer → List Event
received side (call ∷ calls) (answer ∷ answers) =
    takes side call answer ++ received side calls answers
received side calls answers = []

abbrev pub waiting : InMemoryNetwork → Side → List Event
waiting n side = elim (endpoint_at n side) [ none ↦ [] | some endpoint ↦ endpoint.events ]

same_side-≡ : (a b : Side) → same_side a b ≡ true → a ≡ b
same_side-≡ server server h = refl
same_side-≡ server (client j) h = ground arith
same_side-≡ (client i) server h = ground arith
same_side-≡ (client i) (client j) h = ap client (ground arith)

inbox-deliver :
    (to : Side) (event : Event) (w : Wire) (side : Side)
    → (deliver to event w).inbox side ≡ w.inbox side ++ when (same_side to side) event
inbox-deliver to event w side = elim (Bool-cases (same_side to side)) [
  | inl same ↦ rw (same, same_side-≡ to side same) refl
  | inr apart ↦ rw (apart) (sym (append-nil (w.inbox side)))
]

inbox-deliver_both :
    (a b : Side) (x y : Event) (w : Wire) (side : Side)
    → (deliver b y (deliver a x w)).inbox side
      ≡ w.inbox side ++ (when (same_side a side) x ++ when (same_side b side) y)
inbox-deliver_both a b x y w side =
    inbox-deliver b y (deliver a x w) side
    ∙ ap (λ events. events ++ when (same_side b side) y) (inbox-deliver a x w side)
    ∙ append_assoc (w.inbox side) (when (same_side a side) x) (when (same_side b side) y)

-- What a call posts goes behind what waits, and what it takes comes off the front.
inbox-on_wire :
    (side : Side) (w : Wire) (call : Call)
    → w.inbox side ++ posts side call (on_wire w call).1
      ≡ takes side call (on_wire w call).1 ++ (on_wire w call).0.inbox side
inbox-on_wire side w connects = elim (Bool-cases (w.opened == invalid_handle)) [
  | inl full ↦ rw (full) (append-nil (w.inbox side))
  | inr room ↦ rw (room) (sym (inbox-deliver_both server (client w.opened) _ _ (opens w) side))
]
inbox-on_wire side w (polls from) = elim (Bool-cases (same_side from side)) [
  | inl same ↦ rw (same, same_side-≡ from side same) refl
  | inr apart ↦ rw (apart) (append-nil (w.inbox side))
]
inbox-on_wire side w (sends from h payload delivery) = elim (Bool-cases (knows w from h)) [
  | inr unknown ↦ rw (unknown) (append-nil (w.inbox side))
  | inl known ↦ elim (Bool-cases (w.closed h)) [
    | inl shut ↦ rw (known, shut) (append-nil (w.inbox side))
    | inr live ↦ rw (known, live) (sym (inbox-deliver (peer from h) _ w side))
  ]
]
inbox-on_wire side w (disconnects from h) = elim (Bool-cases (knows w from h)) [
  | inr unknown ↦ rw (unknown) (append-nil (w.inbox side))
  | inl known ↦ elim (Bool-cases (w.closed h)) [
    | inl shut ↦ rw (known, shut) (append-nil (w.inbox side))
    | inr live ↦ rw (known, live) (sym (inbox-deliver_both from (peer from h) _ _ (close h w) side))
  ]
]
inbox-on_wire side w (asks from h) = append-nil (w.inbox side)

inbox-on_wire_all :
    (side : Side) (w : Wire) (calls : List Call)
    → w.inbox side ++ posted side calls (on_wire_all w calls).1
      ≡ received side calls (on_wire_all w calls).1 ++ (on_wire_all w calls).0.inbox side
inbox-on_wire_all side w [] = append-nil (w.inbox side)
inbox-on_wire_all side w (call ∷ calls) =
    let (v, answer) = on_wire w call in
    let answers = (on_wire_all v calls).1 in
    let last = (on_wire_all v calls).0 in
    sym (append_assoc (w.inbox side) (posts side call answer) (posted side calls answers))
    ∙ ap (λ events. events ++ posted side calls answers) (inbox-on_wire side w call)
    ∙ append_assoc (takes side call answer) (v.inbox side) (posted side calls answers)
    ∙ ap (λ events. takes side call answer ++ events) (inbox-on_wire_all side v calls)
    ∙ sym (append_assoc (takes side call answer) (received side calls answers) (last.inbox side))

waiting-Represents :
    (n : InMemoryNetwork) (w : Wire) (r : Represents n w) (side : Side)
    → waiting n side ≡ w.inbox side
unfolding endpoint_at
waiting-Represents n w r server = ap (λ e. e.events) r.server
waiting-Represents n w r (client i) = elim (Bool-cases (ltb i w.opened)) [
  | inl there ↦ rw (waiting, endpoint_at, r.clients i, there) refl
  | inr unopened ↦ rw (waiting, endpoint_at, r.clients i, unopened) (sym (r.unopened i unopened))
]

-- For every sequence of calls of a new network, each at an end that exists then: every call returns,
-- and what polls of an end have returned, followed by what still waits there, are the events that the
-- calls made for it, each once and in the order of the calls.
pub received-waiting :
    (calls : List Call) (side : Side)
    → AreHeld new_wire calls
    → (m : InMemoryNetwork) × (answers : List Answer) × (perform_all make_network calls
        ≡ some (m, answers))
      × (received side calls answers ++ waiting m side ≡ posted side calls answers)
received-waiting calls side h =
    let (m, runs, held) =
      perform_all-Represents make_network new_wire calls make_network-Represents h in
    let (last, answers) = on_wire_all new_wire calls in
    (
      m,
      answers,
      runs,
      ap (λ events. received side calls answers ++ events) (waiting-Represents m last held side)
          ∙ sym (inbox-on_wire_all side new_wire calls),
    )
