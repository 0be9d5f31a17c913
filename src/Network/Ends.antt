-- ===== src/Network/Ends.antt =====
-- What follows a disconnect.
use mycore.Base.{
  ℕ, ◌≡◌, refl, inl, inr, some, List, [], ◌∷◌, Bool, true, false, not, ◌&&◌, ◌||◌, ltb, ◌==◌,
  Bool-cases, arith,
}
use mycore.Network.{invalid_handle, SendStatus, client, InMemoryNetwork, make_network}
use mycore.Network.Wire.{
  Call, connects, polls, sends, disconnects, asks, Answer, handed, status, done, Wire, new_wire,
  knows, on_wire, IsHeld,
}
use mycore.Network.Represents.{knows-opened}
use mycore.Network.Refines.{make_network-Represents}
use mycore.Network.Runs.{perform_all, on_wire_all, AreHeld, perform_all-Represents}

-- A call that opens the connection, sends on it or disconnects it, by its answer.
abbrev pub uses : ℕ → Call → Answer → Bool
uses h connects (handed (client j)) = j == h
uses h (sends from j payload delivery) (status SendStatus.sent) = j == h
uses h (disconnects from j) (done true) = j == h
uses h call answer = false

abbrev pub ends : ℕ → Call → Answer → Bool
ends h (disconnects from j) (done true) = j == h
ends h call answer = false

abbrev pub unused : ℕ → List Call → List Answer → Bool
unused h (call ∷ calls) (answer ∷ answers) = not (uses h call answer) && unused h calls answers
unused h calls answers = true

-- Nothing uses the connection after it was disconnected.
abbrev pub ends_once : ℕ → List Call → List Answer → Bool
ends_once h (call ∷ calls) (answer ∷ answers) =
    (not (ends h call answer) || unused h calls answers) && ends_once h calls answers
ends_once h calls answers = true

abbrev IsClosed : ℕ → Wire → Type 0
IsClosed h w = (w.closed h ≡ true) × (ltb h w.opened ≡ true)

IsClosed-on_wire :
    (h : ℕ) (w : Wire) (call : Call)
    → IsClosed h w
    → (uses h call (on_wire w call).1 ≡ false) × IsClosed h (on_wire w call).0
IsClosed-on_wire h w connects (shut, opened) = elim (Bool-cases (w.opened == invalid_handle)) [
  | inl full ↦ rw (full) (refl, (shut, opened))
  | inr room ↦ rw (room) (ground arith, (shut, ground arith))
]
IsClosed-on_wire h w (polls from) c = (refl, c)
IsClosed-on_wire h w (sends from j payload delivery) (shut, opened) =
    elim (Bool-cases (knows w from j)) [
      | inr unknown ↦ rw (unknown) (refl, (shut, opened))
      | inl known ↦ elim (Bool-cases (w.closed j)) [
        | inl other ↦ rw (known, other) (refl, (shut, opened))
        | inr live ↦ rw (known, live) (ground arith, (shut, opened))
      ]
    ]
IsClosed-on_wire h w (disconnects from j) (shut, opened) = elim (Bool-cases (knows w from j)) [
  | inr unknown ↦ rw (unknown) (refl, (shut, opened))
  | inl known ↦ elim (Bool-cases (w.closed j)) [
    | inl other ↦ rw (known, other) (refl, (shut, opened))
    | inr live ↦ rw (known, live) (ground arith, (ground arith, opened))
  ]
]
IsClosed-on_wire h w (asks from j) c = (refl, c)

IsClosed-unused :
    (h : ℕ) (w : Wire) (calls : List Call)
    → IsClosed h w
    → unused h calls (on_wire_all w calls).1 ≡ true
IsClosed-unused h w [] c = refl
IsClosed-unused h w (call ∷ calls) c =
    let (quiet, later) = IsClosed-on_wire h w call c in
    rw (quiet) (IsClosed-unused h (on_wire w call).0 calls later)

ends-IsClosed :
    (h : ℕ) (w : Wire) (call : Call)
    → IsHeld w call
    → ends h call (on_wire w call).1 ≡ true
    → IsClosed h (on_wire w call).0
ends-IsClosed h w connects at e = ground arith
ends-IsClosed h w (polls from) at e = ground arith
ends-IsClosed h w (sends from j payload delivery) at e = ground arith
ends-IsClosed h w (disconnects from j) at e = elim (Bool-cases (knows w from j)) [
  | inr unknown ↦ ground arith
  | inl known ↦
      let opened = knows-opened w from j at known in
      elim (Bool-cases (w.closed j)) [
        | inl shut ↦ ground arith
        | inr live ↦ rw (known, live) (ground arith, ground arith)
      ]
]
ends-IsClosed h w (asks from j) at e = ground arith

on_wire_all-ends_once :
    (h : ℕ) (w : Wire) (calls : List Call)
    → AreHeld w calls
    → ends_once h calls (on_wire_all w calls).1 ≡ true
on_wire_all-ends_once h w [] held = refl
on_wire_all-ends_once h w (call ∷ calls) (at, held) =
    let (v, answer) = on_wire w call in
    let later = on_wire_all-ends_once h v calls held in
    elim (Bool-cases (ends h call answer)) [
      | inl e ↦ rw (e, IsClosed-unused h v calls (ends-IsClosed h w call at e)) later
      | inr n ↦ rw (n) later
    ]

-- For every sequence of calls of a new network, each at an end that exists then: once a call has
-- disconnected a connection, no call sends on it, disconnects it or gives out its handle again.
pub perform_all-ends_once :
    (h : ℕ) (calls : List Call)
    → AreHeld new_wire calls
    → (m : InMemoryNetwork) × (answers : List Answer) × (perform_all make_network calls
        ≡ some (m, answers))
      × (ends_once h calls answers ≡ true)
perform_all-ends_once h calls held =
    let (m, runs, r) =
      perform_all-Represents make_network new_wire calls make_network-Represents held in
    (m, (on_wire_all new_wire calls).1, runs, on_wire_all-ends_once h new_wire calls held)
