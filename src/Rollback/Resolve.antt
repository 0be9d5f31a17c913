-- ===== src/Rollback/Resolve.antt =====
-- timeline.hpp: `resolve_event_changes`, which turns the old and the new predicted events and the
-- answers of the authority into transitions.
pub mod Authority
pub mod Effect
pub mod Due
pub mod Progress
pub mod Rounds
pub mod Complete
use mathlib.Core.Logic.{ite}
use mycore.Base.{
  ℕ, ◌+◌, ◌==◌, Option, none, some, List, [], ◌∷◌, ◌++◌, Bool, true, false, has_value,
  if◌then◌else◌,
}
use mycore.Rollback.Types.{
  RollbackModel, AuthorityEvent, AuthorityEventDisposition, EventChange, EventTransition,
  EventBatch, TimelineErrorCode, conflicting_authority_event, Variant, value, error, CommitKind,
}
use mycore.Rollback.Types.AuthorityEventDisposition.{confirmed, rejected}
use mycore.Rollback.Keyed.{find, emplace}
use mycore.Rollback.Journal.{EventIndex, has_shape, same_outcome}

-- What a loop of the resolution ends with. It is `dangling` where the code would read through the
-- end iterator of a map.
pub data Resolved (A : Type 0) : Type 0 where
  resolved : A → Resolved A
  refused : TimelineErrorCode → Resolved A
  dangling : Resolved A

-- `for (const auto& x : xs)` over a state, with an early return.
unfoldable pub for_each : {X S : Type 0} → (X → S → Resolved S) → List X → S → Resolved S
for_each body [] s = resolved s
for_each body (x ∷ xs) s = elim (body x s) [
  | resolved s' ↦ for_each body xs s'
  | refused code ↦ refused code
  | dangling ↦ dangling
]

unfoldable pub enumerate : {X : Type 0} → ℕ → List X → List (ℕ × X)
enumerate n [] = []
enumerate n (x ∷ xs) = (n, x) ∷ enumerate (n + 1) xs

module _ (m : RollbackModel) where
  open m use {Event, EventKey}

  pub record EventResolution : Type 0 where
    pub changes : List (EventChange m)
    pub retired_keys : List EventKey

  -- A pointer into the authority's events is the index of the event, beside the event itself.
  abbrev pub AuthorityIndex : Type 0
  AuthorityIndex = List (EventKey × (ℕ × AuthorityEvent m))

abbrev pub no_changes : (m : RollbackModel) → EventResolution m
no_changes m = record { changes = []; retired_keys = [] }

module _ (m : RollbackModel) where
  open m use {Event, EventKey, event_discrete, key_discrete}

  unfoldable pub index_authority : AuthorityIndex m → List (ℕ × AuthorityEvent m) → AuthorityIndex m
  unfolding emplace
  index_authority entries [] = entries
  index_authority entries ((i, event) ∷ events) =
      index_authority (emplace key_discrete event.key (i, event) entries).0 events

  abbrev pub push_change : EventResolution m → EventChange m → EventResolution m
  push_change r c = record r { changes = r.changes ++ c ∷ [] }

  abbrev pub retire : EventResolution m → EventKey → EventResolution m
  retire r key = record r { retired_keys = r.retired_keys ++ key ∷ [] }

  -- The change that settles or withdraws an old event.
  abbrev pub settle : EventTransition → EventKey → Event → Option Event → EventChange m
  settle transition key old_event current = record {
    transition = transition;
    key = key;
    previous = some old_event;
    current = current;
  }

  abbrev pub introduce : EventTransition → EventKey → Option Event → EventChange m
  introduce transition key event = record {
    transition = transition;
    key = key;
    previous = none;
    current = event;
  }

  -- One round of the loop over the old events.
  unfoldable pub resolve_old :
      EventIndex m
      → EventIndex m
      → AuthorityIndex m
      → EventKey
      → EventResolution m
      → Resolved (EventResolution m)
  resolve_old old_events new_events authority key result =
      elim (find key_discrete key old_events.by_key) [
        | none ↦ dangling
        | some old_event ↦ elim (find key_discrete key authority) [
          | some (i, outcome) ↦ elim (find key_discrete key new_events.by_key) [
            | some _ ↦ refused conflicting_authority_event
            | none ↦ resolved (
                retire
                  (push_change result (elim outcome.disposition [
                    | confirmed ↦ settle EventTransition.confirmed key old_event outcome.event
                    | rejected ↦ settle EventTransition.retracted key old_event none
                  ]))
                  key)
          ]
          | none ↦ elim (find key_discrete key new_events.by_key) [
            | some current ↦ resolved (
                ite (event_discrete old_event current) result (
                  push_change result (settle EventTransition.revised key old_event (some current))))
            | none ↦ resolved (
                retire (push_change result (settle EventTransition.retracted key old_event none))
                  key)
          ]
        ]
      ]

  -- One round of the loop over the new events.
  unfoldable pub resolve_new :
      EventIndex m
      → EventIndex m
      → AuthorityIndex m
      → EventKey
      → EventResolution m
      → Resolved (EventResolution m)
  resolve_new old_events new_events authority key result =
      elim (find key_discrete key old_events.by_key) [
        | some _ ↦ resolved result
        | none ↦ elim (find key_discrete key authority) [
          | some _ ↦ refused conflicting_authority_event
          | none ↦ elim (find key_discrete key new_events.by_key) [
            | none ↦ dangling
            | some new_event ↦ resolved (
                push_change result (introduce EventTransition.first_predicted key (some new_event)))
          ]
        ]
      ]

  -- One round of the loop over the authority's events; `i` is the event's own address.
  unfoldable pub resolve_authority :
      EventIndex m
      → EventIndex m
      → AuthorityIndex m
      → ℕ × AuthorityEvent m
      → EventResolution m
      → Resolved (EventResolution m)
  resolve_authority old_events new_events authority (i, event) result =
      elim (find key_discrete event.key authority) [
        | none ↦ dangling
        | some (j, _) ↦ elim (j == i) [
          | false ↦ resolved result
          | true ↦ elim (find key_discrete event.key old_events.by_key) [
            | some _ ↦ resolved result
            | none ↦ elim event.disposition [
              | rejected ↦ resolved result
              | confirmed ↦ elim (find key_discrete event.key new_events.by_key) [
                | some _ ↦ refused conflicting_authority_event
                | none ↦ resolved (
                    retire
                      (push_change result
                        (introduce EventTransition.authority_only event.key event.event))
                      event.key)
              ]
            ]
          ]
        ]
      ]

  unfoldable pub resolve_event_changes :
      EventIndex m → EventIndex m → List (AuthorityEvent m) → Resolved (EventResolution m)
  resolve_event_changes old_events new_events authority_events =
      let entries = enumerate 0 authority_events in
      let authority = index_authority [] entries in
      elim (for_each (resolve_old old_events new_events authority) old_events.journal_order
        (no_changes m)) [
          | refused code ↦ refused code
          | dangling ↦ dangling
          | resolved r₁ ↦
              elim (for_each (resolve_new old_events new_events authority) new_events.journal_order
                r₁) [
                  | refused code ↦ refused code
                  | dangling ↦ dangling
                  | resolved r₂ ↦
                      for_each (resolve_authority old_events new_events authority) entries r₂
                ]
        ]
