-- ===== src/Rollback/Router/Consume/Keeps.antt =====
-- `consume` as a traversal: what each handler's dispatch and pruning keep, the router keeps.
use mathlib.Core.Path.{subst}
use mycore.Base.{
  ℕ, suc, ◌≡◌, refl, sym, inl, inr, Option, none, some, List, [], ◌∷◌, true, ◌&&◌, ◌||◌, has_value,
  arith, Bool-cases,
}
use mycore.Rollback.Types.{RollbackModel, EventChange}
use mycore.Rollback.Keyed.{In}
use mycore.Rollback.Router.{
  ConsequenceDispatchReport, Subscriptions, Subscription, Slot, Router, statistics_delta,
}
use mycore.Rollback.Router.Count.{add_at}
use mycore.Rollback.Router.Sets.{contains}
use mycore.Rollback.Router.Sets.Contents.{in_of_contains, in-erase}
use mycore.Rollback.Router.Changes.{validate_change, valid_shape, typed_event}
use mycore.Rollback.Router.Changes.Typed.{validated_typed}
use mycore.Rollback.Router.Handlers.{
  dispatch, process_handler, process_change, can_prune_handler, prune_handler, can_prune, prune,
}
use mycore.Rollback.Router.Consume.{try_prune}

abbrev pub All : {A : Type 0} → (A → Type 0) → List A → Type 0
All P [] = Unit
All P (x ∷ xs) = P x × All P xs

pub All-in : {A : Type 0} (P : A → Type 0) (x : A) (xs : List A) → All P xs → In x xs → P x
All-in P x [] h i = absurd i
All-in P x (y ∷ xs) h (inl e) = subst P (sym e) h.0
All-in P x (y ∷ xs) h (inr i) = All-in P x xs h.1 i

pub All-of : {A : Type 0} (P : A → Type 0) (xs : List A) → ((x : A) → In x xs → P x) → All P xs
All-of P [] h = tt
All-of P (x ∷ xs) h = (h x (inl refl), All-of P xs (λ y i. h y (inr i)))

module _ (m : RollbackModel) (s : Subscriptions m) (P : s.Handler → Subscription m s → Type 0) where
  -- `P` holds of each handler with its storage.
  abbrev pub Holds : List (Slot m s) → Type 0
  Holds slots = All (λ (slot : Slot m s). P slot.handler slot.subscription) slots

module _ (m : RollbackModel) (s : Subscriptions m) (P : s.Handler → Subscription m s → Type 0)
    (Q : m.EventKey → Type 0) where
  open m use {Event, EventKey, key_discrete}
  open s use {Handler}

  -- Each dispatch of a well-shaped change returns, and keeps `P`.
  abbrev pub DispatchKeeps : Type 0
  DispatchKeeps =
      (index : ℕ) (change : EventChange m) (current previous : Option Event) (handler : Handler)
      (subscription : Subscription m s) (report : ConsequenceDispatchReport)
      → valid_shape change.transition (has_value previous) (has_value current) ≡ true
      → P handler subscription
      → (handler' : Handler) × (subscription' : Subscription m s)
        × (report' : ConsequenceDispatchReport) × (dispatch m s index change current previous
              handler subscription report
            ≡ some (handler', subscription', report'))
        × P handler' subscription'

  -- So does the pruning of a key with `Q`.
  abbrev pub PruneKeeps : Type 0
  PruneKeeps =
      (key : EventKey) (handler : Handler) (subscription : Subscription m s)
      → Q key
      → can_prune_handler m s key subscription ≡ true
      → P handler subscription
      → P handler (prune_handler m s key subscription)

  -- What holds of a router between two batches.
  pub record Kept (router : Router m s) : Type 0 where
    pub holds : Holds m s P router.slots
    pub evidence : All Q router.external_retirement_evidence

  module _ (dispatches : DispatchKeeps) (prunes : PruneKeeps) where
    process_handler-keeps :
        (index : ℕ) (slot : Slot m s) (change : EventChange m) (report : ConsequenceDispatchReport)
        → validate_change m s change ≡ none
        → P slot.handler slot.subscription
        → (slot' : Slot m s) × (report' : ConsequenceDispatchReport) × (process_handler m s index
              slot change report
            ≡ some (slot', report'))
          × P slot'.handler slot'.subscription
    unfolding process_handler
    process_handler-keeps index slot change report valid p =
        let current = typed_event m s slot.event_alternative change.current in
        let previous = typed_event m s slot.event_alternative change.previous in
        elim (Bool-cases (has_value current || has_value previous)) [
          | inl seen ↦
              let (h', sub', r', at, p') =
                dispatches index change current previous slot.handler slot.subscription report
                  (validated_typed m s change slot.event_alternative valid seen) p in
              (
                record slot { handler = h'; subscription = sub' },
                record r' {
                  handlers =
                      add_at index (statistics_delta r'.statistics report.statistics) r'.handlers;
                },
                rw (seen, at) refl,
                p',
              )
          | inr unseen ↦ (slot, report, rw (unseen) refl, p)
        ]

    pub process_change-keeps :
        (index : ℕ) (slots : List (Slot m s)) (change : EventChange m)
        (report : ConsequenceDispatchReport)
        → validate_change m s change ≡ none
        → Holds m s P slots
        → (slots' : List (Slot m s)) × (report' : ConsequenceDispatchReport) × (process_change m s
              index slots change report
            ≡ some (slots', report'))
          × Holds m s P slots'
    unfolding process_change
    process_change-keeps index [] change report valid h = ([], report, refl, tt)
    process_change-keeps index (slot ∷ slots) change report valid h =
        let (slot', report', at, p') = process_handler-keeps index slot change report valid h.0 in
        let (slots', report'', at', h') =
          process_change-keeps (suc index) slots change report' valid h.1 in
        (
          slot' ∷ slots',
          report'',
          rw (at, process_change) (rw (at', process_change) refl),
          (p', h'),
        )

    prune-keeps :
        (key : EventKey) (slots : List (Slot m s))
        → Q key
        → can_prune m s key slots ≡ true
        → Holds m s P slots
        → Holds m s P (prune m s key slots)
    unfolding can_prune prune
    prune-keeps key [] q can h = tt
    prune-keeps key (slot ∷ slots) q can h = (
      prunes key slot.handler slot.subscription q (ground arith) h.0,
      prune-keeps key slots q (ground arith) h.1,
    )

    pub try_prune-Kept :
        (key : EventKey) (router : Router m s) → Kept router → Kept (try_prune m s key router)
    unfolding try_prune
    try_prune-Kept key router k =
        elim (Bool-cases (
          contains key_discrete key router.replay_retirement_evidence
          && (contains key_discrete key router.external_retirement_evidence
              && can_prune m s key router.slots))) [
                | inr keep ↦ rw (keep) k
                | inl due ↦
                    let q =
                      All-in Q key router.external_retirement_evidence k.evidence
                        (in_of_contains key_discrete key _ (ground arith)) in
                    rw (due) (record {
                      holds = prune-keeps key router.slots q (ground arith) k.holds;
                      evidence = All-of Q _ λ x i.
                          All-in Q x router.external_retirement_evidence k.evidence
                            (in-erase key_discrete x key _ i);
                    })
              ]
