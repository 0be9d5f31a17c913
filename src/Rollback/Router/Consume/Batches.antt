-- ===== src/Rollback/Router/Consume/Batches.antt =====
-- `consume` keeps what the handlers' dispatches and prunings keep, and it always returns.
use mathlib.Core.Path.{subst}
use mycore.Base.{
  ℕ, suc, ◌≡◌, refl, sym, inl, inr, none, some, List, [], ◌∷◌, Bool, true, arith, Bool-cases,
  Option-cases,
}
use mycore.Rollback.Types.{RollbackModel, EventChange, EventBatch}
use mycore.Rollback.Keyed.{In, in-append}
use mycore.Rollback.Router.{ConsequenceDispatchReport, Subscriptions, Subscription, Router}
use mycore.Rollback.Router.Sets.{contains, insert}
use mycore.Rollback.Router.Sets.Contents.{insert-old, insert-new}
use mycore.Rollback.Router.Changes.{validate_change}
use mycore.Rollback.Router.Consume.{
  is_empty, process_batch, contract_failures_from, try_prune, process_changes, retire_replayed,
  retire_externally, consume, new_report, total,
}
use mycore.Rollback.Router.Consume.Keeps.{
  All, All-in, All-of, DispatchKeeps, PruneKeeps, Kept, process_change-keeps, try_prune-Kept,
}

pub empty_nil : {A : Type 0} (xs : List A) → is_empty xs ≡ true → xs ≡ []
empty_nil [] h = refl
empty_nil (x ∷ xs) h = absurd (cc h)

module _ (m : RollbackModel) (s : Subscriptions m) where
  pub no_failures :
      (index : ℕ) (changes : List (EventChange m))
      → contract_failures_from m s index changes ≡ []
      → All (λ (change : EventChange m). validate_change m s change ≡ none) changes
  unfolding contract_failures_from
  no_failures index [] e = tt
  no_failures index (change ∷ changes) e = elim (Option-cases (validate_change m s change)) [
    | inl valid ↦ (valid, no_failures (suc index) changes (ground arith))
    | inr (error, at) ↦ absurd (ground arith)
  ]

module _ (m : RollbackModel) (s : Subscriptions m) (P : s.Handler → Subscription m s → Type 0)
    (Q : m.EventKey → Type 0) where
  open m use {Event, EventKey, key_discrete}
  open s use {Handler}

  in_insert :
      (key : EventKey) (keys : List EventKey) (x : EventKey)
      → Q key
      → All Q keys
      → In x (insert key_discrete key keys).0
      → Q x
  in_insert key keys x q h i = elim (Bool-cases (contains key_discrete key keys)) [
    | inl old ↦
        All-in Q x keys h
          (subst (λ (z : List EventKey × Bool). In x z.0) (insert-old key_discrete key keys old) i)
    | inr new ↦
        elim (in-append x keys (key ∷ []) (
          subst (λ (z : List EventKey × Bool). In x z.0) (insert-new key_discrete key keys new)
            i)) [
              | inl old ↦ All-in Q x keys h old
              | inr at ↦ elim at [ inl e ↦ subst Q (sym e) q | inr left ↦ absurd left ]
            ]
  ]

  module _ (dispatches : DispatchKeeps m s P Q) (prunes : PruneKeeps m s P Q) where
    process_changes-keeps :
        (changes : List (EventChange m)) (router : Router m s) (report : ConsequenceDispatchReport)
        → All (λ (change : EventChange m). validate_change m s change ≡ none) changes
        → Kept m s P Q router
        → (router' : Router m s) × (report' : ConsequenceDispatchReport) × (process_changes m s
              changes router report
            ≡ some (router', report'))
          × Kept m s P Q router'
    unfolding process_changes
    process_changes-keeps [] router report valid k = (router, report, refl, k)
    process_changes-keeps (change ∷ changes) router report valid k =
        let (slots', report', at, h') =
          process_change-keeps m s P Q dispatches prunes 0 router.slots change report valid.0
            k.holds in
        let next : Router m s = try_prune m s change.key (record router { slots = slots' }) in
        let k' : Kept m s P Q next =
          try_prune-Kept m s P Q dispatches prunes change.key (record router { slots = slots' })
            (record { holds = h'; evidence = k.evidence }) in
        let (router', report'', at', k'') = process_changes-keeps changes next report' valid.1 k' in
        (router', report'', rw (at, process_changes) at', k'')

    retire_replayed-Kept :
        (keys : List EventKey) (router : Router m s)
        → Kept m s P Q router
        → Kept m s P Q (retire_replayed m s keys router)
    unfolding retire_replayed
    retire_replayed-Kept [] router k = k
    retire_replayed-Kept (key ∷ keys) router k = retire_replayed-Kept keys _ (
        try_prune-Kept m s P Q dispatches prunes key _
          (record { holds = k.holds; evidence = k.evidence }))

    retire_externally-Kept :
        (keys : List EventKey) (router : Router m s)
        → All Q keys
        → Kept m s P Q router
        → Kept m s P Q (retire_externally m s keys router)
    unfolding retire_externally
    retire_externally-Kept [] router q k = k
    retire_externally-Kept (key ∷ keys) router q k = retire_externally-Kept keys _ q.1 (
        try_prune-Kept m s P Q dispatches prunes key _ (record {
          holds = k.holds;
          evidence =
              All-of Q _
                λ x i. in_insert key router.external_retirement_evidence x q.0 k.evidence i;
        }))

    -- Every batch is consumed, and the router is kept by it.
    pub consume-keeps :
        (router : Router m s) (batch : EventBatch m)
        → All Q batch.externally_retired_keys
        → Kept m s P Q router
        → (router' : Router m s) × (report : ConsequenceDispatchReport) × (consume m s router batch
            ≡ some (router', report))
          × Kept m s P Q router'
    unfolding consume process_batch
    consume-keeps router batch q k =
        elim (Bool-cases (is_empty (contract_failures_from m s 0 batch.changes))) [
          | inr failed ↦ (router, new_report m s router batch, rw (failed) refl, k)
          | inl valid ↦
              let (router', report, at, k') =
                process_changes-keeps batch.changes router (new_report m s router batch)
                  (no_failures m s 0 batch.changes (empty_nil _ valid)) k in
              let replayed = retire_replayed m s batch.retired_keys router' in
              let last = retire_externally m s batch.externally_retired_keys replayed in
              let k'' =
                retire_externally-Kept batch.externally_retired_keys replayed q
                  (retire_replayed-Kept batch.retired_keys router' k') in
              (
                total m s last report,
                report,
                rw (valid) (rw (at, process_batch) refl),
                record { holds = k''.holds; evidence = k''.evidence },
              )
        ]
