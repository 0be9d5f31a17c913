-- ===== src/Rollback/Router/Consume/Fed.antt =====
-- What a router promises, whatever batches it is fed: every batch is consumed, a handler is told of
-- an occurrence at most once, and no token is lost or taken back twice.
use mathlib.Core.Path.{subst}
use mycore.Base.{ℕ, ◌≡◌, ◌≢◌, refl, ◌⊎◌, inl, inr, none, some, Bool-cases}
use mycore.Rollback.Types.{RollbackModel, EventChange, EventBatch}
use mycore.Rollback.Router.{ConsequenceDispatchReport, Subscriptions, Subscription, Router}
use mycore.Rollback.Router.Changes.{validate_change}
use mycore.Rollback.Router.Handlers.Dispatched.{
  ToldOnce, KeepsTokens, dispatch-some, dispatch-ToldOnce, dispatch-KeepsTokens, prune-ToldOnce,
  prune-KeepsTokens,
}
use mycore.Rollback.Router.Consume.{new_report, contract_failures_from, is_empty, consume}
use mycore.Rollback.Router.Consume.Keeps.{All, All-of, DispatchKeeps, PruneKeeps, Holds, Kept}
use mycore.Rollback.Router.Consume.Batches.{empty_nil, no_failures, consume-keeps}

module _ (m : RollbackModel) (s : Subscriptions m) where
  open m use {Event, EventKey, key_discrete}
  open s use {Handler, Token}

  -- `consume` returns for every router and every batch, so that no null pointer is dereferenced: it
  -- leaves the router and with it each handler as they were, or each change of the batch meets the
  -- contract.
  pub consume_total :
      (router : Router m s) (batch : EventBatch m)
      → (router' : Router m s) × (report : ConsequenceDispatchReport) × (consume m s router batch
          ≡ some (router', report))
        × ((router' ≡ router)
            ⊎ All (λ (change : EventChange m). validate_change m s change ≡ none) batch.changes)
  unfolding consume
  consume_total router batch =
      elim (Bool-cases (is_empty (contract_failures_from m s 0 batch.changes))) [
        | inr failed ↦ (router, new_report m s router batch, rw (failed) refl, inl refl)
        | inl valid ↦
            let (router', report, at, _) =
              consume-keeps m s (λ h sub. Unit) (λ key. Unit)
                (λ index change current previous h sub report shape p.
                  dispatch-some m s index change current previous h report shape sub)
                (λ key h sub q can p. tt) router batch (All-of _ _ λ x i. tt)
                (record { holds = All-of _ _ λ x i. tt; evidence = All-of _ _ λ x i. tt }) in
            (router', report, at, inr (no_failures m s 0 batch.changes (empty_nil _ valid)))
      ]

  -- The routers that batches, of whose externally retired keys `Q` holds, make of the first one.
  pub data Fed (Q : EventKey → Type 0) (first : Router m s) : Router m s → Type 0 where
    fed_nothing : Fed Q first first
    fed_batch :
        (router router' : Router m s) (batch : EventBatch m) (report : ConsequenceDispatchReport)
        → Fed Q first router
        → All Q batch.externally_retired_keys
        → consume m s router batch ≡ some (router', report)
        → Fed Q first router'

  Fed-Kept :
      (P : Handler → Subscription m s → Type 0) (Q : EventKey → Type 0)
      → DispatchKeeps m s P Q
      → PruneKeeps m s P Q
      → (first router : Router m s) → Kept m s P Q first
      → Fed Q first router
      → Kept m s P Q router
  Fed-Kept P Q dispatches prunes first _ k fed_nothing = k
  Fed-Kept P Q dispatches prunes first _ k (fed_batch router router' batch report fed q at) =
      let (r, _, at', k') =
        consume-keeps m s P Q dispatches prunes router batch q
          (Fed-Kept P Q dispatches prunes first router k fed) in
      subst (Kept m s P Q) (cc (at, at')) k'

  module _ (calls : Handler → EventKey → ℕ) (k : EventKey) where
    -- Let the handlers of either once-only policy count their calls, each under its key, and let those of
    -- a router agree with what it has delivered, as they do before the first call. Then, whatever batches follow, as long as none of them retires `k` externally,
    -- each such handler has been called for `k` once if `k` is among the keys delivered to it, and
    -- never otherwise.
    pub Fed-ToldOnce :
        (first router : Router m s)
        → Holds m s (ToldOnce m s calls k) first.slots
        → All (λ (key : EventKey). key ≢ k) first.external_retirement_evidence
        → Fed (λ key. key ≢ k) first router
        → Holds m s (ToldOnce m s calls k) router.slots
    Fed-ToldOnce first router untold evidence fed =
        let k' =
          Fed-Kept (ToldOnce m s calls k) (λ key. key ≢ k)
            (λ index change current previous h sub report shape p.
              dispatch-ToldOnce m s index change current previous h report shape calls k sub p)
            (λ key h sub ne can p. prune-ToldOnce m s calls k key h sub ne p) first router
            (record { holds = untold; evidence = evidence }) fed in
        k'.holds

  module _ (opened closed : Handler → EventKey → ℕ) (k : EventKey) where
    -- Let the handlers that can take an effect back count, under each key, the tokens that they give
    -- out and those that are canceled or confirmed, whether or not this succeeds, and let the
    -- counts of a router's handlers differ by what is active under `k`, no key being active twice, as it is at the
    -- start. Then so they do after whatever batches follow: each token of `k` is canceled or
    -- confirmed at most once, and is active until then.
    pub Fed-KeepsTokens :
        (first router : Router m s)
        → Holds m s (KeepsTokens m s opened closed k) first.slots
        → Fed (λ key. Unit) first router
        → Holds m s (KeepsTokens m s opened closed k) router.slots
    Fed-KeepsTokens first router kept fed =
        let k' =
          Fed-Kept (KeepsTokens m s opened closed k) (λ key. Unit)
            (λ index change current previous h sub report shape p.
              dispatch-KeepsTokens m s index change current previous h report shape opened closed k
                sub p)
            (λ key h sub q can p. prune-KeepsTokens m s opened closed k key h sub can p) first
            router (record { holds = kept; evidence = All-of _ _ λ x i. tt }) fed in
        k'.holds
