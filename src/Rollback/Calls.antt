-- ===== src/Rollback/Calls.antt =====
-- timeline.hpp: the calls of the public operations, and what each has done when it commits.
pub mod Atomic
pub mod Forward
pub mod Replays
pub mod Predictions
use mycore.Base.{ℕ, ◌≡◌, ap, ◌<◌, refl, List, [], arith}
use mathlib.Core.Path.{subst}
use mycore.Rollback.Types.{RollbackModel, AuthorityFrame, Commit, CommitKind}
use mycore.Rollback.Timeline.{
  Timeline, Outcome, committed, failed, Operation, Refresh, strictly_newer, same_or_newer,
}
use mycore.Rollback.Timeline.Rules.{Ensures, done}
use mycore.Rollback.Timeline.Operations.{
  initialize, advance, reconcile_with_stimulus_refresh, refresh_authority_with_stimulus_refresh,
  rebase_scope_with_stimulus_refresh, hard_resync,
}
use mycore.Rollback.Timeline.Operations.Advance.{Advances, advance-Ensures}
use mycore.Rollback.Timeline.Operations.Reconcile.{
  Reconciles, KeepsScope, reconcile-Ensures, refresh_authority-Ensures, rebase_scope-Ensures,
}
use mycore.Rollback.Timeline.Operations.Resync.{
  Initializes, Resyncs, initialize-Ensures, hard_resync-Ensures,
}

module _ (m : RollbackModel) where
  open m use {Stimulus, Scope}

  -- A call of one of the operations that change a timeline. `reconcile`, `refresh_authority` and
  -- `rebase_scope` are the calls whose callback is `retain_stimulus`.
  pub data Call : Type 0 where
    initializing : AuthorityFrame m → Scope → Call
    advancing : ℕ → Stimulus → Call
    reconciling : AuthorityFrame m → Refresh m → Call
    refreshing : AuthorityFrame m → Refresh m → Call
    rebasing : AuthorityFrame m → Scope → Refresh m → Call
    resyncing : AuthorityFrame m → Scope → Call

  abbrev pub perform : Call → Operation m (Commit m)
  perform (initializing authority scope) = initialize m authority scope
  perform (advancing sequence stimulus) = advance m sequence stimulus
  perform (reconciling authority refresh) = reconcile_with_stimulus_refresh m authority refresh
  perform (refreshing authority refresh) =
      refresh_authority_with_stimulus_refresh m authority refresh
  perform (rebasing authority scope refresh) =
      rebase_scope_with_stimulus_refresh m authority scope refresh
  perform (resyncing authority scope) = hard_resync m authority scope

  -- The timelines that calls lead to from `t`, whatever their outcomes.
  pub data Reaches (t : Timeline m) : Timeline m → Type 0 where
    here : Reaches t t
    after_call : (t' : Timeline m) (call : Call) → Reaches t t' → Reaches t ((perform call t').0)

  -- What a call has done when it commits.
  abbrev pub Done : Call → Timeline m → Timeline m → Commit m → Type 0
  Done (initializing authority scope) t = Initializes m authority scope t
  Done (advancing sequence stimulus) t = Advances m t sequence stimulus
  Done (reconciling authority refresh) t =
      KeepsScope m authority CommitKind.reconcile strictly_newer refresh t
  Done (refreshing authority refresh) t = λ t' c.
      KeepsScope m authority CommitKind.authority_refresh same_or_newer refresh t t' c
      × (authority.tick ≡ t.authoritative_tick)
  Done (rebasing authority scope refresh) t = λ t' c.
      Reconciles m authority scope CommitKind.scope_rebase same_or_newer refresh t t' c
      × (t.scope_epoch < authority.scope_epoch)
  Done (resyncing authority scope) t = Resyncs m authority scope t

  pub perform-Ensures : (call : Call) (t : Timeline m) → Ensures m t (Done call t) (perform call t)
  perform-Ensures (initializing authority scope) t = initialize-Ensures m authority scope t
  perform-Ensures (advancing sequence stimulus) t = advance-Ensures m t sequence stimulus
  perform-Ensures (reconciling authority refresh) t = reconcile-Ensures m authority refresh t
  perform-Ensures (refreshing authority refresh) t = refresh_authority-Ensures m authority refresh t
  perform-Ensures (rebasing authority scope refresh) t =
      rebase_scope-Ensures m authority scope refresh t
  perform-Ensures (resyncing authority scope) t = hard_resync-Ensures m authority scope t

  pub committed-Ensures :
      {A : Type 0} {t : Timeline m} {Q : Timeline m → A → Type 0} (t' : Timeline m) (a : A)
      (r : Timeline m × Outcome m A)
      → Ensures m t Q r
      → r ≡ (t', committed a)
      → Q t' a
  committed-Ensures {Q} t' a _ (done {t' = t₁} {a = a₁} q) e =
      let same : t₁ ≡ t' = ap (λ z. z.0) e in
      let value : a₁ ≡ a = cc (ap (λ z. z.1) e) in subst (λ z. Q z a) same (subst (Q t₁) value q)
  committed-Ensures t' a _ (Ensures.fails f) e = absurd (cc (ap (λ z. z.1) e))
