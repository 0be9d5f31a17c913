-- ===== src/Rollback/Calls/Forward.antt =====
-- The authority only moves forward.
use mathlib.Core.Path.{subst}
use mycore.Base.{ℕ, ◌≤◌, ◌≡◌, refl, sym, Option, none, some, true, false, arith}
use mycore.Rollback.Types.{RollbackModel, AuthorityFrame, Commit, CommitKind}
use mycore.Rollback.Timeline.{
  Timeline, Outcome, AuthorityTickRule, strictly_newer, same_or_newer, Refresh, initialized,
  regresses, is_stale,
}
use mycore.Rollback.Timeline.Rules.{Ensures, done}
use mycore.Rollback.Timeline.Operations.Reconcile.{Reconciles}
use mycore.Rollback.Calls.{
  Call, initializing, advancing, reconciling, refreshing, rebasing, resyncing, Done, perform,
  Reaches, here, after_call, perform-Ensures,
}

regresses_refl : (a : Option ℕ) → regresses a a ≡ false
unfolding regresses
regresses_refl none = refl
regresses_refl (some n) = ground arith

regresses_trans :
    (a b c : Option ℕ) → regresses a b ≡ false → regresses b c ≡ false → regresses a c ≡ false
unfolding regresses
regresses_trans none b c h g = refl
regresses_trans (some a) none c h g = absurd (cc h)
regresses_trans (some a) (some b) none h g = absurd (cc g)
regresses_trans (some a) (some b) (some c) h g = ground arith

not_stale : (rule : AuthorityTickRule) (new old : ℕ) → is_stale rule new old ≡ false → old ≤ new
unfolding is_stale
not_stale strictly_newer new old h = ground arith
not_stale same_or_newer new old h = ground arith

module _ (m : RollbackModel) where
  open m use {Scope}

  -- `t'` is initialized, and its authority is not behind that of `t`.
  abbrev pub Forward : Timeline m → Timeline m → Type 0
  Forward t t' =
      (initialized m t' ≡ true)
      × (t.authoritative_tick ≤ t'.authoritative_tick)
      × (t.scope_epoch ≤ t'.scope_epoch)
      × (regresses t.acknowledged_through t'.acknowledged_through ≡ false)

  module _ (t t' : Timeline m) (c : Commit m) (begun : initialized m t ≡ true) where
    Reconciles-Forward :
        (authority : AuthorityFrame m) (scope : Scope) (kind : CommitKind)
        (rule : AuthorityTickRule) (refresh : Refresh m)
        → t.scope_epoch ≤ authority.scope_epoch
        → Reconciles m authority scope kind rule refresh t t' c
        → Forward t t'
    unfolding initialized
    Reconciles-Forward authority scope kind rule refresh epoch h = subst (Forward t) (sym h.after) (
      refl,
      not_stale rule authority.tick t.authoritative_tick h.accepted.fresh,
      epoch,
      h.accepted.progress,
    )

    Done-Forward : (call : Call m) → Done m call t t' c → Forward t t'
    unfolding initialized
    Done-Forward (initializing authority scope) h =
        absurd (let first = h.first in cc (first, begun))
    Done-Forward (advancing sequence stimulus) h = subst (Forward t) (sym h.after) (
      rw (h.holds.base, h.holds.scope) refl,
      omega arith,
      omega arith,
      regresses_refl t.acknowledged_through,
    )
    Done-Forward (reconciling authority refresh) h =
        Reconciles-Forward authority h.scope _ _ refresh (let same = h.epoch in ground arith)
          h.reconciles
    Done-Forward (refreshing authority refresh) (h, _) =
        Reconciles-Forward authority h.scope _ _ refresh (let same = h.epoch in ground arith)
          h.reconciles
    Done-Forward (rebasing authority scope refresh) (h, newer) =
        Reconciles-Forward authority scope _ _ refresh (omega arith) h
    Done-Forward (resyncing authority scope) h = subst (Forward t) (sym h.after) (
      refl,
      not_stale same_or_newer authority.tick t.authoritative_tick h.accepted.fresh,
      h.epoch,
      h.accepted.progress,
    )

  ensured-Forward :
      (t : Timeline m) (call : Call m) (r : Timeline m × Outcome m (Commit m))
      → initialized m t ≡ true
      → Ensures m t (Done m call t) r
      → Forward t r.0
  unfolding initialized
  ensured-Forward t call _ begun (done {t' = t'} {a = c} h) = Done-Forward t t' c begun call h
  ensured-Forward t call _ begun (Ensures.fails e) =
      (begun, omega arith, omega arith, regresses_refl t.acknowledged_through)

  -- Once a timeline is initialized, whatever calls follow, and however they end, it stays
  -- initialized, and its authoritative tick, its scope epoch and its acknowledgement never go back.
  pub reached-Forward : (t t' : Timeline m) → initialized m t ≡ true → Reaches m t t' → Forward t t'
  reached-Forward t _ begun here =
      (begun, omega arith, omega arith, regresses_refl t.acknowledged_through)
  reached-Forward t _ begun (after_call t' call h) =
      let (begun', tick, epoch, progress) = reached-Forward t t' begun h in
      let (begun'', tick', epoch', progress') =
        ensured-Forward t' call (perform m call t') begun' (perform-Ensures m call t') in
      (
        begun'',
        omega arith,
        omega arith,
        regresses_trans t.acknowledged_through t'.acknowledged_through _ progress progress',
      )
