-- ===== src/Rollback/Invariant/Reached.antt =====
-- The invariant holds of whatever calls reach from a new timeline.
use mathlib.Core.Path.{subst}
use mycore.Base.{ℕ, Bool, ◌≡◌, refl, inl, inr, none, some, true, false, ◌==◌, if◌then◌else◌}
use mycore.Rollback.Types.{RollbackModel, Commit}
use mycore.Rollback.Timeline.{Timeline, Outcome, make_timeline}
use mycore.Rollback.Timeline.Rules.{Ensures, done}
use mycore.Rollback.Calls.{
  Call, initializing, advancing, reconciling, refreshing, rebasing, resyncing, Done, perform,
  Reaches, here, after_call, perform-Ensures,
}
use mycore.Rollback.Invariant.{IsValid}
use mycore.Rollback.Invariant.Keeps.{
  after_failure-IsValid, Initializes-Running, Resyncs-Running, Reconciles-IsValid, Advances-IsValid,
}

module _ (m : RollbackModel) where
  Done-IsValid :
      (call : Call m) (t t' : Timeline m) (c : Commit m)
      → Done m call t t' c
      → IsValid m t
      → IsValid m t'
  Done-IsValid (initializing authority scope) t t' c h v =
      inr (Initializes-Running m authority scope t t' c h)
  Done-IsValid (advancing sequence stimulus) t t' c h v =
      Advances-IsValid m t sequence stimulus t' c h v
  Done-IsValid (reconciling authority refresh) t t' c h v =
      Reconciles-IsValid m authority h.scope _ _ refresh t t' c h.reconciles v
  Done-IsValid (refreshing authority refresh) t t' c (h, _) v =
      Reconciles-IsValid m authority h.scope _ _ refresh t t' c h.reconciles v
  Done-IsValid (rebasing authority scope refresh) t t' c (h, _) v =
      Reconciles-IsValid m authority scope _ _ refresh t t' c h v
  Done-IsValid (resyncing authority scope) t t' c h v =
      inr (Resyncs-Running m authority scope t t' c h)

  ensured-IsValid :
      (call : Call m) (t : Timeline m) (r : Timeline m × Outcome m (Commit m))
      → IsValid m t
      → Ensures m t (Done m call t) r
      → IsValid m r.0
  ensured-IsValid call t _ v (done {t' = t'} {a = c} h) = Done-IsValid call t t' c h v
  ensured-IsValid call t _ v (Ensures.fails e) = after_failure-IsValid m t v

  made :
      (b : Bool) (t₀ t : Timeline m)
      → IsValid m t₀
      → (if b then none else some t₀) ≡ some t
      → IsValid m t
  made true t₀ t v h = absurd (cc h)
  made false t₀ t v h = let same : t₀ ≡ t = cc h in subst (IsValid m) same v

  make_timeline-IsValid :
      (capacity : ℕ) (t : Timeline m) → make_timeline m capacity ≡ some t → IsValid m t
  unfolding make_timeline
  make_timeline-IsValid capacity t h =
      made (capacity == 0) _ t
        (inl (record { state = refl; base = refl; scope = refl; history = refl })) h

  reaches-IsValid : (t t' : Timeline m) → IsValid m t → Reaches m t t' → IsValid m t'
  reaches-IsValid t _ v here = v
  reaches-IsValid t _ v (after_call t' call h) =
      let before = reaches-IsValid t t' v h in
      ensured-IsValid call t' (perform m call t') before (perform-Ensures m call t')

  -- Every timeline that calls reach from a new one is idle or in order: its history leads, tick by
  -- tick, from the state that the model restores from its base checkpoint to its predicted state,
  -- and each frame is a step of the model, from the state that the frame before it has ended in or
  -- from what the model restores from that state's checkpoint; its commands ascend from the
  -- acknowledged one to the last one submitted, its event keys are distinct, and its history fits
  -- its capacity.
  pub reached-IsValid :
      (capacity : ℕ) (t t' : Timeline m)
      → make_timeline m capacity ≡ some t
      → Reaches m t t'
      → IsValid m t'
  reached-IsValid capacity t t' new h =
      reaches-IsValid t t' (make_timeline-IsValid capacity t new) h
