-- ===== src/Rollback/Calls/Atomic.antt =====
-- A call commits, or it fails and changes nothing but the count of failures.
use mycore.Base.{◌≡◌, refl, ◌⊎◌, inl, inr}
use mycore.Rollback.Types.{RollbackModel, Commit, TimelineFailure}
use mycore.Rollback.Timeline.{Timeline, Outcome, committed, failed}
use mycore.Rollback.Timeline.Rules.{Ensures, done, after_failure}
use mycore.Rollback.Calls.{Call, perform, perform-Ensures}

module _ (m : RollbackModel) where
  ends :
      {A : Type 0} {t : Timeline m} {Q : Timeline m → A → Type 0} (r : Timeline m × Outcome m A)
      → Ensures m t Q r
      → ((t' : Timeline m) × (a : A) × (r ≡ (t', committed a)))
        ⊎ ((e : TimelineFailure m) × (r ≡ (after_failure m t, failed e)))
  ends _ (done {t' = t'} {a = a} q) = inl (t', a, refl)
  ends _ (Ensures.fails e) = inr (e, refl)

  -- Every call of an operation, on any timeline, ends in one of two ways: it commits; or it fails
  -- and leaves the timeline as it was, but for one more failure counted. It never throws the logic
  -- error of a missing checkpoint and never reads past the end of a map.
  pub perform_atomic :
      (call : Call m) (t : Timeline m)
      → ((t' : Timeline m) × (c : Commit m) × (perform m call t ≡ (t', committed c)))
        ⊎ ((e : TimelineFailure m) × (perform m call t ≡ (after_failure m t, failed e)))
  perform_atomic call t = ends (perform m call t) (perform-Ensures m call t)
