-- ===== src/Rollback/Router/Consume/Commits.antt =====
-- The commits of a timeline as batches for the router.
use mycore.Base.{◌≡◌, ◌≢◌, refl, some, List, [], ◌∷◌, true, has_value, arith}
use mycore.Rollback.Types.{RollbackModel, EventChange, EventTransition, Commit}
use mycore.Rollback.AuthorityOnly.{event_batch_from_commit}
use mycore.Rollback.Resolve.Effect
use mycore.Rollback.Resolve.Effect.{AllShaped}
use mycore.Rollback.Timeline.{Timeline, committed}
use mycore.Rollback.Calls.{Call, perform}
use mycore.Rollback.Invariant.{IsValid}
use mycore.Rollback.Invariant.Explained.{perform-Explains}
use mycore.Rollback.Router.{ConsequenceBatchContractError, Subscriptions}
use mycore.Rollback.Router.Changes.{validate_change, valid_shape}
use mycore.Rollback.Router.Consume.Keeps.{All}

module _ (m : RollbackModel) (s : Subscriptions m) where
  -- The router asks for the same events as the timeline brings.
  shape_alike :
      (t : EventTransition) (change : EventChange m)
      → change.transition ≡ t
      → Effect.valid_shape m change ≡ true
      → valid_shape t (has_value change.previous) (has_value change.current) ≡ true
  shape_alike EventTransition.first_predicted change e h = ground arith
  shape_alike EventTransition.revised change e h = ground arith
  shape_alike EventTransition.retracted change e h = ground arith
  shape_alike EventTransition.confirmed change e h = ground arith
  shape_alike EventTransition.authority_only change e h = ground arith

  -- The change is not refused for its shape.
  abbrev pub Shaped : EventChange m → Type 0
  Shaped change =
      validate_change m s change ≢ some ConsequenceBatchContractError.invalid_transition_shape

  Shaped-validate : (change : EventChange m) → Effect.valid_shape m change ≡ true → Shaped change
  unfolding validate_change
  Shaped-validate change h refused =
      let shape = shape_alike change.transition change refl h in ground arith

  Shaped-All : (changes : List (EventChange m)) → AllShaped m changes → All Shaped changes
  Shaped-All [] h = tt
  Shaped-All (change ∷ changes) h = (Shaped-validate change h.0, Shaped-All changes h.1)

  -- A timeline that is idle or in order makes only commits whose batches carry, in every change, the
  -- events that its transition asks for: the router refuses no change of them for its shape.
  pub perform-Shaped :
      (call : Call m) (t t' : Timeline m) (c : Commit m)
      → IsValid m t
      → perform m call t ≡ (t', committed c)
      → All Shaped (event_batch_from_commit m c).changes
  unfolding event_batch_from_commit
  perform-Shaped call t t' c v run =
      let e = perform-Explains m call t t' c v run in Shaped-All c.event_changes e.shaped
