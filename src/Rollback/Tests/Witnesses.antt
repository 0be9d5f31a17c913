-- ===== src/Rollback/Tests/Witnesses.antt =====
-- Runs of the counter game, and the theorems of the timeline at them.
use native.Mathlib.Decide.{ℕ_discrete}
use mycore.Base.{◌≡◌, ◌⊎◌, refl, some, true}
use mycore.Rollback.Types.{Commit, TimelineFailure}
use mycore.Rollback.Journal.Order.{journal}
use mycore.Rollback.Resolve.Complete.{Explains}
use mycore.Rollback.Timeline.{Timeline, committed, failed, make_timeline, initialized}
use mycore.Rollback.Timeline.Rules.{after_failure}
use mycore.Rollback.Calls.{advancing, perform, after_call, here}
use mycore.Rollback.Calls.Atomic.{perform_atomic}
use mycore.Rollback.Calls.Forward.{Forward, reached-Forward}
use mycore.Rollback.Calls.Replays.{resolution_of}
use mycore.Rollback.Invariant.{IsValid}
use mycore.Rollback.Invariant.Reached.{reached-IsValid}
use mycore.Rollback.Invariant.Explained.{answers, perform-Explains}
use mycore.Rollback.Timeline.{
  ◌>>=◌, head_of, head_checkpoint, validate_authority, prior_digest_for_authority, retain_stimulus,
  replay_frame, replay_frames, valid_optional_sequence, is_stale, regresses, acknowledges_unsent,
}
use mycore.Rollback.Timeline.Operations.{
  held, require_initialized, held_state, require_state, initialize, advance, reconcile_with_scope,
  reconcile_with_stimulus_refresh,
}
use mycore.Rollback.Journal.{
  append_events, build_event_map, has_shape, event_equal, same_outcome, validate_from,
  validate_authority_events,
}
use mycore.Rollback.Resolve.{
  for_each, enumerate, index_authority, resolve_old, resolve_new, resolve_authority,
  resolve_event_changes,
}
use mycore.Rollback.Keyed.{find, emplace}
use mycore.Rollback.Types.{is_valid}
use mycore.Time.{tick_plus}
use mycore.Rollback.Tests.{
  counter, fresh, started, one_ahead, two_ahead, correction, corrected, to_two_ahead,
  correcting_commit,
}

new_is_fresh : make_timeline counter 3 ≡ some fresh
unfolding make_timeline
new_is_fresh = refl

reached-IsValid_example : IsValid counter corrected
reached-IsValid_example =
    reached-IsValid counter 3 fresh corrected new_is_fresh
      (after_call two_ahead correction to_two_ahead)

pub two_ahead-IsValid : IsValid counter two_ahead
two_ahead-IsValid = reached-IsValid counter 3 fresh two_ahead new_is_fresh to_two_ahead

pub correction_run : perform counter correction two_ahead ≡ (corrected, committed correcting_commit)
unfolding ◌>>=◌ head_of head_checkpoint validate_authority prior_digest_for_authority
    retain_stimulus replay_frame replay_frames valid_optional_sequence is_stale regresses
    acknowledges_unsent held require_initialized held_state require_state initialize advance
    reconcile_with_scope reconcile_with_stimulus_refresh append_events build_event_map has_shape
    event_equal same_outcome validate_from validate_authority_events for_each enumerate
    index_authority resolve_old resolve_new resolve_authority resolve_event_changes find emplace
    is_valid tick_plus initialized ℕ_discrete
correction_run = refl

perform-Explains_example :
    Explains counter
      (journal counter two_ahead.history)
      (journal counter corrected.history)
      (answers counter correction)
      (resolution_of counter correcting_commit)
perform-Explains_example =
    perform-Explains counter correction two_ahead corrected correcting_commit two_ahead-IsValid
      correction_run

perform_atomic_example :
    ((t' : Timeline counter) × (c : Commit counter) × (perform counter (advancing 3 0) two_ahead
        ≡ (t', committed c)))
    ⊎ ((e : TimelineFailure counter) × (perform counter (advancing 3 0) two_ahead
          ≡ (after_failure counter two_ahead, failed e)))
perform_atomic_example = perform_atomic counter (advancing 3 0) two_ahead

started_run : initialized counter started ≡ true
unfolding initialized initialize ◌>>=◌ is_valid valid_optional_sequence validate_authority_events
    resolve_event_changes for_each enumerate
started_run = refl

reached-Forward_example : Forward counter started corrected
reached-Forward_example = reached-Forward counter started corrected started_run (
    after_call two_ahead correction
      (after_call one_ahead (advancing 2 7) (after_call started (advancing 1 5) here)))
