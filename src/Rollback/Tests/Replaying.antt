-- ===== src/Rollback/Tests/Replaying.antt =====
-- A counter that is two commands ahead, and the replay of the second on the authority that has
-- applied the first.
use native.Mathlib.Decide.{ℕ_discrete}
use mycore.Base.{ℕ, ◌≡◌, refl, none, some, [], ◌∷◌}
use mycore.Rollback.Types.{FrameRecord, value, CommitKind}
use mycore.Rollback.Timeline.{Timeline, committed, no_statistics, strictly_newer}
use mycore.Rollback.Timeline.Operations.Frames.{unacknowledged, Replayed}
use mycore.Rollback.Calls.Replays.{reconcile-Replayed}
use mycore.Rollback.Timeline.{
  ◌>>=◌, head_of, head_checkpoint, validate_authority, prior_digest_for_authority, retain_stimulus,
  replay_frame, replay_frames, valid_optional_sequence, is_stale, regresses, acknowledges_unsent,
}
use mycore.Rollback.Timeline.Operations.{
  held, require_initialized, held_state, require_state, initialize, advance, reconcile_with_scope,
  reconcile_with_stimulus_refresh,
}
use mycore.Rollback.Journal.{
  append_events, build_event_map, has_shape, event_equal, same_outcome, validate_from,
  validate_authority_events,
}
use mycore.Rollback.Resolve.{
  for_each, enumerate, index_authority, resolve_old, resolve_new, resolve_authority,
  resolve_event_changes,
}
use mycore.Rollback.Keyed.{find, emplace}
use mycore.Rollback.Types.{is_valid}
use mycore.Time.{tick_plus}
use mycore.Rollback.Tests.{counter, second_authority, correcting_commit}

abbrev pub frame : ℕ → ℕ → ℕ → ℕ → ℕ → FrameRecord counter
frame tick sequence stimulus state event = record {
  tick = tick;
  command_sequence = sequence;
  stimulus = stimulus;
  checkpoint = state;
  digest = state;
  events = event ∷ [];
  scope_epoch = 1;
}

abbrev pub ahead : Timeline counter
ahead = record {
  capacity = 3;
  state = some 12;
  base_checkpoint = some 0;
  scope = some 0;
  history = frame 11 1 5 5 500 ∷ frame 12 2 7 12 705 ∷ [];
  authoritative_tick = 10;
  predicted_tick = 12;
  scope_epoch = 1;
  acknowledged_through = none;
  last_submitted_sequence = some 2;
  statistics = no_statistics;
}

abbrev replayed : Timeline counter
replayed = record ahead {
  state = some 13;
  base_checkpoint = some 6;
  history = frame 12 2 7 13 706 ∷ [];
  authoritative_tick = 11;
  acknowledged_through = some 1;
  statistics = record no_statistics {
    reconciliation_count = 1;
    replayed_frame_count = 1;
    history_high_water = 1;
  };
}

scoped_run :
    reconcile_with_scope counter second_authority 0 CommitKind.reconcile strictly_newer
      (retain_stimulus counter)
      ahead
    ≡ (replayed, committed correcting_commit)
unfolding ◌>>=◌ head_of head_checkpoint validate_authority prior_digest_for_authority
    retain_stimulus replay_frame replay_frames valid_optional_sequence is_stale regresses
    acknowledges_unsent held require_initialized held_state require_state initialize advance
    reconcile_with_scope reconcile_with_stimulus_refresh append_events build_event_map has_shape
    event_equal same_outcome validate_from validate_authority_events for_each enumerate
    index_authority resolve_old resolve_new resolve_authority resolve_event_changes find emplace
    is_valid tick_plus ℕ_discrete
scoped_run = refl

reconcile-Replayed_example :
    (start state : ℕ) × (counter.restore 6 0 ≡ value start)
    × (replayed.state ≡ some state)
    × Replayed counter
        (retain_stimulus counter)
        0
        1
        start
        11
        (unacknowledged counter (some 1) ahead.history)
        replayed.history
        state
        replayed.predicted_tick
reconcile-Replayed_example =
    reconcile-Replayed counter second_authority 0 CommitKind.reconcile strictly_newer
      (retain_stimulus counter) ahead replayed correcting_commit scoped_run
