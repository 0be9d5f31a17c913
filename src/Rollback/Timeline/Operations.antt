-- ===== src/Rollback/Timeline/Operations.antt =====
-- timeline.hpp: the operations of `Timeline` that change it.
pub mod Advance
pub mod Held
pub mod Frames
pub mod Reconcile
pub mod Resync
use mathlib.Core.Logic.{ite}
use mycore.Base.{
  ℕ, ◌+◌, Option, none, some, List, [], ◌∷◌, ◌++◌, Bool, true, false, not, ◌&&◌, ◌||◌, leb, ltb,
  ◌==◌, if◌then◌else◌, max, length,
}
use mycore.Base.Word.{add_u64}
use mycore.Time.{tick_plus}
use mycore.Rollback.Types.{
  RollbackModel, AuthorityFrame, Commit, CommitKind, EventChange, EventTransition,
  TimelineStatistics, is_valid, already_initialized, invalid_command_sequence,
  non_monotonic_command_sequence, history_exhausted, incompatible_scope, incompatible_authority,
  model_restore_failed, model_step_failed, not_initialized,
}
use mycore.Rollback.Journal.{empty_index, append_events, build_event_map, validate_authority_events}
use mycore.Rollback.Resolve.{resolve_event_changes}
use mycore.Rollback.Timeline.{
  Timeline, Operation, ◌>>=◌, ◌>>◌, AuthorityTickRule, strictly_newer, same_or_newer,
  SameTickCheckpointRule, must_match, may_replace, at_most, last, valid_optional_sequence,
  initialized, failure, return, read, write, reject_if, reject, from_model, from_index,
  from_resolution, head_checkpoint, validate_authority, prior_digest_for_authority, Refresh,
  retain_stimulus, Replay, replay_frames,
}

-- The rule that `reconcile_with_scope` takes from the kind of commit.
abbrev pub same_tick_rule : CommitKind → SameTickCheckpointRule
same_tick_rule CommitKind.scope_rebase = may_replace
same_tick_rule CommitKind.authority_refresh = may_replace
same_tick_rule _ = must_match

abbrev pub count_reconciliation : CommitKind → TimelineStatistics → TimelineStatistics
count_reconciliation CommitKind.reconcile s = record s {
  reconciliation_count = add_u64 s.reconciliation_count 1;
}
count_reconciliation CommitKind.authority_refresh s = record s {
  authority_refresh_count = add_u64 s.authority_refresh_count 1;
}
count_reconciliation _ s = record s { scope_rebase_count = add_u64 s.scope_rebase_count 1 }

-- The statistics of a reconciliation that has replayed `count` frames.
abbrev pub count_replay : CommitKind → ℕ → TimelineStatistics → TimelineStatistics
count_replay kind count s =
    let s' = count_reconciliation kind s in
    record s' {
      replayed_frame_count = add_u64 s'.replayed_frame_count count;
      history_high_water = max s'.history_high_water count;
    }

abbrev pub count_advance : ℕ → TimelineStatistics → TimelineStatistics
count_advance size s = record s {
  advance_count = add_u64 s.advance_count 1;
  history_high_water = max s.history_high_water size;
}

-- `last_submitted_sequence_` after a hard resync, which may acknowledge what was never submitted.
abbrev pub resubmitted : Option ℕ → Option ℕ → Option ℕ
resubmitted last none = last
resubmitted none (some acknowledged) = some acknowledged
resubmitted (some last) (some acknowledged) =
    if ltb last acknowledged then some acknowledged else some last

module _ (m : RollbackModel) where
  open m use {
    State, Checkpoint, Stimulus, Scope, Event, StateDigest, restore, step, capture, digest, diff,
    event_key, scope_discrete,
  }

  unfoldable pub held :
      Option State → Option Checkpoint → Option Scope → Operation m (State × Checkpoint × Scope)
  held (some state) (some base) (some scope) = return m (state, base, scope)
  held _ _ _ = failure m not_initialized none

  -- `if (!state_ || !base_checkpoint_ || !scope_) return failure(NotInitialized);`, and what the
  -- three hold after it.
  unfoldable pub require_initialized : Operation m (State × Checkpoint × Scope)
  require_initialized t = held t.state t.base_checkpoint t.scope t

  unfoldable pub held_state : Option State → Option Checkpoint → Operation m State
  held_state (some state) (some base) = return m state
  held_state _ _ = failure m not_initialized none

  -- `if (!state_ || !base_checkpoint_) return failure(NotInitialized);`
  unfoldable pub require_state : Operation m State
  require_state t = held_state t.state t.base_checkpoint t

  unfoldable pub initialize : AuthorityFrame m → Scope → Operation m (Commit m)
  initialize authority scope = do
    t ← read m
    reject_if m (initialized m t) already_initialized
    reject_if m
        (not (is_valid authority.scope_epoch)
          || not (valid_optional_sequence authority.acknowledged_through))
        incompatible_authority
    reject m (validate_authority_events m authority.events)
    scratch ← from_model m model_restore_failed (restore authority.checkpoint scope)
    resolution ←
        from_resolution m (resolve_event_changes m (empty_index m) (empty_index m) authority.events)
    let authority_digest = digest authority.checkpoint scope
    write m (record t {
      state = some scratch;
      base_checkpoint = some authority.checkpoint;
      scope = some scope;
      history = [];
      authoritative_tick = authority.tick;
      predicted_tick = authority.tick;
      scope_epoch = authority.scope_epoch;
      acknowledged_through = authority.acknowledged_through;
      last_submitted_sequence = authority.acknowledged_through;
      statistics = record t.statistics {
        initialization_count = add_u64 t.statistics.initialization_count 1;
      };
    })
    return m (record {
      kind = CommitKind.initialize;
      previous_predicted_tick = authority.tick;
      authoritative_tick = authority.tick;
      predicted_tick = authority.tick;
      acknowledged_through = authority.acknowledged_through;
      replayed_frame_count = 0;
      state_diff = diff scratch scratch scope;
      authoritative_digest = authority_digest;
      predicted_digest = authority_digest;
      prior_prediction_digest_at_authority = none;
      event_changes = resolution.changes;
      retired_event_keys = resolution.retired_keys;
    })

  abbrev pub first_predictions : List Event → List (EventChange m)
  first_predictions [] = []
  first_predictions (event ∷ events) =
      record {
        transition = EventTransition.first_predicted;
        key = event_key event;
        previous = none;
        current = some event;
      }
      ∷ first_predictions events

  unfoldable pub advance : ℕ → Stimulus → Operation m (Commit m)
  advance sequence stimulus = do
    (state, base, scope) ← require_initialized
    t ← read m
    reject_if m (not (is_valid sequence)) invalid_command_sequence
    reject_if m
        (at_most sequence t.last_submitted_sequence || at_most sequence t.acknowledged_through)
        non_monotonic_command_sequence
    reject_if m (leb t.capacity (length t.history)) history_exhausted
    head ← head_checkpoint m
    restored ← from_model m model_restore_failed (restore head scope)
    (scratch, events) ← from_model m model_step_failed (step restored stimulus scope)
    existing ← from_index m (build_event_map m t.history (empty_index m))
    _ ← from_index m (append_events m existing events)
    let next_tick = tick_plus t.predicted_tick 1
    let checkpoint = capture scratch scope
    let frame_digest = digest checkpoint scope
    let history =
        t.history
        ++ record {
          tick = next_tick;
          command_sequence = sequence;
          stimulus = stimulus;
          checkpoint = checkpoint;
          digest = frame_digest;
          events = events;
          scope_epoch = t.scope_epoch;
        }
          ∷ []
    write m (record t {
      state = some scratch;
      history = history;
      predicted_tick = next_tick;
      last_submitted_sequence = some sequence;
      statistics = count_advance (length history) t.statistics;
    })
    return m (record {
      kind = CommitKind.advance;
      previous_predicted_tick = t.predicted_tick;
      authoritative_tick = t.authoritative_tick;
      predicted_tick = next_tick;
      acknowledged_through = t.acknowledged_through;
      replayed_frame_count = 0;
      state_diff = diff state scratch scope;
      authoritative_digest = digest base scope;
      predicted_digest = frame_digest;
      prior_prediction_digest_at_authority = none;
      event_changes = first_predictions events;
      retired_event_keys = [];
    })

  unfoldable pub reconcile_with_scope :
      AuthorityFrame m → Scope → CommitKind → AuthorityTickRule → Refresh m → Operation m (Commit m)
  reconcile_with_scope authority scope kind tick_rule refresh = do
    state ← require_state
    t ← read m
    reject m (validate_authority m t authority tick_rule (same_tick_rule kind) false)
    scratch ← from_model m model_restore_failed (restore authority.checkpoint scope)
    old_events ← from_index m (build_event_map m t.history (empty_index m))
    replayed ←
        replay_frames m refresh scope authority t.history (record {
          scratch = scratch;
          tick = authority.tick;
          events = empty_index m;
          history = [];
        })
    resolution ←
        from_resolution m (resolve_event_changes m old_events replayed.events authority.events)
    let authority_digest = digest authority.checkpoint scope
    let predicted_digest : StateDigest = elim (last replayed.history) [
      | none ↦ authority_digest
      | some frame ↦ frame.digest
    ]
    write m (record t {
      state = some replayed.scratch;
      base_checkpoint = some authority.checkpoint;
      scope = some scope;
      history = replayed.history;
      authoritative_tick = authority.tick;
      predicted_tick = replayed.tick;
      scope_epoch = authority.scope_epoch;
      acknowledged_through = authority.acknowledged_through;
      statistics = count_replay kind (length replayed.history) t.statistics;
    })
    return m (record {
      kind = kind;
      previous_predicted_tick = t.predicted_tick;
      authoritative_tick = authority.tick;
      predicted_tick = replayed.tick;
      acknowledged_through = authority.acknowledged_through;
      replayed_frame_count = length replayed.history;
      state_diff = diff state replayed.scratch scope;
      authoritative_digest = authority_digest;
      predicted_digest = predicted_digest;
      prior_prediction_digest_at_authority = prior_digest_for_authority m authority.tick t.history;
      event_changes = resolution.changes;
      retired_event_keys = resolution.retired_keys;
    })

  unfoldable pub reconcile_with_stimulus_refresh :
      AuthorityFrame m → Refresh m → Operation m (Commit m)
  reconcile_with_stimulus_refresh authority refresh = do
    (state, base, scope) ← require_initialized
    t ← read m
    reject_if m (not (authority.scope_epoch == t.scope_epoch)) incompatible_scope
    reconcile_with_scope authority scope CommitKind.reconcile strictly_newer refresh

  unfoldable pub reconcile : AuthorityFrame m → Operation m (Commit m)
  reconcile authority = reconcile_with_stimulus_refresh authority (retain_stimulus m)

  unfoldable pub refresh_authority_with_stimulus_refresh :
      AuthorityFrame m → Refresh m → Operation m (Commit m)
  refresh_authority_with_stimulus_refresh authority refresh = do
    (state, base, scope) ← require_initialized
    t ← read m
    reject_if m (not (authority.scope_epoch == t.scope_epoch)) incompatible_scope
    reject_if m (not (authority.tick == t.authoritative_tick)) incompatible_authority
    reconcile_with_scope authority scope CommitKind.authority_refresh same_or_newer refresh

  unfoldable pub refresh_authority : AuthorityFrame m → Operation m (Commit m)
  refresh_authority authority =
      refresh_authority_with_stimulus_refresh authority (retain_stimulus m)

  unfoldable pub rebase_scope_with_stimulus_refresh :
      AuthorityFrame m → Scope → Refresh m → Operation m (Commit m)
  rebase_scope_with_stimulus_refresh authority scope refresh = do
    (state, base, old_scope) ← require_initialized
    t ← read m
    reject_if m (not (is_valid authority.scope_epoch) || leb authority.scope_epoch t.scope_epoch)
        incompatible_scope
    reconcile_with_scope authority scope CommitKind.scope_rebase same_or_newer refresh

  unfoldable pub rebase_scope : AuthorityFrame m → Scope → Operation m (Commit m)
  rebase_scope authority scope =
      rebase_scope_with_stimulus_refresh authority scope (retain_stimulus m)

  unfoldable pub hard_resync : AuthorityFrame m → Scope → Operation m (Commit m)
  hard_resync authority scope = do
    (state, base, old_scope) ← require_initialized
    t ← read m
    reject_if m (ltb authority.scope_epoch t.scope_epoch) incompatible_scope
    reject_if m
        (authority.scope_epoch == t.scope_epoch && ite (scope_discrete scope old_scope) false true)
        incompatible_scope
    reject m (validate_authority m t authority same_or_newer may_replace true)
    scratch ← from_model m model_restore_failed (restore authority.checkpoint scope)
    old_events ← from_index m (build_event_map m t.history (empty_index m))
    resolution ←
        from_resolution m (resolve_event_changes m old_events (empty_index m) authority.events)
    let authority_digest = digest authority.checkpoint scope
    write m (record t {
      state = some scratch;
      base_checkpoint = some authority.checkpoint;
      scope = some scope;
      history = [];
      authoritative_tick = authority.tick;
      predicted_tick = authority.tick;
      scope_epoch = authority.scope_epoch;
      acknowledged_through = authority.acknowledged_through;
      last_submitted_sequence =
          resubmitted t.last_submitted_sequence authority.acknowledged_through;
      statistics = record t.statistics {
        hard_resync_count = add_u64 t.statistics.hard_resync_count 1;
      };
    })
    return m (record {
      kind = CommitKind.hard_resync;
      previous_predicted_tick = t.predicted_tick;
      authoritative_tick = authority.tick;
      predicted_tick = authority.tick;
      acknowledged_through = authority.acknowledged_through;
      replayed_frame_count = 0;
      state_diff = diff state scratch scope;
      authoritative_digest = authority_digest;
      predicted_digest = authority_digest;
      prior_prediction_digest_at_authority = prior_digest_for_authority m authority.tick t.history;
      event_changes = resolution.changes;
      retired_event_keys = resolution.retired_keys;
    })
