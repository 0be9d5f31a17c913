-- ===== src/Rollback/Tests.antt =====
-- A small game: a counter, whose stimuli are added to it and raise an event each. Runs of the
-- rollback code on it, and the theorems at them.
pub mod Witnesses
pub mod Advancing
pub mod Resolving
pub mod Replaying
pub mod Receiving
pub mod Reconciling
pub mod Routing
use native.Mathlib.Decide.{ℕ_discrete}
use mycore.Base.{ℕ, ◌+◌, ◌*◌, ◌/◌, ◌≡◌, refl, none, some, List, [], ◌∷◌, true, false, ◌==◌}
use mycore.Rollback.Types.{
  RollbackModel, Variant, value, error, AuthorityEvent, AuthorityEventDisposition, AuthorityFrame,
  Commit, CommitKind, EventTransition,
}
use mycore.Rollback.Timeline.{
  Timeline, Outcome, committed, make_timeline, retain_stimulus, no_statistics,
}
use mycore.Rollback.Calls.{
  Call, initializing, advancing, reconciling, perform, Reaches, here, after_call,
}

-- An event's key is its stimulus, and its payload the counter that the stimulus met.
abbrev pub count_up : ℕ → ℕ → ℕ → Variant ℕ (ℕ × List ℕ)
count_up state stimulus scope = elim (stimulus == 0) [
  | true ↦ error 7
  | false ↦ value (state + stimulus, (100 * stimulus + state) ∷ [])
]

abbrev pub counter : RollbackModel
counter = record {
  State = ℕ;
  Checkpoint = ℕ;
  Stimulus = ℕ;
  Scope = ℕ;
  Event = ℕ;
  EventKey = ℕ;
  StateDiff = ℕ × ℕ;
  StateDigest = ℕ;
  Error = ℕ;
  restore = λ checkpoint scope. value checkpoint;
  capture = λ state scope. state;
  step = count_up;
  digest = λ checkpoint scope. checkpoint;
  diff = λ before after scope. (before, after);
  event_key = λ event. event / 100;
  checkpoint_discrete = ℕ_discrete;
  scope_discrete = ℕ_discrete;
  event_discrete = ℕ_discrete;
  key_discrete = ℕ_discrete;
}

abbrev pub first_authority : AuthorityFrame counter
first_authority = record {
  tick = 10;
  acknowledged_through = none;
  scope_epoch = 1;
  checkpoint = 0;
  events = [];
}

-- The authority has applied the first command on a counter that was one ahead.
abbrev pub second_authority : AuthorityFrame counter
second_authority = record {
  tick = 11;
  acknowledged_through = some 1;
  scope_epoch = 1;
  checkpoint = 6;
  events =
      record { disposition = AuthorityEventDisposition.confirmed; key = 5; event = some 501 } ∷ [];
}

abbrev pub fresh : Timeline counter
fresh = record {
  capacity = 3;
  state = none;
  base_checkpoint = none;
  scope = none;
  history = [];
  authoritative_tick = 0;
  predicted_tick = 0;
  scope_epoch = 18446744073709551615;
  acknowledged_through = none;
  last_submitted_sequence = none;
  statistics = no_statistics;
}

abbrev pub started : Timeline counter
started = (perform counter (initializing first_authority 0) fresh).0

abbrev pub one_ahead : Timeline counter
one_ahead = (perform counter (advancing 1 5) started).0

abbrev pub two_ahead : Timeline counter
two_ahead = (perform counter (advancing 2 7) one_ahead).0

abbrev pub correction : Call counter
correction = reconciling second_authority (retain_stimulus counter)

abbrev pub corrected : Timeline counter
corrected = (perform counter correction two_ahead).0

-- The calls that lead there.
abbrev pub to_two_ahead : Reaches counter fresh two_ahead
to_two_ahead =
    after_call one_ahead (advancing 2 7)
      (after_call started (advancing 1 5) (after_call fresh (initializing first_authority 0) here))

-- The commit of the correction: the first command's event is confirmed, with the payload that the
-- authority has for it, and the second one's is revised.
abbrev pub correcting_commit : Commit counter
correcting_commit = record {
  kind = CommitKind.reconcile;
  previous_predicted_tick = 12;
  authoritative_tick = 11;
  predicted_tick = 12;
  acknowledged_through = some 1;
  replayed_frame_count = 1;
  state_diff = (12, 13);
  authoritative_digest = 6;
  predicted_digest = 13;
  prior_prediction_digest_at_authority = some 5;
  event_changes =
      record {
        transition = EventTransition.confirmed;
        key = 5;
        previous = some 500;
        current = some 501;
      }
      ∷ record {
        transition = EventTransition.revised;
        key = 7;
        previous = some 705;
        current = some 706;
      }
      ∷ [];
  retired_event_keys = 5 ∷ [];
}
