-- ===== src/Rollback/Types.antt =====
-- engine/rollback/include/mycore/rollback: the enumerations and statistics of types.hpp, and the
-- interface and the value types of timeline.hpp.
use mycore.Base.{ℕ, Bool, Option, List, not, ◌==◌}
use mycore.Base.Word.{u64_max}
pub use mycore.Base.Results.{Variant, value, error}

-- `CommandSequence` and `ScopeEpoch` are `StrongId`s over `std::uint64_t`: the greatest value is the
-- invalid one.
unfoldable pub is_valid : ℕ → Bool
is_valid id = not (id == u64_max)

pub data CommitKind : Type 0 where
  initialize advance reconcile authority_refresh scope_rebase hard_resync authority_only :
      CommitKind

pub data EventTransition : Type 0 where
  first_predicted revised retracted confirmed authority_only : EventTransition

pub data AuthorityEventDisposition : Type 0 where
  confirmed rejected : AuthorityEventDisposition

pub data TimelineErrorCode : Type 0 where
  not_initialized already_initialized invalid_command_sequence : TimelineErrorCode
  non_monotonic_command_sequence history_exhausted stale_authority : TimelineErrorCode
  invalid_acknowledgement incompatible_scope incompatible_authority : TimelineErrorCode
  duplicate_event_key conflicting_authority_event model_restore_failed : TimelineErrorCode
  stimulus_refresh_failed model_step_failed : TimelineErrorCode

pub record TimelineStatistics : Type 0 where
  pub initialization_count : ℕ
  pub advance_count : ℕ
  pub reconciliation_count : ℕ
  pub authority_refresh_count : ℕ
  pub scope_rebase_count : ℕ
  pub hard_resync_count : ℕ
  pub replayed_frame_count : ℕ
  pub failure_count : ℕ
  pub history_high_water : ℕ

-- `RollbackModel`: what a game supplies. The concept asks for `==` on the types that are compared
-- here, and rollback_library_guide.md for exact equality: a decision of equality. `step` updates its
-- state argument in place; here it returns the new state beside the events.
pub record RollbackModel : Type 1 where
  pub State : Type 0
  pub Checkpoint : Type 0
  pub Stimulus : Type 0
  pub Scope : Type 0
  pub Event : Type 0
  pub EventKey : Type 0
  pub StateDiff : Type 0
  pub StateDigest : Type 0
  pub Error : Type 0
  pub restore : Checkpoint → Scope → Variant Error State
  pub capture : State → Scope → Checkpoint
  pub step : State → Stimulus → Scope → Variant Error (State × List Event)
  pub digest : Checkpoint → Scope → StateDigest
  pub diff : State → State → Scope → StateDiff
  pub event_key : Event → EventKey
  pub checkpoint_discrete : Discrete Checkpoint
  pub scope_discrete : Discrete Scope
  pub event_discrete : Discrete Event
  pub key_discrete : Discrete EventKey

module _ (m : RollbackModel) where
  open m use {State, Checkpoint, Stimulus, Scope, Event, EventKey, StateDiff, StateDigest, Error}

  pub record AuthorityEvent : Type 0 where
    pub disposition : AuthorityEventDisposition
    pub key : EventKey
    pub event : Option Event

  pub record AuthorityFrame : Type 0 where
    pub tick : ℕ
    pub acknowledged_through : Option ℕ
    pub scope_epoch : ℕ
    pub checkpoint : Checkpoint
    pub events : List AuthorityEvent

  pub record FrameRecord : Type 0 where
    pub tick : ℕ
    pub command_sequence : ℕ
    pub stimulus : Stimulus
    pub checkpoint : Checkpoint
    pub digest : StateDigest
    pub events : List Event
    pub scope_epoch : ℕ

  pub record EventChange : Type 0 where
    pub transition : EventTransition
    pub key : EventKey
    pub previous : Option Event
    pub current : Option Event

  pub record Commit : Type 0 where
    pub kind : CommitKind
    pub previous_predicted_tick : ℕ
    pub authoritative_tick : ℕ
    pub predicted_tick : ℕ
    pub acknowledged_through : Option ℕ
    pub replayed_frame_count : ℕ
    pub state_diff : StateDiff
    pub authoritative_digest : StateDigest
    pub predicted_digest : StateDigest
    pub prior_prediction_digest_at_authority : Option StateDigest
    pub event_changes : List EventChange
    pub retired_event_keys : List EventKey

  pub record EventBatch : Type 0 where
    pub kind : CommitKind
    pub changes : List EventChange
    pub retired_keys : List EventKey
    pub externally_retired_keys : List EventKey

  pub record TimelineFailure : Type 0 where
    pub code : TimelineErrorCode
    pub model_error : Option Error
