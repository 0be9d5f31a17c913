-- ===== src/Rollback/Timeline.antt =====
-- timeline.hpp: the `Timeline` object, and the helpers that its operations share. An operation takes
-- the timeline and returns it, as it has left it, with the outcome.
pub mod Rules
pub mod Commits
pub mod Accepted
pub mod Operations
use mathlib.Core.Logic.{ite}
use mycore.Base.{
  ℕ, zero, ◌+◌, Option, none, some, List, [], ◌∷◌, ◌++◌, Bool, true, false, not, ◌&&◌, ◌||◌, leb,
  ltb, ◌==◌, has_value, if◌then◌else◌, max, length,
}
use mycore.Base.Word.{u64_max, add_u64}
use mycore.Time.{tick_plus}
use mycore.Rollback.Types.{
  RollbackModel, AuthorityFrame, FrameRecord, TimelineFailure, TimelineStatistics,
  TimelineErrorCode, Variant, value, error, is_valid, not_initialized, stale_authority,
  invalid_acknowledgement, incompatible_authority, stimulus_refresh_failed, model_step_failed,
}
use mycore.Rollback.Journal.{EventIndex, append_events, validate_authority_events}
use mycore.Rollback.Resolve.{Resolved, resolved, refused, dangling}

module _ (m : RollbackModel) where
  open m use {State, Checkpoint, Scope, StateDigest, Error}

  pub record Timeline : Type 0 where
    pub capacity : ℕ
    pub state : Option State
    pub base_checkpoint : Option Checkpoint
    pub scope : Option Scope
    pub history : List (FrameRecord m)
    pub authoritative_tick : ℕ
    pub predicted_tick : ℕ
    pub scope_epoch : ℕ
    pub acknowledged_through : Option ℕ
    pub last_submitted_sequence : Option ℕ
    pub statistics : TimelineStatistics

  -- `broken` stands for what the operations never reach: the `std::logic_error` of a timeline with no
  -- checkpoint, and a read through the end iterator of a map.
  pub data Outcome (A : Type 0) : Type 0 where
    committed : A → Outcome A
    failed : TimelineFailure m → Outcome A
    broken : Outcome A

abbrev pub Operation : RollbackModel → Type 0 → Type 0
Operation m A = Timeline m → Timeline m × Outcome m A

infixl 5 ◌>>=◌ ◌>>◌
unfoldable pub ◌>>=◌ :
    {m : RollbackModel} {A B : Type 0} → Operation m A → (A → Operation m B) → Operation m B
◌>>=◌ p f t =
    let (t', o) = p t in
    elim o [ committed a ↦ f a t' | failed e ↦ (t', failed e) | broken ↦ (t', broken) ]

abbrev pub ◌>>◌ :
    {m : RollbackModel} {B : Type 0} → Operation m (Unit {0}) → Operation m B → Operation m B
p >> q = p >>= λ _. q

abbrev pub no_statistics : TimelineStatistics
no_statistics = record {
  initialization_count = 0;
  advance_count = 0;
  reconciliation_count = 0;
  authority_refresh_count = 0;
  scope_rebase_count = 0;
  hard_resync_count = 0;
  replayed_frame_count = 0;
  failure_count = 0;
  history_high_water = 0;
}

abbrev pub count_failure : TimelineStatistics → TimelineStatistics
count_failure s = record s { failure_count = add_u64 s.failure_count 1 }

pub data AuthorityTickRule : Type 0 where
  strictly_newer same_or_newer : AuthorityTickRule

pub data SameTickCheckpointRule : Type 0 where
  must_match may_replace : SameTickCheckpointRule

abbrev is_same_or_newer : AuthorityTickRule → Bool
is_same_or_newer strictly_newer = false
is_same_or_newer same_or_newer = true

abbrev is_must_match : SameTickCheckpointRule → Bool
is_must_match must_match = true
is_must_match may_replace = false

abbrev pub last : {A : Type 0} → List A → Option A
last [] = none
last (x ∷ []) = some x
last (x ∷ y ∷ ys) = last (y ∷ ys)

-- `sequence <= *bound`, where there is a bound.
abbrev pub at_most : ℕ → Option ℕ → Bool
at_most sequence none = false
at_most sequence (some bound) = leb sequence bound

unfoldable pub valid_optional_sequence : Option ℕ → Bool
valid_optional_sequence none = true
valid_optional_sequence (some sequence) = is_valid sequence

unfoldable pub is_stale : AuthorityTickRule → ℕ → ℕ → Bool
is_stale strictly_newer tick authoritative_tick = leb tick authoritative_tick
is_stale same_or_newer tick authoritative_tick = ltb tick authoritative_tick

-- Whether the new acknowledgement takes back the old one.
unfoldable pub regresses : Option ℕ → Option ℕ → Bool
regresses none new = false
regresses (some old) none = true
regresses (some old) (some new) = ltb new old

-- Whether the acknowledgement goes beyond what was submitted.
unfoldable pub acknowledges_unsent : Option ℕ → Option ℕ → Bool
acknowledges_unsent none last = false
acknowledges_unsent (some new) none = true
acknowledges_unsent (some new) (some last) = ltb last new

module _ (m : RollbackModel) where
  open m use {
    State, Checkpoint, Stimulus, Scope, Event, StateDigest, Error, step, capture, digest,
    checkpoint_discrete,
  }

  -- The constructor; `none` where it throws `std::invalid_argument`.
  unfoldable pub make_timeline : ℕ → Option (Timeline m)
  make_timeline capacity =
      if capacity == 0
      then none
      else some (record {
        capacity = capacity;
        state = none;
        base_checkpoint = none;
        scope = none;
        history = [];
        authoritative_tick = 0;
        predicted_tick = 0;
        scope_epoch = u64_max;
        acknowledged_through = none;
        last_submitted_sequence = none;
        statistics = no_statistics;
      })

  unfoldable pub initialized : Timeline m → Bool
  initialized t = has_value t.state && has_value t.base_checkpoint && has_value t.scope

  unfoldable pub failure : {A : Type 0} → TimelineErrorCode → Option Error → Operation m A
  failure code model_error t = (
    record t { statistics = count_failure t.statistics },
    failed (record { code = code; model_error = model_error }),
  )

  abbrev pub return : {A : Type 0} → A → Operation m A
  return a t = (t, committed a)

  abbrev pub break : {A : Type 0} → Operation m A
  break t = (t, broken)

  abbrev pub read : Operation m (Timeline m)
  read t = (t, committed t)

  abbrev pub write : Timeline m → Operation m (Unit {0})
  write t' t = (t', committed tt)

  -- `if (test) return failure(code);`
  abbrev pub reject_if : Bool → TimelineErrorCode → Operation m (Unit {0})
  reject_if true code = failure code none
  reject_if false code = return tt

  -- `if (const auto error = ...) return failure(*error);`
  abbrev pub reject : Option TimelineErrorCode → Operation m (Unit {0})
  reject none = return tt
  reject (some code) = failure code none

  -- A result of the model, whose error is passed on under the code.
  abbrev pub from_model : {A : Type 0} → TimelineErrorCode → Variant Error A → Operation m A
  from_model code (value a) = return a
  from_model code (error e) = failure code (some e)

  abbrev pub from_index : {A : Type 0} → Variant TimelineErrorCode A → Operation m A
  from_index (value a) = return a
  from_index (error code) = failure code none

  abbrev pub from_resolution : {A : Type 0} → Resolved A → Operation m A
  from_resolution (resolved a) = return a
  from_resolution (refused code) = failure code none
  from_resolution dangling = break

  unfoldable pub head_of : Option (FrameRecord m) → Option Checkpoint → Operation m Checkpoint
  head_of (some frame) base = return frame.checkpoint
  head_of none (some base) = return base
  head_of none none = break

  -- `broken` where the code throws `std::logic_error`.
  unfoldable pub head_checkpoint : Operation m Checkpoint
  head_checkpoint t = head_of (last t.history) t.base_checkpoint t

  unfoldable pub validate_authority :
      Timeline m
      → AuthorityFrame m
      → AuthorityTickRule
      → SameTickCheckpointRule
      → Bool
      → Option TimelineErrorCode
  validate_authority t authority tick_rule checkpoint_rule may_advance_submitted_sequence =
      elim t.base_checkpoint [
        | none ↦ some not_initialized
        | some base ↦
            if not (is_valid authority.scope_epoch)
              || not (valid_optional_sequence authority.acknowledged_through)
            then some incompatible_authority
            else if is_stale tick_rule authority.tick t.authoritative_tick
            then some stale_authority
            else if regresses t.acknowledged_through authority.acknowledged_through
            then some invalid_acknowledgement
            else if not may_advance_submitted_sequence
                && acknowledges_unsent authority.acknowledged_through t.last_submitted_sequence
            then some invalid_acknowledgement
            else if is_must_match checkpoint_rule
                && is_same_or_newer tick_rule
                && authority.tick == t.authoritative_tick
                && ite (checkpoint_discrete authority.checkpoint base) false true
            then some incompatible_authority
            else validate_authority_events m authority.events
      ]

  -- The digest that was predicted for the tick.
  unfoldable pub prior_digest_for_authority : ℕ → List (FrameRecord m) → Option StateDigest
  prior_digest_for_authority tick [] = none
  prior_digest_for_authority tick (frame ∷ frames) =
      if frame.tick == tick then some frame.digest else prior_digest_for_authority tick frames

  -- The callback that refreshes a stimulus on replay.
  abbrev pub Refresh : Type 0
  Refresh = ℕ → Stimulus → State → Scope → Variant Error Stimulus

  unfoldable pub retain_stimulus : Refresh
  retain_stimulus sequence stimulus state scope = value stimulus

  -- The locals of the replay loop.
  pub record Replay : Type 0 where
    pub scratch : State
    pub tick : ℕ
    pub events : EventIndex m
    pub history : List (FrameRecord m)

module _ (m : RollbackModel) where
  open m use {Scope, capture, digest, step}

  unfoldable pub replay_frame :
      Refresh m → Scope → AuthorityFrame m → FrameRecord m → Replay m → Operation m (Replay m)
  replay_frame refresh scope authority frame r =
      elim (at_most frame.command_sequence authority.acknowledged_through) [
        | true ↦ return m r
        | false ↦ do
          stimulus ←
              from_model m stimulus_refresh_failed
                (refresh frame.command_sequence frame.stimulus r.scratch scope)
          (scratch, events) ← from_model m model_step_failed (step r.scratch stimulus scope)
          index ← from_index m (append_events m r.events events)
          let tick = tick_plus r.tick 1
          let checkpoint = capture scratch scope
          return m (record {
            scratch = scratch;
            tick = tick;
            events = index;
            history =
                r.history
                ++ record {
                  tick = tick;
                  command_sequence = frame.command_sequence;
                  stimulus = stimulus;
                  checkpoint = checkpoint;
                  digest = digest checkpoint scope;
                  events = events;
                  scope_epoch = authority.scope_epoch;
                }
                  ∷ [];
          })
      ]

  unfoldable pub replay_frames :
      Refresh m
      → Scope
      → AuthorityFrame m
      → List (FrameRecord m)
      → Replay m
      → Operation m (Replay m)
  replay_frames refresh scope authority [] r = return m r
  replay_frames refresh scope authority (frame ∷ frames) r =
      replay_frame refresh scope authority frame r >>= replay_frames refresh scope authority frames
