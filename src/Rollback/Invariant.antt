-- ===== src/Rollback/Invariant.antt =====
-- The invariant of `Timeline`: the predicted state is the replay of the retained frames over the
-- authority's checkpoint.
pub mod Sequences
pub mod Traces
pub mod Keeps
pub mod Reached
pub mod Explained
pub mod Advancing
pub mod Replaying
pub mod Reconciling
use mycore.Base.{ℕ, ◌≤◌, ◌≡◌, ◌⊎◌, Option, none, some, List, [], ◌∷◌, false, length}
use mycore.Rollback.Types.{RollbackModel, FrameRecord, value}
use mycore.Rollback.Keyed.{Distinct}
use mycore.Rollback.Journal.Order.{keys, journal}
use mycore.Rollback.Timeline.{Timeline, at_most, acknowledges_unsent}
use mycore.Rollback.Timeline.Operations.Held.{Holds}
use mycore.Rollback.Timeline.Operations.Frames.{IsStep}

module _ (m : RollbackModel) where
  open m use {State, Checkpoint, Scope, restore, capture}

  -- The commands of the frames ascend from above the bound up to the last one submitted.
  abbrev pub Ascends : Option ℕ → List (FrameRecord m) → Option ℕ → Type 0
  Ascends bound [] submitted = acknowledges_unsent bound submitted ≡ false
  Ascends bound (f ∷ fs) submitted =
      (at_most f.command_sequence bound ≡ false) × Ascends (some f.command_sequence) fs submitted

  -- `p` is the state `s`, or what the model restores from the checkpoint of `s`.
  abbrev pub Resumes : Scope → State → State → Type 0
  Resumes scope s p = (p ≡ s) ⊎ (restore (capture s scope) scope ≡ value p)

  -- The frames lead from the state `s` after the tick `k` to `s'` after `k'`, a step of the model
  -- each: from the state that the one before it has ended in, or from what the model restores from
  -- the checkpoint of that state.
  abbrev pub Traced : Scope → ℕ → State → ℕ → List (FrameRecord m) → State → ℕ → Type 0
  Traced scope epoch s k [] s' k' = (s ≡ s') × (k ≡ k')
  Traced scope epoch s k (n ∷ ns) s' k' =
      (p s₁ : State) × Resumes scope s p
      × IsStep m scope epoch p k n s₁
      × Traced scope epoch s₁ n.tick ns s' k'

  -- An initialized timeline in order.
  pub record Running (t : Timeline m) : Type 0 where
    pub state : State
    pub base : Checkpoint
    pub scope : Scope
    pub holds : Holds m t (state, base, scope)
    pub bounded : length t.history ≤ t.capacity
    pub commands : Ascends t.acknowledged_through t.history t.last_submitted_sequence
    pub start : State
    pub restores : restore base scope ≡ value start
    pub traced :
        Traced scope t.scope_epoch start t.authoritative_tick t.history state t.predicted_tick
    pub unique : Distinct (keys m (journal m t.history))

  -- A timeline that holds nothing yet.
  pub record Idle (t : Timeline m) : Type 0 where
    pub state : t.state ≡ none
    pub base : t.base_checkpoint ≡ none
    pub scope : t.scope ≡ none
    pub history : t.history ≡ []

  abbrev pub IsValid : Timeline m → Type 0
  IsValid t = Idle t ⊎ Running t
