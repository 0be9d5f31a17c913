-- ===== src/Rollback/Timeline/Operations/Advance.antt =====
-- `Timeline::advance`: what it has read and done when it commits.
use mycore.Base.{ℕ, ◌≡◌, refl, some, List, [], ◌∷◌, ◌++◌, false, not, ◌||◌, leb, length}
use mycore.Time.{tick_plus}
use mycore.Rollback.Types.{RollbackModel, FrameRecord, Commit, CommitKind, value, is_valid}
use mycore.Rollback.Journal.{EventIndex, empty_index, append_events, build_event_map}
use mycore.Rollback.Timeline.{Timeline, at_most}
use mycore.Rollback.Timeline.Rules.{
  Ensures, bind-Ensures, read-Ensures, reject_if-Reads, from_model-Reads, from_index-Reads,
  finish-Ensures,
}
use mycore.Rollback.Timeline.Operations.{advance, count_advance, first_predictions}
use mycore.Rollback.Timeline.Operations.Held.{
  Holds, require_initialized-Reads, Head, head_checkpoint-Reads,
}

module _ (m : RollbackModel) where
  open m use {State, Checkpoint, Stimulus, Scope, Event, restore, step, capture, digest, diff}

  -- The frame that a step to `scratch` adds to the history.
  abbrev pub next_frame : Timeline m → ℕ → Stimulus → Scope → State → List Event → FrameRecord m
  next_frame t sequence stimulus scope scratch events = record {
    tick = tick_plus t.predicted_tick 1;
    command_sequence = sequence;
    stimulus = stimulus;
    checkpoint = capture scratch scope;
    digest = digest (capture scratch scope) scope;
    events = events;
    scope_epoch = t.scope_epoch;
  }

  abbrev pub advanced : Timeline m → ℕ → State → FrameRecord m → Timeline m
  advanced t sequence scratch frame = record t {
    state = some scratch;
    history = t.history ++ frame ∷ [];
    predicted_tick = frame.tick;
    last_submitted_sequence = some sequence;
    statistics = count_advance (length (t.history ++ frame ∷ [])) t.statistics;
  }

  -- How `t` commits an advance, with the commit.
  pub record Advances (t : Timeline m) (sequence : ℕ) (stimulus : Stimulus) (t' : Timeline m)
      (c : Commit m) : Type 0 where
    pub state : State
    pub base : Checkpoint
    pub scope : Scope
    pub holds : Holds m t (state, base, scope)
    pub valid : not (is_valid sequence) ≡ false
    pub newer :
        (at_most sequence t.last_submitted_sequence || at_most sequence t.acknowledged_through)
        ≡ false
    pub room : leb t.capacity (length t.history) ≡ false
    pub head : Checkpoint
    pub at_head : Head m t head
    pub restored : State
    pub restores : restore head scope ≡ value restored
    pub scratch : State
    pub events : List Event
    pub steps : step restored stimulus scope ≡ value (scratch, events)
    pub existing : EventIndex m
    pub indexes : build_event_map m t.history (empty_index m) ≡ value existing
    pub extended : EventIndex m
    pub appends : append_events m existing events ≡ value extended
    pub after :
        t' ≡ advanced t sequence scratch (next_frame t sequence stimulus scope scratch events)
    pub changes : c.event_changes ≡ first_predictions m events
    pub retired : c.retired_event_keys ≡ []
    pub kind : c.kind ≡ CommitKind.advance

  pub advance-Ensures :
      (t : Timeline m) (sequence : ℕ) (stimulus : Stimulus)
      → Ensures m t (Advances t sequence stimulus) (advance m sequence stimulus t)
  unfolding advance
  advance-Ensures t sequence stimulus =
      bind-Ensures m _ _ (require_initialized-Reads m t) λ (state, base, scope) holds.
        read-Ensures m _ (
          bind-Ensures m _ _ (reject_if-Reads m t (not (is_valid sequence)) _) λ _ valid.
            bind-Ensures m _ _ (reject_if-Reads m t _ _) λ _ newer.
              bind-Ensures m _ _ (reject_if-Reads m t _ _) λ _ room.
                bind-Ensures m _ _ (head_checkpoint-Reads m t base holds.base) λ head at_head.
                  bind-Ensures m _ _ (from_model-Reads m t _ (restore head scope))
                    λ restored restores.
                      bind-Ensures m _ _ (from_model-Reads m t _ (step restored stimulus scope))
                        λ (scratch, events) steps.
                          bind-Ensures m _ _ (from_index-Reads m t _) λ existing indexes.
                            bind-Ensures m _ _ (from_index-Reads m t _) λ extended appends.
                              finish-Ensures m t _ _ (record {
                                state = state;
                                base = base;
                                scope = scope;
                                holds = holds;
                                valid = valid;
                                newer = newer;
                                room = room;
                                head = head;
                                at_head = at_head;
                                restored = restored;
                                restores = restores;
                                scratch = scratch;
                                events = events;
                                steps = steps;
                                existing = existing;
                                indexes = indexes;
                                extended = extended;
                                appends = appends;
                                after = refl;
                                changes = refl;
                                retired = refl;
                                kind = refl;
                              }))
