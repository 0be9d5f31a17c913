-- ===== src/Rollback/Invariant/Advancing.antt =====
-- When `Timeline::advance` commits.
use mathlib.Core.Path.{subst}
use mycore.Base.{
  ℕ, ◌<◌, ◌≡◌, refl, inl, inr, Option, none, some, List, [], ◌∷◌, ◌++◌, true, false, length, arith,
}
use mycore.Rollback.Types.{RollbackModel, FrameRecord, Commit, value, is_valid}
use mycore.Rollback.Keyed.{Distinct, Distinct-append_left}
use mycore.Rollback.Journal.Order.{
  keys, journal, build_event_map-Indexes, append_events-total, keys-append,
}
use mycore.Rollback.Timeline.{
  Timeline, committed, at_most, acknowledges_unsent, head_checkpoint, head_of,
}
use mycore.Rollback.Timeline.Commits.{
  Commits, committed-Commits, bind-Commits, finish-Commits, passes, gives, indexes,
}
use mycore.Rollback.Timeline.Operations.{advance, require_initialized, held, first_predictions}
use mycore.Rollback.Timeline.Operations.Held.{Head}
use mycore.Rollback.Timeline.Operations.Advance.{next_frame, advanced}
use mycore.Rollback.Invariant.{Ascends, Running}
use mycore.Rollback.Invariant.Sequences.{above_bound}

sent_over :
    (bound submitted : Option ℕ) (n : ℕ)
    → at_most n bound ≡ false
    → acknowledges_unsent (some n) submitted ≡ false
    → acknowledges_unsent bound submitted ≡ false
unfolding acknowledges_unsent
sent_over none submitted n h g = refl
sent_over (some b) none n h g = absurd (cc g)
sent_over (some b) (some s) n h g = ground arith

module _ (m : RollbackModel) where
  open m use {State, Checkpoint, Stimulus, Scope, Event, restore, step, capture}

  Ascends-sent :
      (bound submitted : Option ℕ) (fs : List (FrameRecord m))
      → Ascends m bound fs submitted
      → acknowledges_unsent bound submitted ≡ false
  Ascends-sent bound submitted [] h = h
  Ascends-sent bound submitted (f ∷ fs) (above, h) =
      sent_over bound submitted f.command_sequence above
        (Ascends-sent (some f.command_sequence) submitted fs h)

  module _ (t : Timeline m) where
    holding :
        (r : Running m t) → require_initialized m t ≡ (t, committed (r.state, r.base, r.scope))
    unfolding require_initialized held
    holding r = rw (r.holds.state, r.holds.base, r.holds.scope) refl

    heads : (head : Checkpoint) → Head m t head → head_checkpoint m t ≡ (t, committed head)
    unfolding head_checkpoint head_of
    heads head (inl (f, newest, at)) = rw (newest, at) refl
    heads head (inr (none_yet, at)) = rw (none_yet, at) refl

  module _ (t : Timeline m) (r : Running m t) (sequence : ℕ) (stimulus : Stimulus)
      (head : Checkpoint) (restored scratch : State) (events : List Event) (at_head : Head m t head)
      (restores : restore head r.scope ≡ value restored) (valid : is_valid sequence ≡ true)
      (newer : at_most sequence t.last_submitted_sequence ≡ false)
      (room : length t.history < t.capacity)
      (steps : step restored stimulus r.scope ≡ value (scratch, events))
      (distinct : Distinct (keys m (journal m t.history ++ events))) where
    -- What the advance commits.
    abbrev Appended : Timeline m → Commit m → Type 0
    Appended t' c =
        (t'
          ≡ advanced m t sequence scratch (next_frame m t sequence stimulus r.scope scratch events))
        × (c.event_changes ≡ first_predictions m events)

    advance-Commits : Commits m Appended (advance m sequence stimulus t)
    unfolding advance
    advance-Commits =
        let sent =
          Ascends-sent t.acknowledged_through t.last_submitted_sequence t.history r.commands in
        let above : at_most sequence t.acknowledged_through ≡ false =
          above_bound t.acknowledged_through t.last_submitted_sequence sequence sent newer in
        let front =
          Distinct-append_left (keys m (journal m t.history)) (keys m events)
            (subst Distinct (keys-append m (journal m t.history) events) distinct) in
        let (existing, built, indexed) = build_event_map-Indexes m t.history front in
        let (extended, appended) =
          append_events-total m (journal m t.history) events existing indexed distinct in
        bind-Commits m t _ _ _ (holding t r) (
          bind-Commits m t t _ _ refl (
            bind-Commits m t _ _ _ (passes m t _ _ (ground arith)) (
              bind-Commits m t _ _ _ (passes m t _ _ (rw (newer, above) refl)) (
                bind-Commits m t _ _ _ (passes m t _ _ (ground arith)) (
                  bind-Commits m t head _ _ (heads t head at_head) (
                    bind-Commits m t _ _ _ (gives m t _ _ restored restores) (
                      bind-Commits m t _ _ _ (gives m t _ _ (scratch, events) steps) (
                        bind-Commits m t _ _ _ (indexes m t _ existing built) (
                          bind-Commits m t _ _ _ (indexes m t _ extended appended)
                            (finish-Commits m t _ _ (refl, refl)))))))))))

    -- An advance of a timeline in order commits if the command sequence is valid and newer than the
    -- last one submitted, the history has room, the model restores the head checkpoint, which is that
    -- of the newest frame or else the base, and steps the restored state by the stimulus, and the
    -- keys of the step's events are distinct from each other and from those of the history. It
    -- appends the frame of that step, and announces the events, in their order, as first predicted.
    pub advance_commits :
        (t' : Timeline m) × (c : Commit m) × (advance m sequence stimulus t ≡ (t', committed c))
        × (t'
            ≡ advanced m t sequence scratch
                (next_frame m t sequence stimulus r.scope scratch events))
        × (c.event_changes ≡ first_predictions m events)
    advance_commits =
        let (t', c, run, (after, changes)) =
          committed-Commits m (advance m sequence stimulus t) advance-Commits in
        (t', c, run, after, changes)
