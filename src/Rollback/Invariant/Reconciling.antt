-- ===== src/Rollback/Invariant/Reconciling.antt =====
-- When `Timeline::reconcile_with_scope` commits.
use mycore.Base.{ℕ, ◌≡◌, refl, inl, inr, none, some, List, [], false, length}
use mycore.Rollback.Types.{RollbackModel, AuthorityFrame, FrameRecord, Commit, CommitKind, value}
use mycore.Rollback.Keyed.{In, Distinct}
use mycore.Rollback.Journal.{empty_index}
use mycore.Rollback.Journal.Order.{keys, journal, empty-Indexes, build_event_map-Indexes}
use mycore.Rollback.Journal.Shape.{validate-shape}
use mycore.Rollback.Resolve.Authority.{authority_keys}
use mycore.Rollback.Resolve.Rounds.{Setting}
use mycore.Rollback.Resolve.Complete.{resolve-Ends}
use mycore.Rollback.Timeline.{Timeline, committed, AuthorityTickRule, Refresh, validate_authority}
use mycore.Rollback.Timeline.Accepted.{validate_authority-Accepted}
use mycore.Rollback.Timeline.Commits.{
  Commits, committed-Commits, bind-Commits, finish-Commits, gives, indexes,
}
use mycore.Rollback.Timeline.Operations.{
  reconcile_with_scope, require_state, held_state, same_tick_rule,
}
use mycore.Rollback.Timeline.Operations.Frames.{Replayed, unacknowledged}
use mycore.Rollback.Invariant.{Running}
use mycore.Rollback.Invariant.Replaying.{replay_frames-returns}

module _ (m : RollbackModel) where
  open m use {State, Scope, restore}

  module _ (authority : AuthorityFrame m) (scope : Scope) (kind : CommitKind)
      (rule : AuthorityTickRule) (refresh : Refresh m) (t : Timeline m) (r : Running m t)
      (start : State) (frames : List (FrameRecord m)) (state : State) (tick : ℕ)
      (valid : validate_authority m t authority rule (same_tick_rule kind) false ≡ none)
      (restores : restore authority.checkpoint scope ≡ value start)
      (replayed : Replayed m refresh scope authority.scope_epoch start authority.tick
        (unacknowledged m authority.acknowledged_through t.history)
        frames
        state
        tick)
      (distinct : Distinct (keys m (journal m frames)))
      (unanswered : (k : m.EventKey)
        → In k (keys m (journal m frames))
        → ¬ In k (authority_keys m authority.events)) where
    -- What the reconciliation commits.
    abbrev Committed : Timeline m → Commit m → Type 0
    Committed t' c =
        (t'.state ≡ some state)
        × (t'.history ≡ frames)
        × (t'.predicted_tick ≡ tick)
        × (t'.authoritative_tick ≡ authority.tick)
        × (c.replayed_frame_count ≡ length frames)

    holding_state : require_state m t ≡ (t, committed r.state)
    unfolding require_state held_state
    holding_state = rw (r.holds.state, r.holds.base) refl

    reconcile-Commits :
        Commits m Committed (reconcile_with_scope m authority scope kind rule refresh t)
    unfolding reconcile_with_scope
    reconcile-Commits =
        let (old_events, built, old_index) = build_event_map-Indexes m t.history r.unique in
        let (new_events, looped, new_index) =
          replay_frames-returns m t refresh scope authority t.history
            (record {
              scratch = start;
              tick = authority.tick;
              events = empty_index m;
              history = [];
            })
            frames state tick [] replayed (empty-Indexes m) distinct in
        let accepted =
          validate_authority-Accepted m t authority rule (same_tick_rule kind) false valid in
        let setting : Setting m (journal m t.history) (journal m frames) authority.events old_events
            new_events =
          record {
            old_index = old_index;
            new_index = new_index;
            shapes = λ a. validate-shape m authority.events a accepted.events;
          } in
        elim (resolve-Ends m (journal m t.history) (journal m frames) authority.events old_events
          new_events setting) [
            | inr ((k, predicted, answered), _) ↦ absurd (unanswered k predicted answered)
            | inl (resolution, resolves, _) ↦ bind-Commits m t r.state _ _ holding_state (
                bind-Commits m t t _ _ refl (
                  bind-Commits m t _ _ _ (rw valid refl) (
                    bind-Commits m t start _ _ (gives m t _ _ start restores) (
                      bind-Commits m t old_events _ _ (indexes m t _ old_events built) (
                        bind-Commits m t _ _ _ looped (
                          bind-Commits m t resolution _ _ (rw resolves refl)
                            (finish-Commits m t _ _ (refl, refl, refl, refl, refl))))))))
          ]

    -- A reconciliation of a timeline in order commits if the authority frame is accepted, its
    -- checkpoint restores, the unacknowledged frames can be stepped again from it, the keys of the
    -- events of the new frames are distinct, and the authority has answered none of them. The
    -- timeline then has the new frames, the state and the tick that they end in, and the
    -- authority's tick; and the commit counts the replayed frames.
    pub reconcile_commits :
        (t' : Timeline m) × (c : Commit m) × (reconcile_with_scope m authority scope kind rule
            refresh t
          ≡ (t', committed c))
        × (t'.state ≡ some state)
        × (t'.history ≡ frames)
        × (t'.predicted_tick ≡ tick)
        × (t'.authoritative_tick ≡ authority.tick)
        × (c.replayed_frame_count ≡ length frames)
    reconcile_commits =
        let (t', c, run, (same_state, history, predicted, authoritative, count)) =
          committed-Commits m (reconcile_with_scope m authority scope kind rule refresh t)
            reconcile-Commits in
        (t', c, run, same_state, history, predicted, authoritative, count)
