-- ===== src/Rollback/Timeline/Operations/Reconcile.antt =====
-- `Timeline::reconcile_with_scope` and the operations that end in it: what they have read and done
-- when they commit.
use mycore.Base.{◌<◌, ◌≡◌, refl, inl, inr, some, none, List, [], true, false, ◌==◌, arith, length}
use mycore.Rollback.Types.{
  RollbackModel, AuthorityFrame, AuthorityEvent, Commit, CommitKind, value,
  conflicting_authority_event,
}
use mycore.Rollback.Journal.{EventIndex, empty_index}
use mycore.Rollback.Journal.Order.{journal, empty-Indexes, build_event_map-value}
use mycore.Rollback.Journal.Shape.{validate-shape}
use mycore.Rollback.Resolve.{EventResolution, resolve_event_changes}
use mycore.Rollback.Resolve.Rounds.{Setting}
use mycore.Rollback.Resolve.Complete.{Explains, resolve-Ends}
use mycore.Rollback.Timeline.{
  Timeline, AuthorityTickRule, strictly_newer, same_or_newer, Refresh, Replay, from_resolution,
}
use mycore.Rollback.Timeline.Accepted.{Accepted, validate_authority-Accepted}
use mycore.Rollback.Timeline.Rules.{
  Ensures, map-Ensures, Reads, reads, bind-Ensures, read-Ensures, failure-Reads, reject-Reads,
  reject_if-Reads, from_model-Reads, from_index-Reads, finish-Ensures,
}
use mycore.Rollback.Timeline.Operations.{
  reconcile_with_scope, count_replay, same_tick_rule, reconcile_with_stimulus_refresh,
  refresh_authority_with_stimulus_refresh, rebase_scope_with_stimulus_refresh,
}
use mycore.Rollback.Timeline.Operations.Held.{require_state-Reads, require_initialized-Reads}
use mycore.Rollback.Timeline.Operations.Frames.{Looped, replay_frames-Reads}

module _ (m : RollbackModel) where
  open m use {State, Scope, Event, restore, digest}

  pub resolution-Reads :
      (t : Timeline m) (olds news : List Event) (authority : List (AuthorityEvent m))
      (old_events new_events : EventIndex m)
      → Setting m olds news authority old_events new_events
      → Reads m t
          (Explains m olds news authority)
          (from_resolution m (resolve_event_changes m old_events new_events authority) t)
  resolution-Reads t olds news authority old_events new_events setting =
      elim (resolve-Ends m olds news authority old_events new_events setting) [
        | inl (r, e, p) ↦ rw e (reads p)
        | inr (c, e) ↦ rw e (failure-Reads m t conflicting_authority_event none)
      ]

  abbrev start : AuthorityFrame m → State → Replay m
  start authority scratch = record {
    scratch = scratch;
    tick = authority.tick;
    events = empty_index m;
    history = [];
  }

  abbrev pub reconciled : Timeline m → AuthorityFrame m → Scope → CommitKind → Replay m → Timeline m
  reconciled t authority scope kind replayed = record t {
    state = some replayed.scratch;
    base_checkpoint = some authority.checkpoint;
    scope = some scope;
    history = replayed.history;
    authoritative_tick = authority.tick;
    predicted_tick = replayed.tick;
    scope_epoch = authority.scope_epoch;
    acknowledged_through = authority.acknowledged_through;
    statistics = count_replay kind (length replayed.history) t.statistics;
  }

  -- How `t` commits a reconciliation with the authority frame under the scope.
  pub record Reconciles (authority : AuthorityFrame m) (scope : Scope) (kind : CommitKind)
      (tick_rule : AuthorityTickRule) (refresh : Refresh m) (t : Timeline m) (t' : Timeline m)
      (c : Commit m) : Type 0 where
    pub state : State
    pub held : t.state ≡ some state
    pub accepted : Accepted m t authority tick_rule (same_tick_rule kind) false
    pub scratch : State
    pub restores : restore authority.checkpoint scope ≡ value scratch
    pub replayed : Replay m
    pub loop : Looped m t refresh scope authority t.history (start authority scratch) replayed
    pub after : t' ≡ reconciled t authority scope kind replayed
    pub resolution : EventResolution m
    pub explains :
        Explains m (journal m t.history) (journal m loop.frames) authority.events resolution
    pub changes : c.event_changes ≡ resolution.changes
    pub retired : c.retired_event_keys ≡ resolution.retired_keys
    pub kind_of : c.kind ≡ kind
    pub count : c.replayed_frame_count ≡ length replayed.history

  pub reconcile_with_scope-Ensures :
      (authority : AuthorityFrame m) (scope : Scope) (kind : CommitKind)
      (tick_rule : AuthorityTickRule) (refresh : Refresh m) (t : Timeline m)
      → Ensures m t
          (Reconciles authority scope kind tick_rule refresh t)
          (reconcile_with_scope m authority scope kind tick_rule refresh t)
  unfolding reconcile_with_scope
  reconcile_with_scope-Ensures authority scope kind tick_rule refresh t =
      bind-Ensures m _ _ (require_state-Reads m t) λ state held. read-Ensures m _ (
        bind-Ensures m _ _ (reject-Reads m t _) λ _ valid.
          bind-Ensures m _ _ (from_model-Reads m t _ _) λ scratch restores.
            bind-Ensures m _ _ (from_index-Reads m t _) λ old_events indexed.
              bind-Ensures m _ _
                (replay_frames-Reads m t refresh scope authority t.history
                  (start authority scratch))
                λ replayed loop.
                  let accepted =
                    validate_authority-Accepted m t authority tick_rule (same_tick_rule kind) false
                      valid in
                  let setting : Setting m (journal m t.history) (journal m loop.frames)
                      authority.events old_events replayed.events =
                    record {
                      old_index = build_event_map-value m t.history old_events indexed;
                      new_index = loop.indexes [] (empty-Indexes m);
                      shapes = λ a. validate-shape m authority.events a accepted.events;
                    } in
                  bind-Ensures m _ _ (resolution-Reads t _ _ _ _ _ setting) λ resolution explains.
                    finish-Ensures m t _ _ (record {
                      state = state;
                      held = held;
                      accepted = accepted;
                      scratch = scratch;
                      restores = restores;
                      replayed = replayed;
                      loop = loop;
                      after = refl;
                      resolution = resolution;
                      explains = explains;
                      changes = refl;
                      retired = refl;
                      kind_of = refl;
                      count = refl;
                    }))

  -- The timeline's own scope and epoch are kept.
  pub record KeepsScope (authority : AuthorityFrame m) (kind : CommitKind)
      (tick_rule : AuthorityTickRule) (refresh : Refresh m) (t : Timeline m) (t' : Timeline m)
      (c : Commit m) : Type 0 where
    pub scope : Scope
    pub scope_of : t.scope ≡ some scope
    pub epoch : (authority.scope_epoch == t.scope_epoch) ≡ true
    pub reconciles : Reconciles authority scope kind tick_rule refresh t t' c

  pub reconcile-Ensures :
      (authority : AuthorityFrame m) (refresh : Refresh m) (t : Timeline m)
      → Ensures m t
          (KeepsScope authority CommitKind.reconcile strictly_newer refresh t)
          (reconcile_with_stimulus_refresh m authority refresh t)
  unfolding reconcile_with_stimulus_refresh
  reconcile-Ensures authority refresh t =
      bind-Ensures m _ _ (require_initialized-Reads m t) λ (state, base, scope) holds.
        read-Ensures m _ (
          bind-Ensures m _ _ (reject_if-Reads m t _ _) λ _ same.
            map-Ensures m
              (λ t' c r. record {
                scope = scope;
                scope_of = holds.scope;
                epoch = ground arith;
                reconciles = r;
              })
              (reconcile_with_scope-Ensures authority scope _ _ refresh t))

  pub refresh_authority-Ensures :
      (authority : AuthorityFrame m) (refresh : Refresh m) (t : Timeline m)
      → Ensures m t
          (λ t' c.
            KeepsScope authority CommitKind.authority_refresh same_or_newer refresh t t' c
            × (authority.tick ≡ t.authoritative_tick))
          (refresh_authority_with_stimulus_refresh m authority refresh t)
  unfolding refresh_authority_with_stimulus_refresh
  refresh_authority-Ensures authority refresh t =
      bind-Ensures m _ _ (require_initialized-Reads m t) λ (state, base, scope) holds.
        read-Ensures m _ (
          bind-Ensures m _ _ (reject_if-Reads m t _ _) λ _ same.
            bind-Ensures m _ _ (reject_if-Reads m t _ _) λ _ tick.
              map-Ensures m
                (λ t' c r. (
                  record {
                    scope = scope;
                    scope_of = holds.scope;
                    epoch = ground arith;
                    reconciles = r;
                  },
                  ground arith,
                ))
                (reconcile_with_scope-Ensures authority scope _ _ refresh t))

  pub rebase_scope-Ensures :
      (authority : AuthorityFrame m) (scope : Scope) (refresh : Refresh m) (t : Timeline m)
      → Ensures m t
          (λ t' c.
            Reconciles authority scope CommitKind.scope_rebase same_or_newer refresh t t' c
            × (t.scope_epoch < authority.scope_epoch))
          (rebase_scope_with_stimulus_refresh m authority scope refresh t)
  unfolding rebase_scope_with_stimulus_refresh
  rebase_scope-Ensures authority scope refresh t =
      bind-Ensures m _ _ (require_initialized-Reads m t) λ (state, base, old_scope) holds.
        read-Ensures m _ (
          bind-Ensures m _ _ (reject_if-Reads m t _ _) λ _ newer.
            map-Ensures m (λ t' c r. (r, ground arith))
              (reconcile_with_scope-Ensures authority scope _ _ refresh t))
