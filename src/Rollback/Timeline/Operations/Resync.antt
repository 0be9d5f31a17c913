-- ===== src/Rollback/Timeline/Operations/Resync.antt =====
-- `Timeline::initialize` and `Timeline::hard_resync`, which start the prediction at an authority
-- frame.
use mathlib.Core.Logic.{ite}
use mycore.Base.{◌≤◌, ◌≡◌, refl, some, [], true, false, ◌&&◌, ◌==◌, arith}
use mycore.Base.Word.{add_u64}
use mycore.Rollback.Types.{RollbackModel, AuthorityFrame, Commit, CommitKind, value, is_valid}
use mycore.Rollback.Journal.Order.{journal, empty-Indexes, build_event_map-value}
use mycore.Rollback.Journal.Shape.{validate-shape}
use mycore.Rollback.Resolve.{EventResolution}
use mycore.Rollback.Resolve.Complete.{Explains}
use mycore.Rollback.Timeline.{
  Timeline, same_or_newer, may_replace, initialized, valid_optional_sequence,
}
use mycore.Rollback.Timeline.Accepted.{Accepted, validate_authority-Accepted}
use mycore.Rollback.Timeline.Rules.{
  Ensures, bind-Ensures, read-Ensures, reject-Reads, reject_if-Reads, from_model-Reads,
  from_index-Reads, finish-Ensures,
}
use mycore.Rollback.Timeline.Operations.{initialize, hard_resync, resubmitted}
use mycore.Rollback.Timeline.Operations.Held.{require_initialized-Reads}
use mycore.Rollback.Timeline.Operations.Reconcile.{resolution-Reads}

module _ (m : RollbackModel) where
  open m use {State, Scope, restore}

  abbrev pub initialized_at : Timeline m → AuthorityFrame m → Scope → State → Timeline m
  initialized_at t authority scope scratch = record t {
    state = some scratch;
    base_checkpoint = some authority.checkpoint;
    scope = some scope;
    history = [];
    authoritative_tick = authority.tick;
    predicted_tick = authority.tick;
    scope_epoch = authority.scope_epoch;
    acknowledged_through = authority.acknowledged_through;
    last_submitted_sequence = authority.acknowledged_through;
    statistics = record t.statistics {
      initialization_count = add_u64 t.statistics.initialization_count 1;
    };
  }

  abbrev pub resynced_at : Timeline m → AuthorityFrame m → Scope → State → Timeline m
  resynced_at t authority scope scratch = record t {
    state = some scratch;
    base_checkpoint = some authority.checkpoint;
    scope = some scope;
    history = [];
    authoritative_tick = authority.tick;
    predicted_tick = authority.tick;
    scope_epoch = authority.scope_epoch;
    acknowledged_through = authority.acknowledged_through;
    last_submitted_sequence = resubmitted t.last_submitted_sequence authority.acknowledged_through;
    statistics = record t.statistics {
      hard_resync_count = add_u64 t.statistics.hard_resync_count 1;
    };
  }

  -- How `t` commits its initialization.
  pub record Initializes (authority : AuthorityFrame m) (scope : Scope) (t : Timeline m)
      (t' : Timeline m) (c : Commit m) : Type 0 where
    pub first : initialized m t ≡ false
    pub epoch : is_valid authority.scope_epoch ≡ true
    pub sequence : valid_optional_sequence authority.acknowledged_through ≡ true
    pub scratch : State
    pub restores : restore authority.checkpoint scope ≡ value scratch
    pub after : t' ≡ initialized_at t authority scope scratch
    pub resolution : EventResolution m
    pub explains : Explains m [] [] authority.events resolution
    pub changes : c.event_changes ≡ resolution.changes
    pub retired : c.retired_event_keys ≡ resolution.retired_keys
    pub kind_of : c.kind ≡ CommitKind.initialize

  pub initialize-Ensures :
      (authority : AuthorityFrame m) (scope : Scope) (t : Timeline m)
      → Ensures m t (Initializes authority scope t) (initialize m authority scope t)
  unfolding initialize
  initialize-Ensures authority scope t = read-Ensures m _ (
      bind-Ensures m _ _ (reject_if-Reads m t _ _) λ _ first.
        bind-Ensures m _ _ (reject_if-Reads m t _ _) λ _ valid.
          bind-Ensures m _ _ (reject-Reads m t _) λ _ events.
            bind-Ensures m _ _ (from_model-Reads m t _ _) λ scratch restores.
              bind-Ensures m _ _
                (resolution-Reads m t [] [] authority.events _ _ (record {
                  old_index = empty-Indexes m;
                  new_index = empty-Indexes m;
                  shapes = λ a. validate-shape m authority.events a events;
                }))
                λ resolution explains. finish-Ensures m t _ _ (record {
                  first = first;
                  epoch = ground arith;
                  sequence = ground arith;
                  scratch = scratch;
                  restores = restores;
                  after = refl;
                  resolution = resolution;
                  explains = explains;
                  changes = refl;
                  retired = refl;
                  kind_of = refl;
                }))

  -- How `t` commits a hard resync.
  pub record Resyncs (authority : AuthorityFrame m) (scope : Scope) (t : Timeline m)
      (t' : Timeline m) (c : Commit m) : Type 0 where
    pub old_scope : Scope
    pub scope_of : t.scope ≡ some old_scope
    pub epoch : t.scope_epoch ≤ authority.scope_epoch
    pub same_epoch :
        (authority.scope_epoch == t.scope_epoch
          && ite (m.scope_discrete scope old_scope) false true)
        ≡ false
    pub accepted : Accepted m t authority same_or_newer may_replace true
    pub scratch : State
    pub restores : restore authority.checkpoint scope ≡ value scratch
    pub after : t' ≡ resynced_at t authority scope scratch
    pub resolution : EventResolution m
    pub explains : Explains m (journal m t.history) [] authority.events resolution
    pub changes : c.event_changes ≡ resolution.changes
    pub retired : c.retired_event_keys ≡ resolution.retired_keys
    pub kind_of : c.kind ≡ CommitKind.hard_resync

  pub hard_resync-Ensures :
      (authority : AuthorityFrame m) (scope : Scope) (t : Timeline m)
      → Ensures m t (Resyncs authority scope t) (hard_resync m authority scope t)
  unfolding hard_resync
  hard_resync-Ensures authority scope t =
      bind-Ensures m _ _ (require_initialized-Reads m t) λ (state, base, old_scope) holds.
        read-Ensures m _ (
          bind-Ensures m _ _ (reject_if-Reads m t _ _) λ _ epoch.
            bind-Ensures m _ _ (reject_if-Reads m t _ _) λ _ same_epoch.
              bind-Ensures m _ _ (reject-Reads m t _) λ _ valid.
                bind-Ensures m _ _ (from_model-Reads m t _ _) λ scratch restores.
                  bind-Ensures m _ _ (from_index-Reads m t _) λ old_events indexed.
                    let accepted =
                      validate_authority-Accepted m t authority same_or_newer may_replace true
                        valid in
                    bind-Ensures m _ _
                      (resolution-Reads m t (journal m t.history) [] authority.events _ _ (record {
                        old_index = build_event_map-value m t.history old_events indexed;
                        new_index = empty-Indexes m;
                        shapes = λ a. validate-shape m authority.events a accepted.events;
                      }))
                      λ resolution explains. finish-Ensures m t _ _ (record {
                        old_scope = old_scope;
                        scope_of = holds.scope;
                        epoch = ground arith;
                        same_epoch = same_epoch;
                        accepted = accepted;
                        scratch = scratch;
                        restores = restores;
                        after = refl;
                        resolution = resolution;
                        explains = explains;
                        changes = refl;
                        retired = refl;
                        kind_of = refl;
                      }))
