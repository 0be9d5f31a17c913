-- ===== src/Rollback/Calls/Replays.antt =====
-- What a reconciliation makes of the predicted frames, and the resolution that a commit hands out.
use mathlib.Core.Path.{subst}
use mycore.Base.{◌≡◌, sym, ap, some, List}
use mycore.Rollback.Types.{RollbackModel, AuthorityFrame, Commit, CommitKind, value}
use mycore.Rollback.Resolve.{EventResolution}
use mycore.Rollback.Resolve.Complete.{Explains}
use mycore.Rollback.Timeline.{Timeline, AuthorityTickRule, Refresh, committed}
use mycore.Rollback.Timeline.Operations.{reconcile_with_scope}
use mycore.Rollback.Timeline.Operations.Frames.{unacknowledged, Replayed}
use mycore.Rollback.Timeline.Operations.Reconcile.{Reconciles, reconcile_with_scope-Ensures}
use mycore.Rollback.Calls.{committed-Ensures}

module _ (m : RollbackModel) where
  open m use {State, Scope, Event, restore}

  -- The commit's event changes and retired keys.
  abbrev pub resolution_of : Commit m → EventResolution m
  resolution_of c = record { changes = c.event_changes; retired_keys = c.retired_event_keys }

  pub resolved-Explains :
      (olds news : List Event) (authority : AuthorityFrame m) (c : Commit m) (r : EventResolution m)
      → c.event_changes ≡ r.changes
      → c.retired_event_keys ≡ r.retired_keys
      → Explains m olds news authority.events r
      → Explains m olds news authority.events (resolution_of c)
  resolved-Explains olds news authority c r changes retired h =
      let same : resolution_of c ≡ r = cc (changes, retired) in
      subst (Explains m olds news authority.events) (sym same) h

  module _ (authority : AuthorityFrame m) (scope : Scope) (kind : CommitKind)
      (rule : AuthorityTickRule) (refresh : Refresh m) (t t' : Timeline m) (c : Commit m)
      (commits : reconcile_with_scope m authority scope kind rule refresh t
        ≡ (t', committed c)) where
    reconciled-Reconciles : Reconciles m authority scope kind rule refresh t t' c
    reconciled-Reconciles =
        committed-Ensures m t' c _
          (reconcile_with_scope-Ensures m authority scope kind rule refresh t) commits

    -- A reconciliation that commits has replayed exactly the frames whose commands the authority
    -- has not acknowledged: from the restored authority, in their order, with the same command
    -- sequences, each stimulus refreshed at the state that it meets and each step the model's; the
    -- new state, history and predicted tick are what the replay ends in.
    pub reconcile-Replayed :
        (start state : State) × (restore authority.checkpoint scope ≡ value start)
        × (t'.state ≡ some state)
        × Replayed m refresh scope authority.scope_epoch start authority.tick
            (unacknowledged m authority.acknowledged_through t.history)
            t'.history
            state
            t'.predicted_tick
    reconcile-Replayed =
        let h = reconciled-Reconciles in
        (
          h.scratch,
          h.replayed.scratch,
          h.restores,
          ap (λ z. z.state) h.after,
          rw (h.after, h.loop.history) h.loop.replayed,
        )
