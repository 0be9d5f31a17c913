-- ===== src/Rollback/Invariant/Explained.antt =====
-- The event changes of every call.
use mycore.Base.{◌≡◌, refl, inl, inr, List, [], true, false}
use mycore.Rollback.Types.{RollbackModel, AuthorityEvent, AuthorityFrame, Commit, CommitKind}
use mycore.Rollback.Journal.Order.{journal}
use mycore.Rollback.Resolve.Complete.{Explains}
use mycore.Rollback.Timeline.{Timeline, AuthorityTickRule, Refresh, committed, initialized}
use mycore.Rollback.Timeline.Operations.Reconcile.{Reconciles}
use mycore.Rollback.Calls.{
  Call, initializing, advancing, reconciling, refreshing, rebasing, resyncing, Done, perform,
  perform-Ensures, committed-Ensures,
}
use mycore.Rollback.Calls.Replays.{resolution_of, resolved-Explains}
use mycore.Rollback.Calls.Predictions.{Advances-Explains}
use mycore.Rollback.Invariant.{IsValid}

module _ (m : RollbackModel) where
  open m use {Scope}

  -- The authority's answers that a call brings.
  abbrev pub answers : Call m → List (AuthorityEvent m)
  answers (initializing authority scope) = authority.events
  answers (advancing sequence stimulus) = []
  answers (reconciling authority refresh) = authority.events
  answers (refreshing authority refresh) = authority.events
  answers (rebasing authority scope refresh) = authority.events
  answers (resyncing authority scope) = authority.events

  unbegun-history : (t : Timeline m) → IsValid m t → initialized m t ≡ false → t.history ≡ []
  unfolding initialized
  unbegun-history t (inl i) h = i.history
  unbegun-history t (inr r) h =
      let begun : initialized m t ≡ true = rw (r.holds.state, r.holds.base, r.holds.scope) refl in
      absurd (cc (begun, h))

  Reconciles-Explains :
      (authority : AuthorityFrame m) (scope : Scope) (kind : CommitKind) (rule : AuthorityTickRule)
      (refresh : Refresh m) (t t' : Timeline m) (c : Commit m)
      → Reconciles m authority scope kind rule refresh t t' c
      → Explains m (journal m t.history) (journal m t'.history) authority.events (resolution_of m c)
  Reconciles-Explains authority scope kind rule refresh t t' c h =
      rw (h.after, h.loop.history)
        (resolved-Explains m _ _ authority c h.resolution h.changes h.retired h.explains)

  Done-Explains :
      (call : Call m) (t t' : Timeline m) (c : Commit m)
      → IsValid m t
      → Done m call t t' c
      → Explains m (journal m t.history) (journal m t'.history) (answers call) (resolution_of m c)
  Done-Explains (initializing authority scope) t t' c v h =
      rw (h.after, unbegun-history t v h.first)
        (resolved-Explains m _ _ authority c h.resolution h.changes h.retired h.explains)
  Done-Explains (advancing sequence stimulus) t t' c v h =
      Advances-Explains m t sequence stimulus t' c h
  Done-Explains (reconciling authority refresh) t t' c v h =
      Reconciles-Explains authority h.scope _ _ refresh t t' c h.reconciles
  Done-Explains (refreshing authority refresh) t t' c v (h, _) =
      Reconciles-Explains authority h.scope _ _ refresh t t' c h.reconciles
  Done-Explains (rebasing authority scope refresh) t t' c v (h, _) =
      Reconciles-Explains authority scope _ _ refresh t t' c h
  Done-Explains (resyncing authority scope) t t' c v h =
      rw h.after (resolved-Explains m _ _ authority c h.resolution h.changes h.retired h.explains)

  -- The changes of every call that commits on a timeline that is idle or in order explain how the
  -- old predicted events became the new ones. Each key has the one change that it is due, with its
  -- transition and events, and none if none is due: an old prediction that the authority's first
  -- answer under the key confirms is confirmed with the answer's event, and one that it rejects is
  -- retracted; an old prediction without an answer is retracted if it is not predicted anew, and
  -- revised if another event is; a confirmed event that was not predicted is announced as the
  -- authority's only; and what is predicted anew for the first time is announced as first predicted.
  -- Applied in order the changes turn the old prediction under each key into the new one, and each
  -- has a previous and a current event just where its transition asks for one; the retired keys are
  -- those that were predicted or are confirmed, and are no longer predicted; and no key that the
  -- authority has answered is predicted.
  pub perform-Explains :
      (call : Call m) (t t' : Timeline m) (c : Commit m)
      → IsValid m t
      → perform m call t ≡ (t', committed c)
      → Explains m (journal m t.history) (journal m t'.history) (answers call) (resolution_of m c)
  perform-Explains call t t' c v run =
      Done-Explains call t t' c v
        (committed-Ensures m t' c (perform m call t) (perform-Ensures m call t) run)
