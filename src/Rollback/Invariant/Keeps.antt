-- ===== src/Rollback/Invariant/Keeps.antt =====
-- Every operation of `Timeline` keeps the invariant.
use mathlib.Core.List.{append-nil}
use mathlib.Core.Path.{subst}
use mycore.Base.{
  ℕ, ◌≤◌, ◌≡◌, refl, sym, ap, ◌∙◌, inl, inr, Option, none, some, [], ◌∷◌, ◌++◌, false, length,
  length-append, arith,
}
use mycore.Rollback.Types.{RollbackModel, AuthorityFrame, Commit, CommitKind, value}
use mycore.Rollback.Keyed.{Distinct}
use mycore.Rollback.Journal.Order.{keys, journal, journal-append, empty-Indexes}
use mycore.Rollback.Timeline.{Timeline, AuthorityTickRule, Refresh, acknowledges_unsent}
use mycore.Rollback.Timeline.Rules.{after_failure}
use mycore.Rollback.Timeline.Operations.{resubmitted}
use mycore.Rollback.Timeline.Operations.Frames.{IsStep, unacknowledged}
use mycore.Rollback.Timeline.Operations.Advance.{Advances, next_frame}
use mycore.Rollback.Timeline.Operations.Reconcile.{Reconciles}
use mycore.Rollback.Timeline.Operations.Resync.{Initializes, Resyncs}
use mycore.Rollback.Calls.Predictions.{advanced-Distinct}
use mycore.Rollback.Invariant.{Running, IsValid, Resumes}
use mycore.Rollback.Invariant.Sequences.{
  Ascends-snoc, Ascends-unacknowledged, length-unacknowledged,
}
use mycore.Rollback.Invariant.Traces.{
  Traced-snoc, Traced-last, Traced-empty, Traced-Replayed, length-Replayed, Ascends-Replayed,
}

none_sent : (sequence : Option ℕ) → acknowledges_unsent sequence sequence ≡ false
unfolding acknowledges_unsent
none_sent none = refl
none_sent (some n) = ground arith

resubmitted-sent :
    (submitted acknowledged : Option ℕ)
    → acknowledges_unsent acknowledged (resubmitted submitted acknowledged) ≡ false
unfolding acknowledges_unsent
resubmitted-sent submitted none = refl
resubmitted-sent none (some n) = ground arith
resubmitted-sent (some s) (some n) = ground arith

module _ (m : RollbackModel) where
  open m use {State, Checkpoint, Stimulus, Scope, Event, restore, capture, step}

  pub after_failure-IsValid : (t : Timeline m) → IsValid m t → IsValid m (after_failure m t)
  after_failure-IsValid t (inl i) =
      inl (record { state = i.state; base = i.base; scope = i.scope; history = i.history })
  after_failure-IsValid t (inr r) = inr (record {
    state = r.state;
    base = r.base;
    scope = r.scope;
    holds = record { state = r.holds.state; base = r.holds.base; scope = r.holds.scope };
    bounded = r.bounded;
    commands = r.commands;
    start = r.start;
    restores = r.restores;
    traced = r.traced;
    unique = r.unique;
  })

  pub Initializes-Running :
      (authority : AuthorityFrame m) (scope : Scope) (t t' : Timeline m) (c : Commit m)
      → Initializes m authority scope t t' c
      → Running m t'
  Initializes-Running authority scope t t' c i = subst (Running m) (sym i.after) (record {
    state = i.scratch;
    base = authority.checkpoint;
    scope = scope;
    holds = record { state = refl; base = refl; scope = refl };
    bounded = omega arith;
    commands = none_sent authority.acknowledged_through;
    start = i.scratch;
    restores = i.restores;
    traced = (refl, refl);
    unique = tt;
  })

  pub Resyncs-Running :
      (authority : AuthorityFrame m) (scope : Scope) (t t' : Timeline m) (c : Commit m)
      → Resyncs m authority scope t t' c
      → Running m t'
  Resyncs-Running authority scope t t' c r = subst (Running m) (sym r.after) (record {
    state = r.scratch;
    base = authority.checkpoint;
    scope = scope;
    holds = record { state = refl; base = refl; scope = refl };
    bounded = omega arith;
    commands = resubmitted-sent t.last_submitted_sequence authority.acknowledged_through;
    start = r.scratch;
    restores = r.restores;
    traced = (refl, refl);
    unique = tt;
  })

  pub Reconciles-Running :
      (authority : AuthorityFrame m) (scope : Scope) (kind : CommitKind) (rule : AuthorityTickRule)
      (refresh : Refresh m) (t t' : Timeline m) (c : Commit m)
      → Reconciles m authority scope kind rule refresh t t' c
      → Running m t
      → Running m t'
  Reconciles-Running authority scope kind rule refresh t t' c h r =
      let pending = unacknowledged m authority.acknowledged_through t.history in
      let frames = h.loop.frames in
      let sent : acknowledges_unsent authority.acknowledged_through t.last_submitted_sequence
          ≡ false =
        elim h.accepted.sent [ inl e ↦ absurd (cc e) | inr e ↦ e ] in
      let kept : length pending ≤ length t.history =
        length-unacknowledged m authority.acknowledged_through t.history in
      let count : length frames ≡ length pending =
        length-Replayed m scope authority.scope_epoch refresh _ _ _ _ _ _ h.loop.replayed in
      subst (Running m) (sym h.after) (record {
        state = h.replayed.scratch;
        base = authority.checkpoint;
        scope = scope;
        holds = record { state = refl; base = refl; scope = refl };
        bounded = rw (h.loop.history) (let old = r.bounded in omega arith);
        commands = rw (h.loop.history) (
            Ascends-Replayed m scope authority.scope_epoch refresh _ _ _ _ _ _ _ _ h.loop.replayed
              (Ascends-unacknowledged m _ _ _ t.history h.accepted.progress sent r.commands));
        start = h.scratch;
        restores = h.restores;
        traced =
            rw (h.loop.history)
              (Traced-Replayed m scope authority.scope_epoch refresh _ _ _ _ _ _ h.loop.replayed);
        unique = rw (h.loop.history) (let ix = h.loop.indexes [] (empty-Indexes m) in ix.distinct);
      })

  pub Reconciles-IsValid :
      (authority : AuthorityFrame m) (scope : Scope) (kind : CommitKind) (rule : AuthorityTickRule)
      (refresh : Refresh m) (t t' : Timeline m) (c : Commit m)
      → Reconciles m authority scope kind rule refresh t t' c
      → IsValid m t
      → IsValid m t'
  Reconciles-IsValid authority scope kind rule refresh t t' c h (inl i) =
      let held = h.held in let idle = i.state in absurd (cc (held, idle))
  Reconciles-IsValid authority scope kind rule refresh t t' c h (inr r) =
      inr (Reconciles-Running authority scope kind rule refresh t t' c h r)

  module _ (t : Timeline m) (sequence : ℕ) (stimulus : Stimulus) (t' : Timeline m)
      (c : Commit m) where
    -- The state that the step starts from is the predicted one, or what its checkpoint restores to.
    restored-Resumes :
        (a : Advances m t sequence stimulus t' c) (r : Running m t)
        → (a.scope ≡ r.scope) × Resumes m r.scope r.state a.restored
    restored-Resumes a r =
        let here = a.holds.scope in
        let there = r.holds.scope in
        let same : a.scope ≡ r.scope = cc (here, there) in
        let restored : restore a.head r.scope ≡ value a.restored =
          ap (λ z. restore a.head z) (sym same) ∙ a.restores in
        (
          same,
          elim a.at_head [
            | inl (f, newest, at_f) ↦
                let captured : f.checkpoint ≡ capture r.state r.scope =
                  Traced-last m r.scope t.scope_epoch t.history f _ _ _ _ newest r.traced in
                inr (ap (λ z. restore z r.scope) (sym captured ∙ sym at_f) ∙ restored)
            | inr (none_yet, at_base) ↦
                let base = r.holds.base in
                let head_base : a.head ≡ r.base = cc (at_base, base) in
                let same_state : r.start ≡ r.state =
                  Traced-empty m r.scope t.scope_epoch t.history _ _ _ _ none_yet r.traced in
                let back : restore a.head r.scope ≡ value r.start =
                  ap (λ z. restore z r.scope) head_base ∙ r.restores in
                inl (cc (restored, back, same_state))
          ],
        )

    -- The frame of the advance is one more step of the trace.
    advance-IsStep :
        (a : Advances m t sequence stimulus t' c) (r : Running m t)
        → IsStep m r.scope t.scope_epoch a.restored t.predicted_tick
            (next_frame m t sequence stimulus a.scope a.scratch a.events)
            a.scratch
    advance-IsStep a r =
        let (same, _) = restored-Resumes a r in
        record {
          steps = ap (λ z. step a.restored stimulus z) (sym same) ∙ a.steps;
          tick = refl;
          checkpoint = ap (capture a.scratch) same;
          digests = ap (m.digest (capture a.scratch a.scope)) same;
          epoch_of = refl;
        }

    advance_unique :
        (a : Advances m t sequence stimulus t' c)
        → Distinct (
            keys m (
              journal m
                (t.history ++ next_frame m t sequence stimulus a.scope a.scratch a.events ∷ [])))
    advance_unique a =
        rw
          (
            journal-append m t.history
                (next_frame m t sequence stimulus a.scope a.scratch a.events ∷ []),
            append-nil a.events,
          )
          (advanced-Distinct m t sequence stimulus t' c a)

    pub Advances-Running : Advances m t sequence stimulus t' c → Running m t → Running m t'
    Advances-Running a r =
        let (same, from) = restored-Resumes a r in
        let frame = next_frame m t sequence stimulus a.scope a.scratch a.events in
        subst (Running m) (sym a.after) (record {
          state = a.scratch;
          base = r.base;
          scope = r.scope;
          holds = record { state = refl; base = r.holds.base; scope = r.holds.scope };
          bounded = rw (length-append t.history (frame ∷ [])) (let room = a.room in ground arith);
          commands =
              Ascends-snoc m t.acknowledged_through t.last_submitted_sequence t.history frame
                r.commands (let newer = a.newer in ground arith);
          start = r.start;
          restores = r.restores;
          traced =
              Traced-snoc m r.scope t.scope_epoch t.history frame _ _ _ _ _ _ r.traced from
                (advance-IsStep a r);
          unique = advance_unique a;
        })

    pub Advances-IsValid : Advances m t sequence stimulus t' c → IsValid m t → IsValid m t'
    Advances-IsValid a (inl i) =
        let held = a.holds.state in let idle = i.state in absurd (cc (held, idle))
    Advances-IsValid a (inr r) = inr (Advances-Running a r)
