-- ===== src/Rollback/Invariant/Replaying.antt =====
-- The replay loop returns, where the frames can be stepped again.
use mathlib.Core.List.{append-nil, append_assoc}
use mathlib.Core.Path.{subst}
use mycore.Base.{ℕ, ◌≡◌, refl, sym, ap, ◌∙◌, inl, inr, List, [], ◌∷◌, ◌++◌, true, false, Bool-cases}
use mycore.Time.{tick_plus}
use mycore.Rollback.Types.{RollbackModel, AuthorityFrame, FrameRecord, value}
use mycore.Rollback.Keyed.{Distinct, Distinct-append_left}
use mycore.Rollback.Journal.{EventIndex, append_events}
use mycore.Rollback.Journal.Order.{
  Indexes, keys, keys-append, journal, append_events-Indexes, append_events-total,
}
use mycore.Rollback.Timeline.{
  Timeline, committed, Refresh, Replay, at_most, replay_frame, replay_frames,
}
use mycore.Rollback.Timeline.Commits.{bind-committed, gives, indexes}
use mycore.Rollback.Timeline.Operations.Frames.{IsStep, Replayed, unacknowledged}

module _ (m : RollbackModel) where
  open m use {State, Scope, Event, restore, step, capture, digest}

  module _ (t : Timeline m) (refresh : Refresh m) (scope : Scope)
      (authority : AuthorityFrame m) where
    -- The locals after a frame has been stepped again.
    abbrev next : Replay m → FrameRecord m → State → EventIndex m → Replay m
    next r n s ix = record {
      scratch = s;
      tick = n.tick;
      events = ix;
      history = r.history ++ n ∷ [];
    }

    replay_frame-skips :
        (o : FrameRecord m) (r : Replay m)
        → at_most o.command_sequence authority.acknowledged_through ≡ true
        → replay_frame m refresh scope authority o r t ≡ (t, committed r)
    unfolding replay_frame
    replay_frame-skips o r acknowledged = rw (acknowledged, replay_frame) refl

    replay_frame-steps :
        (o n : FrameRecord m) (r : Replay m) (s : State) (ix : EventIndex m)
        → at_most o.command_sequence authority.acknowledged_through ≡ false
        → n.command_sequence ≡ o.command_sequence
        → refresh o.command_sequence o.stimulus r.scratch scope ≡ value n.stimulus
        → IsStep m scope authority.scope_epoch r.scratch r.tick n s
        → append_events m r.events n.events ≡ value ix
        → replay_frame m refresh scope authority o r t ≡ (t, committed (next r n s ix))
    unfolding replay_frame
    replay_frame-steps o n r s ix open_frame same refreshed is_step appended =
        let tick = is_step.tick in
        let checkpoint = is_step.checkpoint in
        let digests = is_step.digests in
        let epoch = is_step.epoch_of in
        let made : record {
          tick = tick_plus r.tick 1;
          command_sequence = o.command_sequence;
          stimulus = n.stimulus;
          checkpoint = capture s scope;
          digest = digest (capture s scope) scope;
          events = n.events;
          scope_epoch = authority.scope_epoch;
        }
            ≡ n =
          cc (tick, checkpoint, digests, epoch, same) in
        rw (open_frame, replay_frame)
          (bind-committed m t n.stimulus _ _ (gives m t _ _ n.stimulus refreshed)
            ∙ bind-committed m t (s, n.events) _ _ (gives m t _ _ (s, n.events) is_step.steps)
            ∙ bind-committed m t ix _ _ (indexes m t _ ix appended)
            ∙ ap (λ f. (t, committed (next r f s ix))) made)

    -- What the loop over the frames returns.
    abbrev Loops :
        List (FrameRecord m) → Replay m → List (FrameRecord m) → State → ℕ → List Event → Type 0
    Loops os r ns s k es =
        (ix : EventIndex m) × (replay_frames m refresh scope authority os r t ≡ (
          t,
          committed (record { scratch = s; tick = k; events = ix; history = r.history ++ ns }),
        ))
        × Indexes m (es ++ journal m ns) ix

    loop-cons :
        (o : FrameRecord m) (os : List (FrameRecord m)) (r r' : Replay m)
        → replay_frame m refresh scope authority o r t ≡ (t, committed r')
        → replay_frames m refresh scope authority (o ∷ os) r t
          ≡ replay_frames m refresh scope authority os r' t
    unfolding replay_frames
    loop-cons o os r r' h = bind-committed m t r' _ _ h

    loop-nil : (r : Replay m) → replay_frames m refresh scope authority [] r t ≡ (t, committed r)
    unfolding replay_frames
    loop-nil r = refl

    loop-step :
        (o : FrameRecord m) (os : List (FrameRecord m)) (r : Replay m) (ns : List (FrameRecord m))
        (s : State) (k : ℕ) (es : List Event)
        → ((r₁ : Replay m) (ns' : List (FrameRecord m)) (es' : List Event)
            → Replayed m refresh scope authority.scope_epoch r₁.scratch r₁.tick
                (unacknowledged m authority.acknowledged_through os)
                ns'
                s
                k
            → Indexes m es' r₁.events
            → Distinct (keys m (es' ++ journal m ns'))
            → Loops os r₁ ns' s k es')
        → at_most o.command_sequence authority.acknowledged_through ≡ false
        → Replayed m refresh scope authority.scope_epoch r.scratch r.tick
            (o ∷ unacknowledged m authority.acknowledged_through os)
            ns
            s
            k
        → Indexes m es r.events
        → Distinct (keys m (es ++ journal m ns))
        → Loops (o ∷ os) r ns s k es
    loop-step o os r [] s k es loop open_frame h i d = absurd h
    loop-step o os r (n ∷ ns) s k es loop open_frame (s₁, same, refreshed, is_step, rest) i d =
        let all : Distinct (keys m ((es ++ n.events) ++ journal m ns)) =
          subst (λ l. Distinct (keys m l)) (sym (append_assoc es n.events (journal m ns))) d in
        let front =
          Distinct-append_left (keys m (es ++ n.events)) (keys m (journal m ns))
            (subst Distinct (keys-append m (es ++ n.events) (journal m ns)) all) in
        let (ix₁, appended) = append_events-total m es n.events r.events i front in
        let (ix, run, indexed) =
          loop (next r n s₁ ix₁) ns (es ++ n.events) rest
            (append_events-Indexes m es n.events r.events ix₁ i appended) all in
        (
          ix,
          loop-cons o os r (next r n s₁ ix₁)
                (replay_frame-steps o n r s₁ ix₁ open_frame same refreshed is_step appended)
              ∙ run
              ∙ ap
                  (λ l. (t, committed (record { scratch = s; tick = k; events = ix; history = l })))
                  (append_assoc r.history (n ∷ []) ns),
          subst (λ l. Indexes m l ix) (append_assoc es n.events (journal m ns)) indexed,
        )

    pub replay_frames-returns :
        (os : List (FrameRecord m)) (r : Replay m) (ns : List (FrameRecord m)) (s : State) (k : ℕ)
        (es : List Event)
        → Replayed m refresh scope authority.scope_epoch r.scratch r.tick
            (unacknowledged m authority.acknowledged_through os)
            ns
            s
            k
        → Indexes m es r.events
        → Distinct (keys m (es ++ journal m ns))
        → Loops os r ns s k es
    replay_frames-returns [] r [] s k es (same, tick) i d = (
      r.events,
      loop-nil r ∙ ap (λ z. (t, committed z)) (let h = append-nil r.history in cc (same, tick, h)),
      rw (append-nil es) i,
    )
    replay_frames-returns [] r (n ∷ ns) s k es h i d = absurd h
    replay_frames-returns (o ∷ os) r ns s k es h i d =
        elim (Bool-cases (at_most o.command_sequence authority.acknowledged_through)) [
          | inl acknowledged ↦
              let (ix, run, indexed) =
                replay_frames-returns os r ns s k es (rw (acknowledged, unacknowledged) at h) i d in
              (ix, loop-cons o os r r (replay_frame-skips o r acknowledged) ∙ run, indexed)
          | inr open_frame ↦
              loop-step o os r ns s k es
                (λ r₁ ns' es' h' i' d'. replay_frames-returns os r₁ ns' s k es' h' i' d') open_frame
                (rw (open_frame, unacknowledged) at h) i d
        ]
