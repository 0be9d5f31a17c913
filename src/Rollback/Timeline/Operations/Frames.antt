-- ===== src/Rollback/Timeline/Operations/Frames.antt =====
-- The replay loop: the frames that are not acknowledged are stepped again, in order, from the
-- authority's state.
use mathlib.Core.List.{append-nil, append_assoc}
use mathlib.Core.Path.{subst}
use mycore.Base.{
  ℕ, ◌≡◌, refl, sym, ap, ◌∙◌, ◌⊎◌, inl, inr, Option, List, [], ◌∷◌, ◌++◌, true, false, Bool-cases,
}
use mycore.Time.{tick_plus}
use mycore.Rollback.Types.{RollbackModel, AuthorityFrame, FrameRecord, value}
use mycore.Rollback.Journal.{append_events}
use mycore.Rollback.Journal.Order.{Indexes, journal, append_events-Indexes}
use mycore.Rollback.Timeline.{Timeline, at_most, Refresh, Replay, replay_frame, replay_frames}
use mycore.Rollback.Timeline.Rules.{Reads, reads, bind-Reads, from_model-Reads, from_index-Reads}
use mycore.Rollback.Timeline.Operations.Held.{map-Reads}

module _ (m : RollbackModel) where
  open m use {State, Stimulus, Scope, Event, step, capture, digest}

  -- The frames whose commands the authority has not acknowledged, in order.
  abbrev pub unacknowledged : Option ℕ → List (FrameRecord m) → List (FrameRecord m)
  unacknowledged acknowledged [] = []
  unacknowledged acknowledged (f ∷ fs) = elim (at_most f.command_sequence acknowledged) [
    | true ↦ unacknowledged acknowledged fs
    | false ↦ f ∷ unacknowledged acknowledged fs
  ]

  -- `n` is the step from `s` to `s'` that follows the tick `k`, recorded for the scope and epoch.
  pub record IsStep (scope : Scope) (epoch : ℕ) (s : State) (k : ℕ) (n : FrameRecord m) (s' : State)
      : Type 0 where
    pub steps : step s n.stimulus scope ≡ value (s', n.events)
    pub tick : n.tick ≡ tick_plus k 1
    pub checkpoint : n.checkpoint ≡ capture s' scope
    pub digests : n.digest ≡ digest n.checkpoint scope
    pub epoch_of : n.scope_epoch ≡ epoch

  -- The new frames step the old ones' commands again, from the state `s` at the tick `k` to the state
  -- `s'` at the tick `k'`, each stimulus refreshed from the old one at the state that it meets.
  abbrev pub Replayed :
      Refresh m
      → Scope
      → ℕ
      → State
      → ℕ
      → List (FrameRecord m)
      → List (FrameRecord m)
      → State
      → ℕ
      → Type 0
  Replayed refresh scope epoch s k [] [] s' k' = (s ≡ s') × (k ≡ k')
  Replayed refresh scope epoch s k [] (n ∷ ns) s' k' = ⊥
  Replayed refresh scope epoch s k (o ∷ os) [] s' k' = ⊥
  Replayed refresh scope epoch s k (o ∷ os) (n ∷ ns) s' k' =
      (s₁ : State) × (n.command_sequence ≡ o.command_sequence)
      × (refresh o.command_sequence o.stimulus s scope ≡ value n.stimulus)
      × IsStep scope epoch s k n s₁
      × Replayed refresh scope epoch s₁ n.tick os ns s' k'

  module _ (t : Timeline m) (refresh : Refresh m) (scope : Scope)
      (authority : AuthorityFrame m) where
    -- What a round does with a frame `o`.
    abbrev Round : FrameRecord m → Replay m → Replay m → Type 0
    Round o r r' =
        ((at_most o.command_sequence authority.acknowledged_through ≡ true) × (r' ≡ r))
        ⊎ ((n : FrameRecord m) × (at_most o.command_sequence authority.acknowledged_through ≡ false)
            × (n.command_sequence ≡ o.command_sequence)
            × (refresh o.command_sequence o.stimulus r.scratch scope ≡ value n.stimulus)
            × IsStep scope authority.scope_epoch r.scratch r.tick n r'.scratch
            × (r'.tick ≡ n.tick)
            × (r'.history ≡ r.history ++ n ∷ [])
            × (append_events m r.events n.events ≡ value r'.events))

    round :
        (o : FrameRecord m) (r : Replay m)
        → Reads m t (Round o r) (replay_frame m refresh scope authority o r t)
    unfolding replay_frame
    round o r = elim (Bool-cases (at_most o.command_sequence authority.acknowledged_through)) [
      | inl acknowledged ↦ rw (acknowledged, replay_frame) (reads (inl (acknowledged, refl)))
      | inr open_frame ↦
          rw (open_frame, replay_frame)
            (bind-Reads m _ _ (from_model-Reads m t _ _) λ stimulus refreshed.
              bind-Reads m _ _ (from_model-Reads m t _ _) λ (s, events) stepped.
                bind-Reads m _ _ (from_index-Reads m t _) λ index appended. reads (
                  inr (
                    record {
                      tick = tick_plus r.tick 1;
                      command_sequence = o.command_sequence;
                      stimulus = stimulus;
                      checkpoint = capture s scope;
                      digest = digest (capture s scope) scope;
                      events = events;
                      scope_epoch = authority.scope_epoch;
                    },
                    open_frame,
                    refl,
                    refreshed,
                    record {
                      steps = stepped;
                      tick = refl;
                      checkpoint = refl;
                      digests = refl;
                      epoch_of = refl;
                    },
                    refl,
                    refl,
                    appended,
                  )))
    ]

    -- What the loop over `os` makes of `r`.
    pub record Looped (os : List (FrameRecord m)) (r r' : Replay m) : Type 0 where
      pub frames : List (FrameRecord m)
      pub history : r'.history ≡ r.history ++ frames
      pub replayed :
          Replayed refresh scope authority.scope_epoch r.scratch r.tick
            (unacknowledged authority.acknowledged_through os)
            frames
            r'.scratch
            r'.tick
      pub indexes :
          (es : List Event) → Indexes m es r.events → Indexes m (es ++ journal m frames) r'.events

    skipped :
        (o : FrameRecord m) (os : List (FrameRecord m)) (r r' : Replay m)
        → at_most o.command_sequence authority.acknowledged_through ≡ true
        → Looped os r r'
        → Looped (o ∷ os) r r'
    skipped o os r r' acknowledged h = record {
      frames = h.frames;
      history = h.history;
      replayed = rw (acknowledged, unacknowledged) h.replayed;
      indexes = h.indexes;
    }

    stepped :
        (o : FrameRecord m) (os : List (FrameRecord m)) (r r₁ r' : Replay m) (n : FrameRecord m)
        → at_most o.command_sequence authority.acknowledged_through ≡ false
        → n.command_sequence ≡ o.command_sequence
        → refresh o.command_sequence o.stimulus r.scratch scope ≡ value n.stimulus
        → IsStep scope authority.scope_epoch r.scratch r.tick n r₁.scratch
        → r₁.tick ≡ n.tick
        → r₁.history ≡ r.history ++ n ∷ []
        → append_events m r.events n.events ≡ value r₁.events
        → Looped os r₁ r'
        → Looped (o ∷ os) r r'
    stepped o os r r₁ r' n open_frame same refreshed is_step tick history appended h = record {
      frames = n ∷ h.frames;
      history =
          h.history ∙ ap (λ l. l ++ h.frames) history ∙ append_assoc r.history (n ∷ []) h.frames;
      replayed =
          rw (open_frame, unacknowledged)
            (
              r₁.scratch,
              same,
              refreshed,
              is_step,
              subst
                  (λ k.
                    Replayed refresh scope authority.scope_epoch r₁.scratch k
                      (unacknowledged authority.acknowledged_through os) h.frames r'.scratch
                      r'.tick)
                  tick h.replayed,
            );
      indexes = λ es i. rw (← append_assoc es n.events (journal m h.frames)) (
          h.indexes (es ++ n.events)
            (append_events-Indexes m es n.events r.events r₁.events i appended));
    }

    pub replay_frames-Reads :
        (os : List (FrameRecord m)) (r : Replay m)
        → Reads m t (Looped os r) (replay_frames m refresh scope authority os r t)
    unfolding replay_frames
    replay_frames-Reads [] r = reads (record {
      frames = [];
      history = sym (append-nil r.history);
      replayed = (refl, refl);
      indexes = λ es i. rw (append-nil es) i;
    })
    replay_frames-Reads (o ∷ os) r = bind-Reads m _ _ (round o r) λ r₁ h. elim h [
      | inl (acknowledged, same) ↦
          map-Reads m (λ r' l. skipped o os r r' acknowledged (subst (λ z. Looped os z r') same l))
            (replay_frames-Reads os r₁)
      | inr (n, open_frame, same, refreshed, is_step, tick, history, appended) ↦
          map-Reads m
            (λ r' l.
              stepped o os r r₁ r' n open_frame same refreshed is_step tick history appended l)
            (replay_frames-Reads os r₁)
    ]
