-- ===== src/Rollback/Invariant/Traces.antt =====
-- The trace of the history, under an advance and under a replay.
use mathlib.Core.Path.{subst}
use Prim.Native.Nat.{suc}
use mycore.Base.{ℕ, ◌≡◌, refl, sym, ap, ◌∙◌, inl, Option, none, some, List, [], ◌∷◌, ◌++◌, length}
use mycore.Rollback.Types.{RollbackModel, FrameRecord}
use mycore.Rollback.Timeline.{Refresh, at_most, last}
use mycore.Rollback.Timeline.Operations.Frames.{IsStep, Replayed}
use mycore.Rollback.Invariant.{Ascends, Resumes, Traced}

module _ (m : RollbackModel) where
  open m use {State, Scope, restore, capture}

  module _ (scope : Scope) (epoch : ℕ) where
    pub Traced-snoc :
        (fs : List (FrameRecord m)) (n : FrameRecord m) (s : State) (k : ℕ) (s' : State) (k' : ℕ)
        (p s'' : State)
        → Traced m scope epoch s k fs s' k'
        → Resumes m scope s' p
        → IsStep m scope epoch p k' n s''
        → Traced m scope epoch s k (fs ++ n ∷ []) s'' n.tick
    Traced-snoc [] n s k s' k' p s'' (same, tick) from step = (
      p,
      s'',
      subst (λ z. Resumes m scope z p) (sym same) from,
      subst (λ z. IsStep m scope epoch p z n s'') (sym tick) step,
      (refl, refl),
    )
    Traced-snoc (f ∷ fs) n s k s' k' p s'' (q, s₁, before, first, rest) from step =
        (q, s₁, before, first, Traced-snoc fs n s₁ f.tick s' k' p s'' rest from step)

    -- The newest frame's checkpoint is the capture of the state that the trace ends in.
    pub Traced-last :
        (fs : List (FrameRecord m)) (f : FrameRecord m) (s : State) (k : ℕ) (s' : State) (k' : ℕ)
        → last fs ≡ some f
        → Traced m scope epoch s k fs s' k'
        → f.checkpoint ≡ capture s' scope
    Traced-last [] f s k s' k' h trace = absurd (cc h)
    Traced-last (x ∷ []) f s k s' k' h (p, s₁, from, first, (same, tick)) =
        let it : x ≡ f = cc h in
        ap (λ z. z.checkpoint) (sym it) ∙ first.checkpoint ∙ ap (λ z. capture z scope) same
    Traced-last (x ∷ y ∷ fs) f s k s' k' h (p, s₁, from, first, rest) =
        Traced-last (y ∷ fs) f s₁ x.tick s' k' h rest

    pub Traced-empty :
        (fs : List (FrameRecord m)) (s : State) (k : ℕ) (s' : State) (k' : ℕ)
        → last fs ≡ none
        → Traced m scope epoch s k fs s' k'
        → s ≡ s'
    Traced-empty [] s k s' k' h trace = trace.0
    Traced-empty (x ∷ []) s k s' k' h trace = absurd (cc h)
    Traced-empty (x ∷ y ∷ fs) s k s' k' h trace = absurd (nonempty x y fs h)
      where
        nonempty : (x y : FrameRecord m) (fs : List (FrameRecord m)) → last (x ∷ y ∷ fs) ≡ none → ⊥
        nonempty x y [] h = cc h
        nonempty x y (z ∷ fs) h = nonempty y z fs h

    module _ (refresh : Refresh m) where
      pub Traced-Replayed :
          (os ns : List (FrameRecord m)) (s : State) (k : ℕ) (s' : State) (k' : ℕ)
          → Replayed m refresh scope epoch s k os ns s' k'
          → Traced m scope epoch s k ns s' k'
      Traced-Replayed [] [] s k s' k' h = h
      Traced-Replayed [] (n ∷ ns) s k s' k' h = absurd h
      Traced-Replayed (o ∷ os) [] s k s' k' h = absurd h
      Traced-Replayed (o ∷ os) (n ∷ ns) s k s' k' (s₁, same, refreshed, step, rest) =
          (s, s₁, inl refl, step, Traced-Replayed os ns s₁ n.tick s' k' rest)

      pub length-Replayed :
          (os ns : List (FrameRecord m)) (s : State) (k : ℕ) (s' : State) (k' : ℕ)
          → Replayed m refresh scope epoch s k os ns s' k'
          → length ns ≡ length os
      length-Replayed [] [] s k s' k' h = refl
      length-Replayed [] (n ∷ ns) s k s' k' h = absurd h
      length-Replayed (o ∷ os) [] s k s' k' h = absurd h
      length-Replayed (o ∷ os) (n ∷ ns) s k s' k' (s₁, same, refreshed, step, rest) =
          ap suc (length-Replayed os ns s₁ n.tick s' k' rest)

      pub Ascends-Replayed :
          (os ns : List (FrameRecord m)) (bound submitted : Option ℕ) (s : State) (k : ℕ)
          (s' : State) (k' : ℕ)
          → Replayed m refresh scope epoch s k os ns s' k'
          → Ascends m bound os submitted
          → Ascends m bound ns submitted
      Ascends-Replayed [] [] bound submitted s k s' k' h a = a
      Ascends-Replayed [] (n ∷ ns) bound submitted s k s' k' h a = absurd h
      Ascends-Replayed (o ∷ os) [] bound submitted s k s' k' h a = absurd h
      Ascends-Replayed (o ∷ os) (n ∷ ns) bound submitted s k s' k' (s₁, same, refreshed, step, rest)
            (above, a) =
          (
            ap (λ q. at_most q bound) same ∙ above,
            Ascends-Replayed os ns (some n.command_sequence) submitted s₁ n.tick s' k' rest
                (subst (λ q. Ascends m (some q) os submitted) (sym same) a),
          )
