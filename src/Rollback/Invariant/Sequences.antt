-- ===== src/Rollback/Invariant/Sequences.antt =====
-- The command sequences of the history, under an advance and under a replay.
use mycore.Base.{
  ℕ, ◌≤◌, ◌≡◌, refl, inl, inr, Option, none, some, List, [], ◌∷◌, ◌++◌, true, false, length, arith,
  Bool-cases,
}
use mycore.Rollback.Types.{RollbackModel, FrameRecord}
use mycore.Rollback.Timeline.{at_most, regresses, acknowledges_unsent}
use mycore.Rollback.Timeline.Operations.Frames.{unacknowledged}
use mycore.Rollback.Invariant.{Ascends}

-- How the tests of the acknowledgements go together.
pub above_bound :
    (bound submitted : Option ℕ) (n : ℕ)
    → acknowledges_unsent bound submitted ≡ false
    → at_most n submitted ≡ false
    → at_most n bound ≡ false
unfolding acknowledges_unsent
above_bound none submitted n h g = refl
above_bound (some b) none n h g = absurd (cc h)
above_bound (some b) (some s) n h g = ground arith

bound_advances :
    (acknowledged : Option ℕ) (n : ℕ)
    → at_most n acknowledged ≡ true
    → regresses (some n) acknowledged ≡ false
unfolding regresses
bound_advances none n h = absurd (cc h)
bound_advances (some a) n h = ground arith

stays_above :
    (acknowledged : Option ℕ) (n k : ℕ)
    → at_most n acknowledged ≡ false
    → at_most k (some n) ≡ false
    → at_most k acknowledged ≡ false
stays_above none n k h g = refl
stays_above (some a) n k h g = ground arith

sent_self : (n : ℕ) → acknowledges_unsent (some n) (some n) ≡ false
unfolding acknowledges_unsent
sent_self n = ground arith

module _ (m : RollbackModel) where
  pub Ascends-snoc :
      (bound submitted : Option ℕ) (fs : List (FrameRecord m)) (f : FrameRecord m)
      → Ascends m bound fs submitted
      → at_most f.command_sequence submitted ≡ false
      → Ascends m bound (fs ++ f ∷ []) (some f.command_sequence)
  Ascends-snoc bound submitted [] f h g =
      (above_bound bound submitted f.command_sequence h g, sent_self f.command_sequence)
  Ascends-snoc bound submitted (x ∷ fs) f (a, h) g =
      (a, Ascends-snoc (some x.command_sequence) submitted fs f h g)

  -- Past the first frame that is kept, all are.
  kept :
      (acknowledged submitted : Option ℕ) (n : ℕ) (fs : List (FrameRecord m))
      → at_most n acknowledged ≡ false
      → Ascends m (some n) fs submitted
      → Ascends m (some n) (unacknowledged m acknowledged fs) submitted
  kept acknowledged submitted n [] a h = h
  kept acknowledged submitted n (f ∷ fs) a (g, h) =
      let above : at_most f.command_sequence acknowledged ≡ false =
        stays_above acknowledged n f.command_sequence a g in
      rw (above, unacknowledged) (g, kept acknowledged submitted f.command_sequence fs above h)

  pub Ascends-unacknowledged :
      (bound acknowledged submitted : Option ℕ) (fs : List (FrameRecord m))
      → regresses bound acknowledged ≡ false
      → acknowledges_unsent acknowledged submitted ≡ false
      → Ascends m bound fs submitted
      → Ascends m acknowledged (unacknowledged m acknowledged fs) submitted
  Ascends-unacknowledged bound acknowledged submitted [] r s h = s
  Ascends-unacknowledged bound acknowledged submitted (f ∷ fs) r s (g, h) =
      elim (Bool-cases (at_most f.command_sequence acknowledged)) [
        | inl below ↦
            rw (below, unacknowledged)
              (Ascends-unacknowledged (some f.command_sequence) acknowledged submitted fs
                (bound_advances acknowledged f.command_sequence below) s h)
        | inr above ↦
            rw (above, unacknowledged)
              (above, kept acknowledged submitted f.command_sequence fs above h)
      ]

  pub length-unacknowledged :
      (acknowledged : Option ℕ) (fs : List (FrameRecord m))
      → length (unacknowledged m acknowledged fs) ≤ length fs
  length-unacknowledged acknowledged [] = omega arith
  length-unacknowledged acknowledged (f ∷ fs) =
      let rest : length (unacknowledged m acknowledged fs) ≤ length fs =
        length-unacknowledged acknowledged fs in
      elim (Bool-cases (at_most f.command_sequence acknowledged)) [
        | inl below ↦ rw (below, unacknowledged) (omega arith)
        | inr above ↦ rw (above, unacknowledged) (omega arith)
      ]
