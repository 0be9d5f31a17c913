-- ===== src/Rollback/Timeline/Operations/Held.antt =====
-- The first checks of the operations, and the checkpoint that a prediction starts from.
use mycore.Base.{◌≡◌, refl, ◌⊎◌, inl, inr, Option, none, some}
use mycore.Rollback.Types.{RollbackModel, FrameRecord, not_initialized}
use mycore.Rollback.Timeline.{Timeline, Outcome, head_checkpoint, head_of, last}
use mycore.Rollback.Timeline.Rules.{Reads, reads, failure-Reads}
use mycore.Rollback.Timeline.Operations.{require_initialized, require_state, held, held_state}

module _ (m : RollbackModel) where
  open m use {State, Checkpoint, Scope}

  -- The timeline holds a state, a checkpoint and a scope.
  pub record Holds (t : Timeline m) (h : State × Checkpoint × Scope) : Type 0 where
    pub state : t.state ≡ some h.0
    pub base : t.base_checkpoint ≡ some h.1
    pub scope : t.scope ≡ some h.2

  held-Reads :
      (t : Timeline m) (s : Option State) (b : Option Checkpoint) (c : Option Scope)
      → Reads m t (λ h. (s ≡ some h.0) × (b ≡ some h.1) × (c ≡ some h.2)) (held m s b c t)
  unfolding held
  held-Reads t (some s) (some b) (some c) = reads (refl, refl, refl)
  held-Reads t _ _ _ = failure-Reads m t not_initialized none

  held_state-Reads :
      (t : Timeline m) (s : Option State) (b : Option Checkpoint)
      → Reads m t (λ h. s ≡ some h) (held_state m s b t)
  unfolding held_state
  held_state-Reads t (some s) (some b) = reads refl
  held_state-Reads t _ _ = failure-Reads m t not_initialized none

  pub map-Reads :
      {A : Type 0} {t : Timeline m} {P Q : A → Type 0} {r : Timeline m × Outcome m A}
      → ((a : A) → P a → Q a)
      → Reads m t P r
      → Reads m t Q r
  map-Reads f (reads {a = a} p) = reads (f a p)
  map-Reads f (Reads.fails e) = Reads.fails e

  pub require_initialized-Reads : (t : Timeline m) → Reads m t (Holds t) (require_initialized m t)
  unfolding require_initialized
  require_initialized-Reads t =
      map-Reads (λ h (s, b, c). record { state = s; base = b; scope = c })
        (held-Reads t t.state t.base_checkpoint t.scope)

  pub require_state-Reads : (t : Timeline m) → Reads m t (λ s. t.state ≡ some s) (require_state m t)
  unfolding require_state
  require_state-Reads t = held_state-Reads t t.state t.base_checkpoint

  -- The checkpoint of the newest frame, or the base checkpoint.
  abbrev pub Head : Timeline m → Checkpoint → Type 0
  Head t head =
      ((f : FrameRecord m) × (last t.history ≡ some f) × (head ≡ f.checkpoint))
      ⊎ ((last t.history ≡ none) × (t.base_checkpoint ≡ some head))

  head_of-Reads :
      (t : Timeline m) (f : Option (FrameRecord m)) (b : Option Checkpoint) (base : Checkpoint)
      → b ≡ some base
      → Reads m t
          (λ head.
            ((g : FrameRecord m) × (f ≡ some g) × (head ≡ g.checkpoint))
            ⊎ ((f ≡ none) × (b ≡ some head)))
          (head_of m f b t)
  unfolding head_of
  head_of-Reads t (some f) b base h = reads (inl (f, refl, refl))
  head_of-Reads t none (some b) base h = reads (inr (refl, refl))
  head_of-Reads t none none base h = absurd (cc h)

  pub head_checkpoint-Reads :
      (t : Timeline m) (base : Checkpoint)
      → t.base_checkpoint ≡ some base
      → Reads m t (Head t) (head_checkpoint m t)
  unfolding head_checkpoint
  head_checkpoint-Reads t base h = head_of-Reads t (last t.history) t.base_checkpoint base h
