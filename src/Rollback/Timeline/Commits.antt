-- ===== src/Rollback/Timeline/Commits.antt =====
-- Rules for operations that commit: each step hands on a value.
use mathlib.Core.Path.{subst}
use mycore.Base.{◌≡◌, refl, sym, ap, Bool, false}
use mycore.Rollback.Types.{RollbackModel, TimelineErrorCode, Variant, value}
use mycore.Rollback.Timeline.{
  Timeline, Outcome, committed, failed, broken, Operation, ◌>>=◌, ◌>>◌, write, return, reject_if,
  from_model, from_index,
}

module _ (m : RollbackModel) where
  -- The outcome is a commit with `Q` of the timeline and the value.
  pub data Commits {A : Type 0} (Q : Timeline m → A → Type 0)
      : Timeline m × Outcome m A → Type 0 where
    commits : {t' : Timeline m} {a : A} → Q t' a → Commits Q (t', committed a)

  pub bind-committed :
      {A B : Type 0} (t : Timeline m) (b : B) (p : Operation m B) (f : B → Operation m A)
      → p t ≡ (t, committed b)
      → (p >>= f) t ≡ f b t
  unfolding ◌>>=◌
  bind-committed t b p f h =
      ap
        (λ r. elim r.1 [
          | committed a ↦ f a r.0
          | failed e ↦ (r.0, failed e)
          | broken ↦ (r.0, broken)
        ])
        h

  module _ {A : Type 0} {Q : Timeline m → A → Type 0} where
    pub committed-Commits :
        (r : Timeline m × Outcome m A)
        → Commits Q r
        → (t' : Timeline m) × (a : A) × (r ≡ (t', committed a)) × Q t' a
    committed-Commits _ (commits {t' = t'} {a = a} q) = (t', a, refl, q)

    pub bind-Commits :
        {B : Type 0} (t : Timeline m) (b : B) (p : Operation m B) (f : B → Operation m A)
        → p t ≡ (t, committed b)
        → Commits Q (f b t)
        → Commits Q ((p >>= f) t)
    unfolding ◌>>=◌
    bind-Commits t b p f h k =
        subst
          (λ r. Commits Q (elim r.1 [
            | committed a ↦ f a r.0
            | failed e ↦ (r.0, failed e)
            | broken ↦ (r.0, broken)
          ]))
          (sym h) k

    pub finish-Commits :
        (t t' : Timeline m) (a : A) → Q t' a → Commits Q ((write m t' >> return m a) t)
    unfolding ◌>>=◌
    finish-Commits t t' a q = commits q

  module _ (t : Timeline m) where
    pub passes :
        (b : Bool) (code : TimelineErrorCode) → b ≡ false → reject_if m b code t ≡ (t, committed tt)
    passes b code h = rw h refl

    pub gives :
        {A : Type 0} (code : TimelineErrorCode) (v : Variant m.Error A) (a : A)
        → v ≡ value a
        → from_model m code v t ≡ (t, committed a)
    gives code v a h = rw h refl

    pub indexes :
        {A : Type 0} (v : Variant TimelineErrorCode A) (a : A)
        → v ≡ value a
        → from_index m v t ≡ (t, committed a)
    indexes v a h = rw h refl
