-- ===== src/Rollback/Timeline/Rules.antt =====
-- Rules for the steps of an operation: each reads the timeline only, and either hands on a value or
-- fails and counts the failure.
use mycore.Base.{◌≡◌, ◌≢◌, refl, Option, none, some, Bool, true, false}
use mycore.Rollback.Types.{RollbackModel, TimelineFailure, TimelineErrorCode, Variant, value, error}
use mycore.Rollback.Resolve.{Resolved, resolved, refused, dangling}
use mycore.Rollback.Timeline.{
  Timeline, Outcome, committed, failed, broken, Operation, ◌>>=◌, ◌>>◌, count_failure, failure,
  return, read, write, reject_if, reject, from_model, from_index, from_resolution,
}

module _ (m : RollbackModel) where
  -- The timeline after a failure: as before, with one more failure counted.
  abbrev pub after_failure : Timeline m → Timeline m
  after_failure t = record t { statistics = count_failure t.statistics }

  -- What an operation on `t` promises: it commits with `Q` of the timeline and the value, or it
  -- fails and leaves all but the count of failures as it was. It does not break.
  pub data Ensures {A : Type 0} (t : Timeline m) (Q : Timeline m → A → Type 0)
      : Timeline m × Outcome m A → Type 0 where
    done : {t' : Timeline m} {a : A} → Q t' a → Ensures t Q (t', committed a)
    fails : (e : TimelineFailure m) → Ensures t Q (after_failure t, failed e)

  -- The same of a step that leaves the timeline alone when it succeeds.
  pub data Reads {A : Type 0} (t : Timeline m) (P : A → Type 0)
      : Timeline m × Outcome m A → Type 0 where
    reads : {a : A} → P a → Reads t P (t, committed a)
    fails : (e : TimelineFailure m) → Reads t P (after_failure t, failed e)

  module _ {A B : Type 0} (t : Timeline m) (P : A → Type 0) (f : A → Operation m B) where
    continue : Timeline m × Outcome m A → Timeline m × Outcome m B
    continue r = elim r.1 [
      | committed a ↦ f a r.0
      | failed e ↦ (r.0, failed e)
      | broken ↦ (r.0, broken)
    ]

    continue-Ensures :
        (Q : Timeline m → B → Type 0) (r : Timeline m × Outcome m A)
        → Reads t P r
        → ((a : A) → P a → Ensures t Q (f a t))
        → Ensures t Q (continue r)
    unfolding continue
    continue-Ensures Q r (reads {a = a} p) k = k a p
    continue-Ensures Q r (fails e) k = Ensures.fails e

    continue-Reads :
        (Q : B → Type 0) (r : Timeline m × Outcome m A)
        → Reads t P r
        → ((a : A) → P a → Reads t Q (f a t))
        → Reads t Q (continue r)
    unfolding continue
    continue-Reads Q r (reads {a = a} p) k = k a p
    continue-Reads Q r (fails e) k = Reads.fails e

  module _ {A B : Type 0} {t : Timeline m} {P : A → Type 0} where
    pub bind-Ensures :
        {Q : Timeline m → B → Type 0} (p : Operation m A) (f : A → Operation m B)
        → Reads t P (p t)
        → ((a : A) → P a → Ensures t Q (f a t))
        → Ensures t Q ((p >>= f) t)
    unfolding ◌>>=◌ continue
    bind-Ensures {Q} p f h k = continue-Ensures t P f Q (p t) h k

    pub bind-Reads :
        {Q : B → Type 0} (p : Operation m A) (f : A → Operation m B)
        → Reads t P (p t)
        → ((a : A) → P a → Reads t Q (f a t))
        → Reads t Q ((p >>= f) t)
    unfolding ◌>>=◌ continue
    bind-Reads {Q} p f h k = continue-Reads t P f Q (p t) h k

  pub read-Ensures :
      {B : Type 0} {t : Timeline m} {Q : Timeline m → B → Type 0} (f : Timeline m → Operation m B)
      → Ensures t Q (f t t)
      → Ensures t Q ((read m >>= f) t)
  unfolding ◌>>=◌
  read-Ensures f h = h

  module _ (t : Timeline m) where
    pub failure-Reads :
        {A : Type 0} {P : A → Type 0} (code : TimelineErrorCode) (e : Option m.Error)
        → Reads t P (failure m code e t)
    unfolding failure
    failure-Reads code e = fails (record { code = code; model_error = e })

    pub reject_if-Reads :
        (b : Bool) (code : TimelineErrorCode) → Reads t (λ _. b ≡ false) (reject_if m b code t)
    reject_if-Reads true code = failure-Reads code none
    reject_if-Reads false code = reads refl

    pub reject-Reads : (o : Option TimelineErrorCode) → Reads t (λ _. o ≡ none) (reject m o t)
    reject-Reads none = reads refl
    reject-Reads (some code) = failure-Reads code none

    pub from_model-Reads :
        {A : Type 0} (code : TimelineErrorCode) (v : Variant m.Error A)
        → Reads t (λ a. v ≡ value a) (from_model m code v t)
    from_model-Reads code (value a) = reads refl
    from_model-Reads code (error e) = failure-Reads code (some e)

    pub from_index-Reads :
        {A : Type 0} (v : Variant TimelineErrorCode A)
        → Reads t (λ a. v ≡ value a) (from_index m v t)
    from_index-Reads (value a) = reads refl
    from_index-Reads (error code) = failure-Reads code none

    pub from_resolution-Reads :
        {A : Type 0} (v : Resolved A)
        → v ≢ dangling
        → Reads t (λ a. v ≡ resolved a) (from_resolution m v t)
    from_resolution-Reads (resolved a) n = reads refl
    from_resolution-Reads (refused code) n = failure-Reads code none
    from_resolution-Reads dangling n = absurd (n refl)

    pub finish-Ensures :
        {A : Type 0} {Q : Timeline m → A → Type 0} (t' : Timeline m) (a : A)
        → Q t' a
        → Ensures t Q ((write m t' >> return m a) t)
    unfolding ◌>>=◌
    finish-Ensures t' a q = done q

  pub map-Ensures :
      {A : Type 0} {t : Timeline m} {P Q : Timeline m → A → Type 0} {r : Timeline m × Outcome m A}
      → ((t' : Timeline m) (a : A) → P t' a → Q t' a)
      → Ensures t P r
      → Ensures t Q r
  map-Ensures f (done {t' = t'} {a = a} p) = done (f t' a p)
  map-Ensures f (Ensures.fails e) = Ensures.fails e
