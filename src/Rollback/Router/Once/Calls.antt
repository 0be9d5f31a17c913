-- ===== src/Rollback/Router/Once/Calls.antt =====
-- The handlers that are told once: an occurrence is among the delivered keys exactly when they have
-- been called for it.
use mathlib.Core.Path.{subst}
use mycore.Base.{
  ℕ, suc, ◌≡◌, refl, sym, ap, ◌∙◌, inl, inr, List, [], ◌∷◌, ◌++◌, Bool, true, false, if◌then◌else◌,
  Bool-cases,
}
use mycore.Rollback.Types.{RollbackModel, EventChange}
use mycore.Rollback.Router.{ConsequenceDispatchReport, Subscriptions, OnEvent}
use mycore.Rollback.Router.Sets.{contains, insert}
use mycore.Rollback.Router.Sets.Contents.{
  insert-old, insert-new, contains-snoc_self, contains-snoc_other,
}
use mycore.Rollback.Router.Once.{announces, settles, process_predict_once, process_confirm_once}

-- One call more for `j`, if `same`.
abbrev pub more : {A : Type 0} → Dec A → ℕ → ℕ
more (yes e) n = suc n
more (no ne) n = n

pub more_same : {A : Type 0} (d : Dec A) → A → (n : ℕ) → more d n ≡ suc n
more_same (yes e) a n = refl
more_same (no ne) a n = absurd (ne a)

pub more_other : {A : Type 0} (d : Dec A) → (¬ A) → (n : ℕ) → more d n ≡ n
more_other (yes e) na n = absurd (na e)
more_other (no ne) na n = refl

abbrev pub once : Bool → ℕ
once true = 1
once false = 0

module _ (m : RollbackModel) (s : Subscriptions m) (calls : s.Handler → m.EventKey → ℕ) where
  open m use {Event, EventKey, key_discrete}
  open s use {Handler}

  -- The callback counts its calls, each under its key.
  abbrev pub Counts : OnEvent m s → Type 0
  Counts on =
      (h : Handler) (key : EventKey) (event : Event) (j : EventKey)
      → calls (on h key event).0 j ≡ more (key_discrete key j) (calls h j)

  module _ (k : EventKey) where
    -- The handler has been called for `k` once if `k` is delivered, else never.
    abbrev pub Tells : Handler → List EventKey → Type 0
    Tells h delivered = calls h k ≡ once (contains key_discrete k delivered)

    called :
        (on : OnEvent m s) (h : Handler) (key : EventKey) (event : Event)
        (delivered : List EventKey)
        → Counts on
        → contains key_discrete key delivered ≡ false
        → Tells h delivered
        → Tells (on h key event).0 (delivered ++ key ∷ [])
    called on h key event delivered counts new t = elim (key_discrete key k) [
      | yes e ↦
          counts h key event k
          ∙ more_same (key_discrete key k) e (calls h k)
          ∙ ap suc (t ∙ ap once (subst (λ z. contains key_discrete z delivered ≡ false) e new))
          ∙ ap once (
              sym (
                subst (λ z. contains key_discrete k (delivered ++ z ∷ []) ≡ true) (sym e)
                  (contains-snoc_self key_discrete k delivered)))
      | no ne ↦
          counts h key event k
          ∙ more_other (key_discrete key k) ne (calls h k)
          ∙ t
          ∙ ap once (sym (contains-snoc_other key_discrete k key delivered ne))
    ]

    module _ (index : ℕ) (on : OnEvent m s) (change : EventChange m) (event : Event) (h : Handler)
        (delivered : List EventKey) (report : ConsequenceDispatchReport) (counts : Counts on)
        (t : Tells h delivered) where
      -- What both policies do with an occurrence that is due.
      told :
          (x y z : ConsequenceDispatchReport)
          → (let r : Handler × List EventKey × ConsequenceDispatchReport =
                let (delivered', is_new) = insert key_discrete change.key delivered in
                if is_new
                then (let (h', succeeded) = on h change.key event in
                    if succeeded then (h', delivered', x) else (h', delivered', y))
                else (h, delivered', z) in
              Tells r.0 r.1)
      told x y z = elim (Bool-cases (contains key_discrete change.key delivered)) [
        | inl old ↦ rw (insert-old key_discrete change.key delivered old) t
        | inr new ↦ elim (Bool-cases (on h change.key event).1) [
          | inl done ↦
              rw (insert-new key_discrete change.key delivered new)
                (rw (done) (called on h change.key event delivered counts new t))
          | inr failed ↦
              rw (insert-new key_discrete change.key delivered new)
                (rw (failed) (called on h change.key event delivered counts new t))
        ]
      ]

      pub predict_once-Tells :
          (let r = process_predict_once m s index on change event h delivered report in
            Tells r.0 r.1)
      unfolding process_predict_once
      predict_once-Tells = elim (Bool-cases (announces change.transition)) [
        | inr silent ↦ rw (silent) t
        | inl due ↦ rw (due) (told _ _ _)
      ]

      pub confirm_once-Tells :
          (let r = process_confirm_once m s index on change event h delivered report in
            Tells r.0 r.1)
      unfolding process_confirm_once
      confirm_once-Tells = elim (Bool-cases (settles change.transition)) [
        | inr silent ↦ rw (silent) t
        | inl due ↦ rw (due) (told _ _ _)
      ]
