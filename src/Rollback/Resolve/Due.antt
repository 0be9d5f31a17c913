-- ===== src/Rollback/Resolve/Due.antt =====
-- The change that a key is due, by its old prediction, the authority's first answer and its new
-- prediction, without regard to the loops that find it.
use mathlib.Core.Logic.{ite, if_pos, if_neg}
use mycore.Base.{ℕ, ◌≡◌, refl, sym, ap, ◌∙◌, inl, inr, Option, none, some, List, [], ◌∷◌, ◌++◌}
use mycore.Rollback.Types.{RollbackModel, AuthorityEvent, EventChange, EventTransition}
use mycore.Rollback.Types.AuthorityEventDisposition.{confirmed, rejected}
use mycore.Rollback.Keyed.{In, find_of_not_in}
use mycore.Rollback.Journal.Order.{keys, keyed}
use mycore.Rollback.Resolve.Authority.{authority_keys, first_at, first_at_absent}
use mycore.Rollback.Resolve.Effect.{change_keys, old_at, new_at}

module _ (m : RollbackModel) where
  open m use {Event, EventKey, key_discrete, event_discrete}

  abbrev pub change_of : EventTransition → EventKey → Option Event → Option Event → EventChange m
  change_of transition key previous current = record {
    transition = transition;
    key = key;
    previous = previous;
    current = current;
  }

  -- An answer settles an old prediction, or announces an event that was not predicted if it confirms
  -- one. An old prediction without an answer is kept, revised or retracted.
  abbrev pub due :
      EventKey
      → Option Event
      → Option (ℕ × AuthorityEvent m)
      → Option Event
      → Option (EventChange m)
  due k (some old) (some (i, a)) new = some (elim a.disposition [
    | confirmed ↦ change_of EventTransition.confirmed k (some old) a.event
    | rejected ↦ change_of EventTransition.retracted k (some old) none
  ])
  due k (some old) none (some new) =
      ite (event_discrete old new) none
        (some (change_of EventTransition.revised k (some old) (some new)))
  due k (some old) none none = some (change_of EventTransition.retracted k (some old) none)
  due k none (some (i, a)) new = elim a.disposition [
    | confirmed ↦ some (change_of EventTransition.authority_only k none a.event)
    | rejected ↦ none
  ]
  due k none none (some new) = some (change_of EventTransition.first_predicted k none (some new))
  due k none none none = none

  -- The first change of the key.
  abbrev pub change_at : EventKey → List (EventChange m) → Option (EventChange m)
  change_at k [] = none
  change_at k (c ∷ cs) = ite (key_discrete c.key k) (some c) (change_at k cs)

  pub change_at_absent :
      (k : EventKey) (cs : List (EventChange m)) → ¬ In k (change_keys m cs) → change_at k cs ≡ none
  change_at_absent k [] h = refl
  change_at_absent k (c ∷ cs) h =
      if_neg (key_discrete c.key k) (λ e. h (inl (sym e))) _ _
      ∙ change_at_absent k cs (λ i. h (inr i))

  pub change_at-snoc_other :
      (k : EventKey) (cs : List (EventChange m)) (c : EventChange m)
      → ¬ (c.key ≡ k)
      → change_at k (cs ++ c ∷ []) ≡ change_at k cs
  change_at-snoc_other k [] c ne = if_neg (key_discrete c.key k) ne _ _
  change_at-snoc_other k (d ∷ cs) c ne =
      ap (ite (key_discrete d.key k) (some d)) (change_at-snoc_other k cs c ne)

  pub change_at-snoc_new :
      (cs : List (EventChange m)) (c : EventChange m)
      → ¬ In c.key (change_keys m cs)
      → change_at c.key (cs ++ c ∷ []) ≡ some c
  change_at-snoc_new [] c h = if_pos (key_discrete c.key c.key) refl _ _
  change_at-snoc_new (d ∷ cs) c h =
      if_neg (key_discrete d.key c.key) (λ e. h (inl (sym e))) _ _
      ∙ change_at-snoc_new cs c (λ i. h (inr i))

module _ (m : RollbackModel) (olds news : List m.Event) (authority : List (AuthorityEvent m)) where
  open m use {Event, EventKey, key_discrete}

  abbrev pub due_at : EventKey → Option (EventChange m)
  due_at k =
      due m k (old_at m olds news authority k) (first_at m k 0 authority)
        (new_at m olds news authority k)

  -- A key that nobody knows is due no change.
  pub due_at_absent :
      (k : EventKey)
      → ¬ In k (keys m olds)
      → ¬ In k (authority_keys m authority)
      → ¬ In k (keys m news)
      → due_at k ≡ none
  due_at_absent k old answered new =
      rw
        (
          find_of_not_in key_discrete k (keyed m olds) old,
          first_at_absent m k 0 authority answered,
          find_of_not_in key_discrete k (keyed m news) new,
        )
        refl
