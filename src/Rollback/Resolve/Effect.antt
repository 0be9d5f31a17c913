-- ===== src/Rollback/Resolve/Effect.antt =====
-- What a list of transitions does to the predicted events, and how far a resolution has come.
use mathlib.Core.Logic.{ite}
use mycore.Base.{
  ℕ, ◌≡◌, refl, ap, ◌⊎◌, Option, none, some, List, [], ◌∷◌, ◌++◌, true, Bool, not, ◌&&◌, has_value,
}
use mycore.Rollback.Types.{RollbackModel, AuthorityEvent, AuthorityEventDisposition, EventChange}
use mycore.Rollback.Types.EventTransition.{
  first_predicted, revised, retracted, confirmed, authority_only,
}
use mycore.Rollback.Keyed.{In, find}
use mycore.Rollback.Journal.Order.{keyed, keys}
use mycore.Rollback.Resolve.Authority.{first_at}

module _ (m : RollbackModel) where
  open m use {Event, EventKey, key_discrete}

  -- The prediction of the key's event after a transition.
  abbrev pub predicted_after : EventChange m → Option Event
  predicted_after c = elim c.transition [
    | first_predicted ↦ c.current
    | revised ↦ c.current
    | retracted ↦ none
    | confirmed ↦ none
    | authority_only ↦ none
  ]

  -- What the transitions, in order, make of the prediction under one key.
  abbrev pub apply_changes : EventKey → List (EventChange m) → Option Event → Option Event
  apply_changes k [] o = o
  apply_changes k (c ∷ cs) o = apply_changes k cs (ite (key_discrete c.key k) (predicted_after c) o)

  abbrev pub change_keys : List (EventChange m) → List EventKey
  change_keys [] = []
  change_keys (c ∷ cs) = c.key ∷ change_keys cs

  -- Which of the two events a transition carries.
  abbrev pub valid_shape : EventChange m → Bool
  valid_shape c = elim c.transition [
    | first_predicted ↦ not (has_value c.previous) && has_value c.current
    | revised ↦ has_value c.previous && has_value c.current
    | retracted ↦ has_value c.previous && not (has_value c.current)
    | confirmed ↦ has_value c.previous && has_value c.current
    | authority_only ↦ not (has_value c.previous) && has_value c.current
  ]

  abbrev pub AllShaped : List (EventChange m) → Type 0
  AllShaped [] = Unit
  AllShaped (c ∷ cs) = (valid_shape c ≡ true) × AllShaped cs

  pub apply_changes-snoc :
      (k : EventKey) (cs : List (EventChange m)) (c : EventChange m) (o : Option Event)
      → apply_changes k (cs ++ c ∷ []) o
        ≡ ite (key_discrete c.key k) (predicted_after c) (apply_changes k cs o)
  apply_changes-snoc k [] c o = refl
  apply_changes-snoc k (d ∷ cs) c o = apply_changes-snoc k cs c _

  pub change_keys-snoc :
      (cs : List (EventChange m)) (c : EventChange m)
      → change_keys (cs ++ c ∷ []) ≡ change_keys cs ++ c.key ∷ []
  change_keys-snoc [] c = refl
  change_keys-snoc (d ∷ cs) c = ap (λ l. d.key ∷ l) (change_keys-snoc cs c)

  pub AllShaped-snoc :
      (cs : List (EventChange m)) (c : EventChange m)
      → AllShaped cs
      → valid_shape c ≡ true
      → AllShaped (cs ++ c ∷ [])
  AllShaped-snoc [] c h s = (s, tt)
  AllShaped-snoc (d ∷ cs) c h s = (h.0, AllShaped-snoc cs c h.1 s)

module _ (m : RollbackModel) (olds news : List m.Event) (authority : List (AuthorityEvent m)) where
  open m use {Event, EventKey, key_discrete}

  abbrev pub old_at : EventKey → Option Event
  old_at k = find key_discrete k (keyed m olds)

  abbrev pub new_at : EventKey → Option Event
  new_at k = find key_discrete k (keyed m news)

  -- The key's first receipt confirms it.
  abbrev pub Confirms : EventKey → Type 0
  Confirms k =
      (i : ℕ) × (a : AuthorityEvent m) × (first_at m k 0 authority ≡ some (i, a))
      × (a.disposition ≡ AuthorityEventDisposition.confirmed)

  -- The key was predicted or is confirmed.
  abbrev pub Known : EventKey → Type 0
  Known k = In k (keys m olds) ⊎ Confirms k
