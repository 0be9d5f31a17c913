-- ===== src/Rollback/Resolve/Rounds.antt =====
-- The rounds of the resolution's loops: each resolves its key, or meets a key that is predicted anew
-- although the authority has answered it.
pub mod Old
pub mod New
pub mod Receipts
use mycore.Base.{ℕ, ◌≡◌, refl, sym, ◌∙◌, ◌⊎◌, inl, inr, Option, none, some, List, [], ◌∷◌, true}
use mycore.Rollback.Types.{RollbackModel, AuthorityEvent, conflicting_authority_event}
use mycore.Rollback.Keyed.{In, find, find_of_in, in_of_find}
use mycore.Rollback.Journal.{EventIndex, has_shape}
use mycore.Rollback.Journal.Order.{Indexes, keys, keyed}
use mycore.Rollback.Resolve.{
  Resolved, resolved, refused, for_each, AuthorityIndex, index_authority, enumerate,
}
use mycore.Rollback.Resolve.Due.{due, due_at}
use mycore.Rollback.Resolve.Authority.{
  authority_keys, lookup_authority, first_at_found, first_at_present,
}

-- A round, or a loop, ends in a state with `P`, or is refused for a reason in `C`.
abbrev pub Ends : {S : Type 0} → (S → Type 0) → Type 0 → Resolved S → Type 0
Ends {S} P C o =
    ((s : S) × (o ≡ resolved s) × P s) ⊎ (C × (o ≡ refused conflicting_authority_event))

module _ {X S : Type 0} (P : List X → S → Type 0) (C : Type 0) (body : X → S → Resolved S) where
  pub for_each-Ends :
      ((x : X) (xs : List X) (s : S) → P (x ∷ xs) s → Ends (P xs) C (body x s))
      → (xs : List X) (s : S) → P xs s
      → Ends (P []) C (for_each body xs s)
  unfolding for_each
  for_each-Ends round [] s p = inl (s, refl, p)
  for_each-Ends round (x ∷ xs) s p = elim (round x xs s p) [
    | inr (c, e) ↦ inr (c, rw (e, for_each))
    | inl (s', e, p') ↦ elim (for_each-Ends round xs s' p') [
      | inl (t, run, q) ↦ inl (t, rw (e, for_each) run, q)
      | inr (c, run) ↦ inr (c, rw (e, for_each) run)
    ]
  ]

-- A key that is predicted although the authority has answered it.
abbrev pub Conflict : (m : RollbackModel) → List m.Event → List (AuthorityEvent m) → Type 0
Conflict m news authority =
    (k : m.EventKey) × In k (keys m news) × In k (authority_keys m authority)

-- The loops' setting: the indexes are those of the old and of the new events, and the authority's
-- events have the shapes that validation asks of them.
pub record Setting (m : RollbackModel) (olds news : List m.Event)
    (authority : List (AuthorityEvent m)) (old_events new_events : EventIndex m) : Type 0 where
  pub old_index : Indexes m olds old_events
  pub new_index : Indexes m news new_events
  pub shapes : (a : AuthorityEvent m) → In a authority → has_shape m a ≡ true

module _ (m : RollbackModel) where
  open m use {EventKey, key_discrete}

  abbrev pub receipts : List (AuthorityEvent m) → AuthorityIndex m
  receipts authority = index_authority m [] (enumerate 0 authority)

  module _ (es : List m.Event) (ix : EventIndex m) (index : Indexes m es ix) (key : EventKey) where
    pub indexed_in : (e : m.Event) → find key_discrete key ix.by_key ≡ some e → In key (keys m es)
    indexed_in e h = (in_of_find key_discrete key e (keyed m es) (sym (index.finds key) ∙ h)).0

    pub indexed_out : find key_discrete key ix.by_key ≡ none → ¬ In key (keys m es)
    indexed_out h i =
        let (e, found) = find_of_in key_discrete key (keyed m es) i in
        cc (h, index.finds key, found)

    pub indexed_found :
        In key (keys m es) → (e : m.Event) × (find key_discrete key ix.by_key ≡ some e)
    indexed_found i =
        let (e, found) = find_of_in key_discrete key (keyed m es) i in (e, index.finds key ∙ found)

  module _ (authority : List (AuthorityEvent m)) (key : EventKey) where
    pub receipt_in :
        (i : ℕ) (a : AuthorityEvent m)
        → find key_discrete key (receipts authority) ≡ some (i, a)
        → In key (authority_keys m authority) × (a.key ≡ key) × In a authority
    receipt_in i a h =
        let (present, keyed, member, _, _) =
          first_at_found m key 0 authority i a (sym (lookup_authority m key authority) ∙ h) in
        (present, keyed, member)

    pub receipt_out :
        find key_discrete key (receipts authority) ≡ none → ¬ In key (authority_keys m authority)
    receipt_out h present =
        let (i, a, found) = first_at_present m key 0 authority present in
        cc (h, lookup_authority m key authority, found)

-- What the maps of the setting say of a key is what its due change depends on.
module _ (m : RollbackModel) (olds news : List m.Event) (authority : List (AuthorityEvent m))
    (old_events new_events : EventIndex m)
    (setting : Setting m olds news authority old_events new_events) where
  open m use {Event, EventKey, key_discrete}

  pub due_indexed :
      (key : EventKey) (old : Option Event) (answer : Option (ℕ × AuthorityEvent m))
      (new : Option Event)
      → find key_discrete key old_events.by_key ≡ old
      → find key_discrete key (receipts m authority) ≡ answer
      → find key_discrete key new_events.by_key ≡ new
      → due_at m olds news authority key ≡ due m key old answer new
  due_indexed key old answer new at_old at_receipt at_new =
      rw
        (
          sym (setting.old_index.finds key) ∙ at_old,
          sym (lookup_authority m key authority) ∙ at_receipt,
          sym (setting.new_index.finds key) ∙ at_new,
        )
        refl
