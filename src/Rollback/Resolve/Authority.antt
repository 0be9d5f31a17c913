-- ===== src/Rollback/Resolve/Authority.antt =====
-- The map of the authority's events: under each key stands the first event of that key.
use mathlib.Core.Logic.{ite, if_pos, if_neg}
use mycore.Base.{
  ℕ, suc, ◌+◌, ◌≤◌, ◌<◌, ◌≡◌, refl, sym, ap, ◌∙◌, inl, inr, Option, none, some, List, [], ◌∷◌, ◌++◌,
  arith, length,
}
use mycore.Rollback.Types.{RollbackModel, AuthorityEvent}
use mycore.Rollback.Keyed.{In, find, emplace, or_else, or_else-none}
use mycore.Rollback.Resolve.{AuthorityIndex, index_authority, enumerate}

module _ (m : RollbackModel) where
  open m use {Event, EventKey, key_discrete}

  abbrev pub authority_keys : List (AuthorityEvent m) → List EventKey
  authority_keys [] = []
  authority_keys (a ∷ events) = a.key ∷ authority_keys events

  -- The first event with this key, with its place counted from `n`.
  abbrev pub first_at : EventKey → ℕ → List (AuthorityEvent m) → Option (ℕ × AuthorityEvent m)
  first_at k n [] = none
  first_at k n (a ∷ events) = ite (key_discrete a.key k) (some (n, a)) (first_at k (n + 1) events)

  index-step :
      (k : EventKey) (n : ℕ) (a : AuthorityEvent m) (rest : Option (ℕ × AuthorityEvent m))
      (entries : AuthorityIndex m)
      → or_else (find key_discrete k (emplace key_discrete a.key (n, a) entries).0) rest
        ≡ or_else (find key_discrete k entries) (ite (key_discrete a.key k) (some (n, a)) rest)
  unfolding emplace find
  index-step k n a rest entries = elim (key_discrete a.key k) [
    | yes e ↦ ground (arith, ap (λ z. find key_discrete z entries) e)
    | no ne ↦ ground arith
  ]

  index_authority-find :
      (k : EventKey) (n : ℕ) (events : List (AuthorityEvent m)) (entries : AuthorityIndex m)
      → find key_discrete k (index_authority m entries (enumerate n events))
        ≡ or_else (find key_discrete k entries) (first_at k n events)
  unfolding index_authority enumerate
  index_authority-find k n [] entries =
      sym (or_else-none key_discrete (find key_discrete k entries))
  index_authority-find k n (a ∷ events) entries =
      index_authority-find k (n + 1) events _ ∙ index-step k n a (first_at k (n + 1) events) entries

  -- Looking a key up in the map finds its first event.
  pub lookup_authority :
      (k : EventKey) (events : List (AuthorityEvent m))
      → find key_discrete k (index_authority m [] (enumerate 0 events)) ≡ first_at k 0 events
  unfolding find
  lookup_authority k events = index_authority-find k 0 events []

  pub first_at_absent :
      (k : EventKey) (n : ℕ) (events : List (AuthorityEvent m))
      → ¬ In k (authority_keys events)
      → first_at k n events ≡ none
  first_at_absent k n [] h = refl
  first_at_absent k n (a ∷ events) h =
      if_neg (key_discrete a.key k) (λ e. h (inl (sym e))) _ _
      ∙ first_at_absent k (n + 1) events (λ i. h (inr i))

  pub first_at_found :
      (k : EventKey) (n : ℕ) (events : List (AuthorityEvent m)) (i : ℕ) (a : AuthorityEvent m)
      → first_at k n events ≡ some (i, a)
      → In k (authority_keys events) × (a.key ≡ k) × In a events × (n ≤ i) × (i < n + length events)
  first_at_found k n [] i a h = absurd (cc h)
  first_at_found k n (b ∷ events) i a h = elim (key_discrete b.key k) [
    | yes e ↦
        let hit =
          sym (if_pos (key_discrete b.key k) e (some (n, b)) (first_at k (n + 1) events)) ∙ h in
        let at_n : n ≡ i = cc hit in
        let same : b ≡ a = cc hit in
        (
          inl (sym e),
          ap (λ (z : AuthorityEvent m). z.key) (sym same) ∙ e,
          inl (sym same),
          omega arith,
          omega arith,
        )
    | no ne ↦
        let miss =
          sym (if_neg (key_discrete b.key k) ne (some (n, b)) (first_at k (n + 1) events)) ∙ h in
        let (there, keyed, member, low, high) = first_at_found k (n + 1) events i a miss in
        (inr there, keyed, inr member, omega arith, omega arith)
  ]

  pub first_at_present :
      (k : EventKey) (n : ℕ) (events : List (AuthorityEvent m))
      → In k (authority_keys events)
      → (i : ℕ) × (a : AuthorityEvent m) × (first_at k n events ≡ some (i, a))
  first_at_present k n [] h = absurd h
  first_at_present k n (b ∷ events) h = elim (key_discrete b.key k) [
    | yes e ↦ (n, b, if_pos (key_discrete b.key k) e _ _)
    | no ne ↦
        let later : In k (authority_keys events) = elim h [
          | inl e ↦ absurd (ne (sym e))
          | inr i ↦ i
        ] in
        let (i, a, found) = first_at_present k (n + 1) events later in
        (i, a, if_neg (key_discrete b.key k) ne _ _ ∙ found)
  ]

  first_at-append :
      (k : EventKey) (n : ℕ) (pre post : List (AuthorityEvent m))
      → first_at k n (pre ++ post) ≡ or_else (first_at k n pre) (first_at k (n + length pre) post)
  first_at-append k n [] post = ap (λ z. first_at k z post) (omega arith)
  first_at-append k n (a ∷ pre) post =
      let shift : n + 1 + length pre ≡ n + suc (length pre) = omega arith in
      let rest = first_at-append k (n + 1) pre post in
      ground (arith, ap (λ z. first_at k z post) shift)

  -- A key of a first part is found in it.
  pub first_at_earlier :
      (k : EventKey) (pre post : List (AuthorityEvent m))
      → In k (authority_keys pre)
      → (j : ℕ) × (b : AuthorityEvent m) × (first_at k 0 (pre ++ post) ≡ some (j, b))
        × (j < length pre)
  first_at_earlier k pre post i =
      let (j, b, at) = first_at_present k 0 pre i in
      let (_, _, _, _, high) = first_at_found k 0 pre j b at in
      (
        j,
        b,
        first_at-append k 0 pre post ∙ ap (λ o. or_else o (first_at k (0 + length pre) post)) at,
        omega arith,
      )

  pub first_at_here :
      (pre post : List (AuthorityEvent m)) (a : AuthorityEvent m)
      → ¬ In a.key (authority_keys pre)
      → first_at a.key 0 (pre ++ a ∷ post) ≡ some (length pre, a)
  first_at_here pre post a new =
      let place : 0 + length pre ≡ length pre = omega arith in
      first_at-append a.key 0 pre (a ∷ post)
      ∙ ap (λ o. or_else o (first_at a.key (0 + length pre) (a ∷ post)))
          (first_at_absent a.key 0 pre new)
      ∙ if_pos (key_discrete a.key a.key) refl _ _
      ∙ ap (λ n. some (n, a)) place

  pub authority_keys-append :
      (xs ys : List (AuthorityEvent m))
      → authority_keys (xs ++ ys) ≡ authority_keys xs ++ authority_keys ys
  authority_keys-append [] ys = refl
  authority_keys-append (x ∷ xs) ys = ap (λ l. x.key ∷ l) (authority_keys-append xs ys)
