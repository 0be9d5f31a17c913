-- ===== src/Rollback/Keyed.antt =====
-- `std::unordered_map` with `emplace` and `find`, as an association list. The iteration order of the
-- maps is never observed by the rollback code.
use mathlib.Core.Logic.{ite, if_pos, if_neg}
use mathlib.Core.Path.{subst}
use mycore.Base.{
  ◌≡◌, refl, sym, ap, ◌∙◌, ◌⊎◌, inl, inr, ◌≢◌, Bool, true, false, Option, none, some, List, [], ◌∷◌,
  ◌++◌, arith,
}

-- `a` occurs in the list.
abbrev pub In : {A : Type 0} → A → List A → Type 0
In a [] = ⊥
In a (x ∷ xs) = (a ≡ x) ⊎ In a xs

-- No element occurs twice.
abbrev pub Distinct : {A : Type 0} → List A → Type 0
Distinct [] = Unit
Distinct (x ∷ xs) = (¬ In x xs) × Distinct xs

module _ {A : Type 0} where
  pub in-append_left : (a : A) (xs ys : List A) → In a xs → In a (xs ++ ys)
  in-append_left a [] ys h = absurd h
  in-append_left a (x ∷ xs) ys (inl e) = inl e
  in-append_left a (x ∷ xs) ys (inr h) = inr (in-append_left a xs ys h)

  pub in-append_right : (a : A) (xs ys : List A) → In a ys → In a (xs ++ ys)
  in-append_right a [] ys h = h
  in-append_right a (x ∷ xs) ys h = inr (in-append_right a xs ys h)

  pub in-append : (a : A) (xs ys : List A) → In a (xs ++ ys) → In a xs ⊎ In a ys
  in-append a [] ys h = inr h
  in-append a (x ∷ xs) ys (inl e) = inl (inl e)
  in-append a (x ∷ xs) ys (inr h) = elim (in-append a xs ys h) [
    | inl l ↦ inl (inr l)
    | inr r ↦ inr r
  ]

  unfoldable pub dec_in : Discrete A → (a : A) (xs : List A) → Dec (In a xs)
  dec_in eq a [] = no λ h. h
  dec_in eq a (x ∷ xs) = elim (eq a x) [
    | yes e ↦ yes (inl e)
    | no ne ↦ elim (dec_in eq a xs) [
      | yes h ↦ yes (inr h)
      | no nh ↦ no λ h. elim h [ inl e ↦ ne e | inr r ↦ nh r ]
    ]
  ]

  pub Distinct-append_left : (xs ys : List A) → Distinct (xs ++ ys) → Distinct xs
  Distinct-append_left [] ys h = tt
  Distinct-append_left (x ∷ xs) ys h =
      (λ i. h.0 (in-append_left x xs ys i), Distinct-append_left xs ys h.1)

  pub Distinct-append_right : (xs ys : List A) → Distinct (xs ++ ys) → Distinct ys
  Distinct-append_right [] ys h = h
  Distinct-append_right (x ∷ xs) ys h = Distinct-append_right xs ys h.1

  pub Distinct-disjoint : (a : A) (xs ys : List A) → Distinct (xs ++ ys) → In a xs → ¬ In a ys
  Distinct-disjoint a [] ys h i j = i
  Distinct-disjoint a (x ∷ xs) ys h (inl e) j =
      h.0 (in-append_right x xs ys (subst (λ z. In z ys) e j))
  Distinct-disjoint a (x ∷ xs) ys h (inr i) j = Distinct-disjoint a xs ys h.1 i j

  pub Distinct-snoc : (xs : List A) (a : A) → Distinct xs → ¬ In a xs → Distinct (xs ++ a ∷ [])
  Distinct-snoc [] a h n = (λ i. i, tt)
  Distinct-snoc (x ∷ xs) a h n = (
    λ i. elim (in-append x xs (a ∷ []) i) [
      | inl old ↦ h.0 old
      | inr new ↦ elim new [ inl e ↦ n (inl (sym e)) | inr none_left ↦ none_left ]
    ],
    Distinct-snoc xs a h.1 (λ i. n (inr i)),
  )

module _ {K V : Type 0} (eq : Discrete K) where
  unfoldable pub find : K → List (K × V) → Option V
  find k [] = none
  find k ((j, v) ∷ entries) = ite (eq j k) (some v) (find k entries)

  -- The map, and whether the entry was inserted: an entry that is there stays.
  unfoldable pub emplace : K → V → List (K × V) → List (K × V) × Bool
  unfolding find
  emplace k v entries = elim (find k entries) [
    | none ↦ ((k, v) ∷ entries, true)
    | some old ↦ (entries, false)
  ]

-- The first value if there is one, else the second.
abbrev pub or_else {ℓ} : {A : Type ℓ} → Option A → Option A → Option A
or_else none b = b
or_else (some a) b = some a

abbrev pub first_keys : {K V : Type 0} → List (K × V) → List K
first_keys [] = []
first_keys ((k, v) ∷ entries) = k ∷ first_keys entries

module _ {K V : Type 0} (eq : Discrete K) where
  pub find-hit : (j k : K) (v : V) (xs : List (K × V)) → j ≡ k → find eq k ((j, v) ∷ xs) ≡ some v
  unfolding find
  find-hit j k v xs e = if_pos (eq j k) e _ _

  pub find-miss :
      (j k : K) (v : V) (xs : List (K × V)) → j ≢ k → find eq k ((j, v) ∷ xs) ≡ find eq k xs
  unfolding find
  find-miss j k v xs ne = if_neg (eq j k) ne _ _

  pub find-append :
      (k : K) (xs ys : List (K × V)) → find eq k (xs ++ ys) ≡ or_else (find eq k xs) (find eq k ys)
  unfolding find
  find-append k [] ys = refl
  find-append k ((j, v) ∷ xs) ys = ground (arith, find-append k xs ys)

  pub find_of_in :
      (k : K) (xs : List (K × V)) → In k (first_keys xs) → (v : V) × (find eq k xs ≡ some v)
  unfolding find
  find_of_in k [] h = absurd h
  find_of_in k ((j, v) ∷ xs) h = elim (eq j k) [
    | yes e ↦ (v, find-hit j k v xs e)
    | no ne ↦
        let later : In k (first_keys xs) = elim h [ inl e ↦ absurd (ne (sym e)) | inr i ↦ i ] in
        let (w, found) = find_of_in k xs later in (w, find-miss j k v xs ne ∙ found)
  ]

  pub find_of_not_in : (k : K) (xs : List (K × V)) → ¬ In k (first_keys xs) → find eq k xs ≡ none
  unfolding find
  find_of_not_in k [] h = refl
  find_of_not_in k ((j, v) ∷ xs) h =
      find-miss j k v xs (λ e. h (inl (sym e))) ∙ find_of_not_in k xs (λ i. h (inr i))

  pub in_of_find :
      (k : K) (v : V) (xs : List (K × V))
      → find eq k xs ≡ some v
      → In k (first_keys xs) × In (k, v) xs
  unfolding find
  in_of_find k v [] h = absurd (cc h)
  in_of_find k v ((j, w) ∷ xs) h = elim (eq j k) [
    | yes e ↦ (inl (sym e), inl (ground arith))
    | no ne ↦ let (i, l) = in_of_find k v xs (sym (find-miss j k w xs ne) ∙ h) in (inr i, inr l)
  ]

  pub or_else-none : (o : Option V) → or_else o none ≡ o
  or_else-none none = refl
  or_else-none (some v) = refl

  -- A new entry is found alike at the front and at the back.
  pub find-snoc :
      (k j : K) (v : V) (xs ys : List (K × V))
      → find eq k ys ≡ find eq k xs
      → ¬ In j (first_keys xs)
      → find eq k ((j, v) ∷ ys) ≡ find eq k (xs ++ (j, v) ∷ [])
  find-snoc k j v xs ys same new = elim (eq j k) [
    | yes e ↦
        let missing =
          find_of_not_in k xs (λ i. new (subst (λ z. In z (first_keys xs)) (sym e) i)) in
        find-hit j k v ys e
        ∙ sym (
            find-append k xs ((j, v) ∷ [])
            ∙ ap (λ o. or_else o (find eq k ((j, v) ∷ []))) missing
            ∙ find-hit j k v [] e)
    | no ne ↦
        find-miss j k v ys ne
        ∙ same
        ∙ sym (
            find-append k xs ((j, v) ∷ [])
            ∙ ap (or_else (find eq k xs)) (find-miss j k v [] ne ∙ find_of_not_in k [] (λ i. i))
            ∙ or_else-none (find eq k xs))
  ]

  pub emplace-new :
      (k : K) (v : V) (xs : List (K × V))
      → find eq k xs ≡ none
      → emplace eq k v xs ≡ ((k, v) ∷ xs, true)
  unfolding emplace
  emplace-new k v xs h = rw (h, emplace) refl

  pub emplace-old :
      (k : K) (v old : V) (xs : List (K × V))
      → find eq k xs ≡ some old
      → emplace eq k v xs ≡ (xs, false)
  unfolding emplace
  emplace-old k v old xs h = rw (h, emplace) refl
