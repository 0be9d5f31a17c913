-- ===== src/Rollback/Router/Sets/Contents.antt =====
-- What `insert`, `erase` and a write through an iterator leave in a set and in a map.
use mathlib.Core.Logic.{if_pos, if_neg}
use mathlib.Core.Path.{subst}
use mycore.Base.{
  ◌≡◌, ◌≢◌, refl, sym, ap, ◌∙◌, inl, inr, none, some, List, [], ◌∷◌, ◌++◌, true, false, arith,
}
use mycore.Rollback.Keyed.{
  In, Distinct, dec_in, in-append, in-append_left, in-append_right, find, find-miss, find_of_not_in,
  first_keys,
}
use mycore.Rollback.Router.Sets.{contains, insert, erase, erase_key, assign}

module _ {K : Type 0} (eq : Discrete K) where
  pub in_of_contains : (k : K) (ks : List K) → contains eq k ks ≡ true → In k ks
  unfolding contains
  in_of_contains k ks h =
      elim (dec_in eq k ks) as (λ d. elim d [ yes _ ↦ true | no _ ↦ false ] ≡ true → In k ks) [
        | yes i ↦ λ _. i
        | no _ ↦ λ e. absurd (cc e)
      ]
        h

  pub contains_of_in : (k : K) (ks : List K) → In k ks → contains eq k ks ≡ true
  unfolding contains
  contains_of_in k ks i =
      elim (dec_in eq k ks) as (λ d. elim d [ yes _ ↦ true | no _ ↦ false ] ≡ true) [
        | yes _ ↦ refl
        | no n ↦ absurd (n i)
      ]

  contains_of_not_in : (k : K) (ks : List K) → ¬ In k ks → contains eq k ks ≡ false
  unfolding contains
  contains_of_not_in k ks n =
      elim (dec_in eq k ks) as (λ d. elim d [ yes _ ↦ true | no _ ↦ false ] ≡ false) [
        | yes i ↦ absurd (n i)
        | no _ ↦ refl
      ]

  -- Two sets that agree on `k`.
  contains_of_iff :
      (k : K) (ks ls : List K)
      → (In k ks → In k ls)
      → (In k ls → In k ks)
      → contains eq k ks ≡ contains eq k ls
  contains_of_iff k ks ls to from = elim (dec_in eq k ks) [
    | yes i ↦ contains_of_in k ks i ∙ sym (contains_of_in k ls (to i))
    | no n ↦ contains_of_not_in k ks n ∙ sym (contains_of_not_in k ls (λ i. n (from i)))
  ]

  pub contains-snoc_self : (k : K) (ks : List K) → contains eq k (ks ++ k ∷ []) ≡ true
  contains-snoc_self k ks =
      contains_of_in k (ks ++ k ∷ []) (in-append_right k ks (k ∷ []) (inl refl))

  pub contains-snoc_other :
      (k j : K) (ks : List K) → j ≢ k → contains eq k (ks ++ j ∷ []) ≡ contains eq k ks
  contains-snoc_other k j ks ne =
      contains_of_iff k (ks ++ j ∷ []) ks
        (λ i. elim (in-append k ks (j ∷ []) i) [
          | inl old ↦ old
          | inr new ↦ elim new [ inl e ↦ absurd (ne (sym e)) | inr left ↦ absurd left ]
        ])
        (in-append_left k ks (j ∷ []))

  pub insert-old : (k : K) (ks : List K) → contains eq k ks ≡ true → insert eq k ks ≡ (ks, false)
  unfolding insert
  insert-old k ks h = rw (h, insert) refl

  pub insert-new :
      (k : K) (ks : List K) → contains eq k ks ≡ false → insert eq k ks ≡ (ks ++ k ∷ [], true)
  unfolding insert
  insert-new k ks h = rw (h, insert) refl

  pub in-erase : (k j : K) (ks : List K) → In k (erase eq j ks) → In k ks
  unfolding erase
  in-erase k j [] i = i
  in-erase k j (l ∷ ks) i = elim (eq l j) [
    | yes e ↦ inr (subst (In k) (if_pos (eq l j) e _ _) i)
    | no ne ↦ elim (subst (In k) (if_neg (eq l j) ne _ _) i) [
      | inl e ↦ inl e
      | inr later ↦ inr (in-erase k j ks later)
    ]
  ]

  in-erase_other : (k j : K) (ks : List K) → j ≢ k → In k ks → In k (erase eq j ks)
  unfolding erase
  in-erase_other k j [] ne i = i
  in-erase_other k j (l ∷ ks) ne (inl e) =
      subst (In k) (sym (if_neg (eq l j) (λ at. ne (sym at ∙ sym e)) _ _)) (inl e)
  in-erase_other k j (l ∷ ks) ne (inr i) = elim (eq l j) [
    | yes e ↦ subst (In k) (sym (if_pos (eq l j) e _ _)) i
    | no nl ↦ subst (In k) (sym (if_neg (eq l j) nl _ _)) (inr (in-erase_other k j ks ne i))
  ]

  pub contains-erase_other :
      (k j : K) (ks : List K) → j ≢ k → contains eq k (erase eq j ks) ≡ contains eq k ks
  contains-erase_other k j ks ne =
      contains_of_iff k (erase eq j ks) ks (in-erase k j ks) (in-erase_other k j ks ne)

module _ {K V : Type 0} (eq : Discrete K) where
  pub first_keys-assign :
      (j : K) (v : V) (es : List (K × V)) → first_keys (assign eq j v es) ≡ first_keys es
  unfolding assign
  first_keys-assign j v [] = refl
  first_keys-assign j v ((l, w) ∷ es) = ground (arith, first_keys-assign j v es)

  pub find-assign_other :
      (k j : K) (v : V) (es : List (K × V)) → j ≢ k → find eq k (assign eq j v es) ≡ find eq k es
  unfolding assign find
  find-assign_other k j v [] ne = refl
  find-assign_other k j v ((l, w) ∷ es) ne = ground (arith, find-assign_other k j v es ne)

  pub find-assign_self :
      (k : K) (v w : V) (es : List (K × V))
      → find eq k es ≡ some w
      → find eq k (assign eq k v es) ≡ some v
  unfolding assign find
  find-assign_self k v w [] h = absurd (cc h)
  find-assign_self k v w ((l, u) ∷ es) h = ground (arith, find-assign_self k v w es)

  in-erase_key :
      (k j : K) (es : List (K × V)) → In k (first_keys (erase_key eq j es)) → In k (first_keys es)
  unfolding erase_key
  in-erase_key k j [] i = i
  in-erase_key k j ((l, w) ∷ es) i = elim (eq l j) [
    | yes e ↦ inr (subst (λ (z : List (K × V)). In k (first_keys z)) (if_pos (eq l j) e _ _) i)
    | no ne ↦ elim (subst (λ (z : List (K × V)). In k (first_keys z)) (if_neg (eq l j) ne _ _) i) [
      | inl e ↦ inl e
      | inr later ↦ inr (in-erase_key k j es later)
    ]
  ]

  pub Distinct-erase_key :
      (j : K) (es : List (K × V))
      → Distinct (first_keys es)
      → Distinct (first_keys (erase_key eq j es))
  unfolding erase_key
  Distinct-erase_key j [] d = d
  Distinct-erase_key j ((l, w) ∷ es) d = elim (eq l j) [
    | yes e ↦
        subst (λ (z : List (K × V)). Distinct (first_keys z)) (sym (if_pos (eq l j) e _ _)) d.1
    | no ne ↦
        subst (λ (z : List (K × V)). Distinct (first_keys z)) (sym (if_neg (eq l j) ne _ _))
          (λ i. d.0 (in-erase_key l j es i), Distinct-erase_key j es d.1)
  ]

  pub find-erase_key_other :
      (k j : K) (es : List (K × V)) → j ≢ k → find eq k (erase_key eq j es) ≡ find eq k es
  unfolding erase_key find
  find-erase_key_other k j [] ne = refl
  find-erase_key_other k j ((l, w) ∷ es) ne = ground (arith, find-erase_key_other k j es ne)

  pub find-erase_key_self :
      (k : K) (es : List (K × V)) → Distinct (first_keys es) → find eq k (erase_key eq k es) ≡ none
  unfolding erase_key
  find-erase_key_self k [] d = find_of_not_in eq k [] (λ i. i)
  find-erase_key_self k ((l, w) ∷ es) d = elim (eq l k) [
    | yes e ↦
        ap (find eq k) (if_pos (eq l k) e _ _)
        ∙ find_of_not_in eq k es (λ i. d.0 (subst (λ z. In z (first_keys es)) (sym e) i))
    | no ne ↦
        ap (find eq k) (if_neg (eq l k) ne _ _)
        ∙ find-miss eq l k w _ ne
        ∙ find-erase_key_self k es d.1
  ]
