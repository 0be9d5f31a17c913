-- ===== src/Network/Slots.antt =====
-- What a write at a place of a list, or under a key of a map, leaves to be read.
use native.Mathlib.Decide.{ℕ_discrete}
use mycore.Base.{
  ℕ, zero, suc, ◌≡◌, refl, sym, ap, ◌∙◌, some, List, [], ◌∷◌, ◌++◌, true, ltb, ◌==◌, if◌then◌else◌,
  length, get_elem?, arith,
}
use mycore.Rollback.Keyed.{find, find-hit, find-miss}
use mycore.Rollback.Router.Sets.{assign}
use mycore.Rollback.Router.Sets.Contents.{find-assign_other, find-assign_self}
use mycore.Network.{put}

module _ {A : Type 0} where
  pub length-put : (xs : List A) (i : ℕ) (a : A) → length (put xs i a) ≡ length xs
  unfolding put
  length-put [] i a = refl
  length-put (x ∷ xs) zero a = refl
  length-put (x ∷ xs) (suc i) a = ap suc (length-put xs i a)

  pub get_elem?-put :
      (xs : List A) (i j : ℕ) (a : A)
      → ltb i (length xs) ≡ true
      → get_elem? (put xs i a) j ≡ (if i == j then some a else get_elem? xs j)
  unfolding put
  get_elem?-put [] i j a h = ground arith
  get_elem?-put (x ∷ xs) zero zero a h = refl
  get_elem?-put (x ∷ xs) zero (suc j) a h = ground arith
  get_elem?-put (x ∷ xs) (suc i) zero a h = ground arith
  get_elem?-put (x ∷ xs) (suc i) (suc j) a h =
      let later = get_elem?-put xs i j a (ground arith) in ground arith

  pub get_elem?-snoc :
      (xs : List A) (j : ℕ) (a : A)
      → get_elem? (xs ++ a ∷ []) j ≡ (if j == length xs then some a else get_elem? xs j)
  get_elem?-snoc [] zero a = refl
  get_elem?-snoc [] (suc j) a = ground arith
  get_elem?-snoc (x ∷ xs) zero a = ground arith
  get_elem?-snoc (x ∷ xs) (suc j) a = let later = get_elem?-snoc xs j a in ground arith

if_eq : {A : Type 0} (k : ℕ) (x y : A) → (if k == k then x else y) ≡ x
if_eq k x y = ground arith

module _ {V : Type 0} where
  pub find-cons :
      (h k : ℕ) (v : V) (xs : List (ℕ × V))
      → find ℕ_discrete h ((k, v) ∷ xs) ≡ (if h == k then some v else find ℕ_discrete h xs)
  find-cons h k v xs = elim (ℕ_discrete k h) [
    | yes e ↦ let hit = find-hit ℕ_discrete k h v xs e in ground arith
    | no ne ↦ let miss = find-miss ℕ_discrete k h v xs ne in ground arith
  ]

  pub find-assign :
      (h k : ℕ) (v w : V) (xs : List (ℕ × V))
      → find ℕ_discrete k xs ≡ some w
      → find ℕ_discrete h (assign ℕ_discrete k v xs)
        ≡ (if h == k then some v else find ℕ_discrete h xs)
  find-assign h k v w xs at = elim (ℕ_discrete h k) [
    | yes e ↦
        let self = find-assign_self ℕ_discrete k v w xs at in
        rw (e) (self ∙ sym (if_eq k (some v) (find ℕ_discrete k xs)))
    | no ne ↦ let other = find-assign_other ℕ_discrete h k v xs (λ e. ne (sym e)) in ground arith
  ]
