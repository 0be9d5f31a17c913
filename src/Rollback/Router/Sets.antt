-- ===== src/Rollback/Router/Sets.antt =====
-- `std::unordered_set` and `std::unordered_map` with `insert`, `contains` and `erase`, as lists. The
-- router never observes the order of one.
pub mod Contents
use mathlib.Core.Logic.{ite, if_pos, if_neg}
use mathlib.Core.Path.{subst}
use mycore.Base.{
  ◌≡◌, ◌≢◌, refl, sym, ap, ◌∙◌, inl, inr, Option, none, some, List, [], ◌∷◌, ◌++◌, Bool, true,
  false, arith,
}
use mycore.Rollback.Keyed.{In, Distinct, dec_in, Distinct-snoc, find, first_keys}

module _ {K : Type 0} (eq : Discrete K) where
  unfoldable pub contains : K → List K → Bool
  contains k ks = elim (dec_in eq k ks) [ yes _ ↦ true | no _ ↦ false ]

  -- The set, and whether the key was new.
  unfoldable pub insert : K → List K → List K × Bool
  unfolding contains
  insert k ks = elim (contains k ks) [ true ↦ (ks, false) | false ↦ (ks ++ k ∷ [], true) ]

  unfoldable pub erase : K → List K → List K
  erase k [] = []
  erase k (j ∷ ks) = ite (eq j k) ks (j ∷ erase k ks)

module _ {K V : Type 0} (eq : Discrete K) where
  unfoldable pub erase_key : K → List (K × V) → List (K × V)
  erase_key k [] = []
  erase_key k ((j, v) ∷ entries) = ite (eq j k) entries ((j, v) ∷ erase_key k entries)

  -- A write through the iterator of an entry that is there.
  unfoldable pub assign : K → V → List (K × V) → List (K × V)
  assign k v [] = []
  assign k v ((j, w) ∷ entries) = ite (eq j k) ((j, v) ∷ entries) ((j, w) ∷ assign k v entries)
