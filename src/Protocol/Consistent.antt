-- ===== src/Protocol/Consistent.antt =====
-- codec.cpp: what `validate` of a snapshot promises of its owners and its entities.
pub mod Marks
pub mod Loops
pub mod Snapshot
use native.Mathlib.Decide.{ℕ_discrete}
use mycore.Base.{
  ℕ, ◌<◌, ◌≡◌, refl, ap, ◌∙◌, ◌⊎◌, inl, inr, Option, none, some, List, [], ◌∷◌, Bool, true, false,
  ltb, ◌==◌, ◌&&◌, if◌then◌else◌, arith, Option-cases,
}
use mycore.Base.Results.{value}
use mycore.Base.Chains.{then-value, Variant-cases}
use mycore.Rollback.Keyed.{In, find, emplace}
use mycore.Rollback.Router.Sets.{assign}
use mycore.Protocol.Float32.{FloatUnit}
use mycore.Protocol.Messages.{CodecError, OwnerState, EntityState, FullSnapshot}
use mycore.Protocol.Validate.Snapshot.{
  is_strictly_sorted, OwnerIndex, EntityIndex, index_owners, check_prediction_key, check_piece,
  check_food, index_entities,
}

-- The property holds of each element.
abbrev pub All : {A : Type 0} → (A → Type 0) → List A → Type 0
All P [] = Unit
All P (x ∷ xs) = P x × All P xs

abbrev pub IsAscending : {A : Type 0} → (A → ℕ) → List A → Type 0
IsAscending key [] = Unit
IsAscending key (x ∷ xs) = All (λ y. key x < key y) xs × IsAscending key xs

abbrev pub HasOwner : List OwnerState → EntityState → Type 0
HasOwner [] entity = ⊥
HasOwner (owner ∷ owners) entity = (owner.owner_id ≡ entity.owner_id) ⊎ HasOwner owners entity

-- A piece of a player has an owner among these.
abbrev pub IsOwned : List OwnerState → EntityState → Type 0
IsOwned owners entity = if entity.kind == 1 then HasOwner owners entity else Unit

abbrev pub HasPiece : List EntityState → OwnerState → Type 0
HasPiece [] owner = ⊥
HasPiece (entity ∷ entities) owner =
    ((entity.kind ≡ 1) × (entity.owner_id ≡ owner.owner_id)) ⊎ HasPiece entities owner

module _ {A : Type 0} (key : A → ℕ) where
  above : (a : ℕ) (xs : List A) (b : ℕ) → a < b → All (λ y. b < key y) xs → All (λ y. a < key y) xs
  above a [] b h all = tt
  above a (x ∷ xs) b h (first, later) = (omega arith, above a xs b h later)

  pub sorted-IsAscending : (xs : List A) → is_strictly_sorted key xs ≡ true → IsAscending key xs
  unfolding is_strictly_sorted
  sorted-IsAscending [] h = tt
  sorted-IsAscending (x ∷ []) h = (tt, tt)
  sorted-IsAscending (x ∷ y ∷ ys) h =
      let later = sorted-IsAscending (y ∷ ys) (ground arith) in
      let step : key x < key y = ground arith in
      ((step, above (key x) ys (key y) step later.0), later)

abbrev pub with_owner : OwnerState → OwnerIndex → OwnerIndex
with_owner owner index = record {
  owners_by_id = (emplace ℕ_discrete owner.owner_id owner index.owners_by_id).0;
  owner_has_piece = (emplace ℕ_discrete owner.owner_id false index.owner_has_piece).0;
}

pub index_owners-cons :
    (unit : FloatUnit) (owner : OwnerState) (owners : List OwnerState) (index r : OwnerIndex)
    → index_owners unit (owner ∷ owners) index ≡ value r
    → index_owners unit owners (with_owner owner index) ≡ value r
unfolding index_owners
index_owners-cons unit owner owners index r h = (then-value _ _ r (then-value _ _ r h).1).1

pub check_piece-value :
    (owners : OwnerIndex) (entity : EntityState) (index r : EntityIndex)
    → check_piece owners entity index ≡ value r
    → (owner : OwnerState) × (find ℕ_discrete entity.owner_id owners.owners_by_id ≡ some owner)
      × (r.owner_has_piece ≡ assign ℕ_discrete entity.owner_id true index.owner_has_piece)
unfolding check_piece
check_piece-value owners entity index r h =
    elim (Option-cases (find ℕ_discrete entity.owner_id owners.owners_by_id)) [
      | inl missing ↦ ground arith
      | inr (owner, at) ↦
          let checked =
            check_prediction_key entity owner entity.prediction_key index.prediction_keys in
          elim (Variant-cases checked) [
            | inl (keys, passed) ↦ (owner, at, ground arith)
            | inr (e, failed) ↦ ground arith
          ]
    ]

pub check_food-value :
    (entity : EntityState) (index r : EntityIndex)
    → check_food entity index ≡ value r
    → r.owner_has_piece ≡ index.owner_has_piece
unfolding check_food
check_food-value entity index r h = ground arith

pub index_entities-cons :
    (next : ℕ) (owners : OwnerIndex) (entity : EntityState) (entities : List EntityState)
    (index r : EntityIndex)
    → index_entities next owners (entity ∷ entities) index ≡ value r
    → (m : EntityIndex) × ((if entity.kind == 1
          then check_piece owners entity index
          else check_food entity index)
        ≡ value m)
      × (index_entities next owners entities (record m {
        entities_by_id = (emplace ℕ_discrete entity.entity_id entity m.entities_by_id).0;
      })
          ≡ value r)
unfolding index_entities
index_entities-cons next owners entity entities index r h =
    let kept =
      if entity.kind == 1 then check_piece owners entity index else check_food entity index in
    elim (Variant-cases kept) [
      | inl (m, passed) ↦ (m, passed, ground arith)
      | inr (e, failed) ↦ ground arith
    ]
