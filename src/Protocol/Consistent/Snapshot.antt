-- ===== src/Protocol/Consistent/Snapshot.antt =====
-- A snapshot that passes the checks is consistent.
use native.Mathlib.Decide.{ℕ_discrete}
use mycore.Base.{ℕ, ◌≡◌, ap, ◌∙◌, inl, inr, some, List, [], ◌∷◌, true, false, arith}
use mycore.Base.Results.{value}
use mycore.Base.Chains.{Variant-cases}
use mycore.Rollback.Keyed.{find}
use mycore.Protocol.Float32.{FloatUnit}
use mycore.Protocol.Messages.{OwnerState, EntityState, FullSnapshot}
use mycore.Protocol.Validate.Snapshot.{
  is_strictly_sorted, OwnerIndex, EntityIndex, index_owners, validate_owners, index_entities,
  any_without_piece, validate_entities,
}
use mycore.Protocol.Validate.Session.{validate_full_snapshot}
use mycore.Protocol.Consistent.{All, IsAscending, HasOwner, IsOwned, HasPiece, sorted-IsAscending}
use mycore.Protocol.Consistent.Marks.{Holds}
use mycore.Protocol.Consistent.Loops.{
  index_owners-HasOwner, index_owners-Holds, index_owners-unmarked, index_entities-Holds,
  index_entities-HasPiece, index_entities-IsOwned, any_without_piece-marked,
}

abbrev owner_key : OwnerState → ℕ
owner_key owner = owner.owner_id

abbrev entity_key : EntityState → ℕ
entity_key entity = entity.entity_id

abbrev no_owners : OwnerIndex
no_owners = record { owners_by_id = []; owner_has_piece = [] }

abbrev no_entities : OwnerIndex → EntityIndex
no_entities owners = record {
  entities_by_id = [];
  prediction_keys = [];
  owner_has_piece = owners.owner_has_piece;
}

All-map :
    {A : Type 0} (P Q : A → Type 0) (xs : List A) → ((x : A) → P x → Q x) → All P xs → All Q xs
All-map P Q [] f h = tt
All-map P Q (x ∷ xs) f (first, later) = (f x first, All-map P Q xs f later)

validate_entities-value :
    (message : FullSnapshot) (owners : OwnerIndex) (r : EntityIndex)
    → validate_entities message owners ≡ value r
    → (is_strictly_sorted entity_key message.entities ≡ true)
      × (index_entities message.next_entity_id owners message.entities (no_entities owners)
          ≡ value r)
      × (any_without_piece r.owner_has_piece ≡ false)
unfolding validate_entities
validate_entities-value message owners r h =
    let loop = index_entities message.next_entity_id owners message.entities (no_entities owners) in
    elim (Variant-cases loop) [
      | inl (index, at) ↦ (ground arith, ground arith, ground arith)
      | inr (e, at) ↦ ground arith
    ]

not-found : {V : Type 0} (k : ℕ) (v : V) → ¬ (find ℕ_discrete k [] ≡ some v)
unfolding find
not-found k v h = cc h

module _ (unit : FloatUnit) where
  validate_owners-value :
      (message : FullSnapshot) (r : OwnerIndex)
      → validate_owners unit message ≡ value r
      → (is_strictly_sorted owner_key message.owners ≡ true)
        × (index_owners unit message.owners no_owners ≡ value r)
  unfolding validate_owners
  validate_owners-value message r h = (ground arith, ground arith)

  validate_full_snapshot-value :
      (message : FullSnapshot)
      → validate_full_snapshot unit message ≡ value tt
      → (owners : OwnerIndex) × (index : EntityIndex) × (validate_owners unit message
          ≡ value owners)
        × (validate_entities message owners ≡ value index)
  unfolding validate_full_snapshot
  validate_full_snapshot-value message h = elim (Variant-cases (validate_owners unit message)) [
    | inr (e, at) ↦ ground arith
    | inl (owners, at) ↦ elim (Variant-cases (validate_entities message owners)) [
      | inr (e, refused) ↦ ground arith
      | inl (index, there) ↦ (owners, index, at, there)
    ]
  ]

  module _ (message : FullSnapshot) (owners : OwnerIndex) (index : EntityIndex)
      (owners_loop : index_owners unit message.owners no_owners ≡ value owners)
      (entities_loop : index_entities message.next_entity_id owners message.entities
          (no_entities owners)
        ≡ value index) where
    listed-HasOwner :
        (entity : EntityState) (o : OwnerState)
        → find ℕ_discrete entity.owner_id owners.owners_by_id ≡ some o
        → HasOwner message.owners entity
    listed-HasOwner entity o at =
        let cases =
          index_owners-HasOwner unit message.owners no_owners owners entity o owners_loop at in
        elim cases [
          | inl before ↦ absurd (not-found entity.owner_id o before)
          | inr listed ↦ listed
        ]

    held-HasPiece :
        any_without_piece index.owner_has_piece ≡ false
        → (owner : OwnerState) → Holds owner.owner_id owners.owner_has_piece
        → HasPiece message.entities owner
    held-HasPiece all_marked owner held =
        let start = no_entities owners in
        let k = owner.owner_id in
        let (b, at) =
          index_entities-Holds message.next_entity_id owners message.entities start index k
            entities_loop held in
        let marked = any_without_piece-marked index.owner_has_piece k b all_marked at in
        let cases =
          index_entities-HasPiece message.next_entity_id owners message.entities start index owner
            entities_loop (at ∙ ap some marked) in
        elim cases [
          | inr piece ↦ piece
          | inl early ↦
              let earlier =
                index_owners-unmarked unit message.owners no_owners owners k owners_loop early in
              absurd (not-found k true earlier)
        ]

  -- A snapshot that passes the checks lists its owners and its entities each once, in ascending
  -- order, has the owner of each player's piece, and a piece of each owner.
  pub validate_full_snapshot-IsConsistent :
      (message : FullSnapshot)
      → validate_full_snapshot unit message ≡ value tt
      → IsAscending owner_key message.owners
        × IsAscending entity_key message.entities
        × All (IsOwned message.owners) message.entities
        × All (HasPiece message.entities) message.owners
  validate_full_snapshot-IsConsistent message h =
      let (owners, index, owned, entered) = validate_full_snapshot-value message h in
      let (owners_sorted, owners_loop) = validate_owners-value message owners owned in
      let (entities_sorted, entities_loop, all_marked) =
        validate_entities-value message owners index entered in
      (
        sorted-IsAscending owner_key message.owners owners_sorted,
        sorted-IsAscending entity_key message.entities entities_sorted,
        index_entities-IsOwned message.next_entity_id owners message.owners message.entities
            (no_entities owners) index
            (listed-HasOwner message owners index owners_loop entities_loop) entities_loop,
        All-map _ _ message.owners
            (held-HasPiece message owners index owners_loop entities_loop all_marked)
            (index_owners-Holds unit message.owners no_owners owners owners_loop).1,
      )
