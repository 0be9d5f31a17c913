-- ===== src/Protocol/Consistent/Loops.antt =====
-- The loops over the owners and over the entities, by what they leave in the indices.
use native.Mathlib.Decide.{ℕ_discrete}
use mycore.Base.{
  ℕ, ◌≡◌, sym, ap, ◌∙◌, ◌⊎◌, inl, inr, some, List, [], ◌∷◌, Bool, true, false, ◌==◌, if◌then◌else◌,
  arith, Bool-cases,
}
use mycore.Base.Results.{value}
use mycore.Rollback.Keyed.{find, find-hit, find-miss}
use mycore.Protocol.Float32.{FloatUnit}
use mycore.Protocol.Messages.{OwnerState, EntityState}
use mycore.Protocol.Validate.Snapshot.{
  OwnerIndex, EntityIndex, index_owners, check_piece, check_food, index_entities, any_without_piece,
}
use mycore.Protocol.Consistent.{
  All, HasOwner, IsOwned, HasPiece, with_owner, index_owners-cons, check_piece-value,
  check_food-value, index_entities-cons,
}
use mycore.Protocol.Consistent.Marks.{
  Holds, find-emplace, emplace-Holds_self, emplace-Holds, assign-Holds, find-assign_cases,
}

module _ (unit : FloatUnit) where
  pub index_owners-HasOwner :
      (owners : List OwnerState) (index r : OwnerIndex) (entity : EntityState) (o : OwnerState)
      → index_owners unit owners index ≡ value r
      → find ℕ_discrete entity.owner_id r.owners_by_id ≡ some o
      → (find ℕ_discrete entity.owner_id index.owners_by_id ≡ some o) ⊎ HasOwner owners entity
  unfolding index_owners
  index_owners-HasOwner [] index r entity o h at = inl (ground arith)
  index_owners-HasOwner (owner ∷ owners) index r entity o h at =
      let rest = index_owners-cons unit owner owners index r h in
      elim (index_owners-HasOwner owners (with_owner owner index) r entity o rest at) [
        | inr later ↦ inr (inr later)
        | inl early ↦
            elim (find-emplace owner.owner_id owner index.owners_by_id entity.owner_id o early) [
              | inl before ↦ inl before
              | inr (e, same) ↦ inr (inl e)
            ]
      ]

  pub index_owners-Holds :
      (owners : List OwnerState) (index r : OwnerIndex)
      → index_owners unit owners index ≡ value r
      → ((k : ℕ) → Holds k index.owner_has_piece → Holds k r.owner_has_piece)
        × All (λ owner. Holds owner.owner_id r.owner_has_piece) owners
  unfolding index_owners
  index_owners-Holds [] index r h = (λ k held. (held.0, ground arith), tt)
  index_owners-Holds (owner ∷ owners) index r h =
      let rest = index_owners-cons unit owner owners index r h in
      let (keeps, later) = index_owners-Holds owners (with_owner owner index) r rest in
      (
        λ k held. keeps k (emplace-Holds owner.owner_id false index.owner_has_piece k held),
        (
          keeps owner.owner_id (emplace-Holds_self owner.owner_id false index.owner_has_piece),
          later,
        ),
      )

  pub index_owners-unmarked :
      (owners : List OwnerState) (index r : OwnerIndex) (k : ℕ)
      → index_owners unit owners index ≡ value r
      → find ℕ_discrete k r.owner_has_piece ≡ some true
      → find ℕ_discrete k index.owner_has_piece ≡ some true
  unfolding index_owners
  index_owners-unmarked [] index r k h at = ground arith
  index_owners-unmarked (owner ∷ owners) index r k h at =
      let rest = index_owners-cons unit owner owners index r h in
      let early = index_owners-unmarked owners (with_owner owner index) r k rest at in
      elim (find-emplace owner.owner_id false index.owner_has_piece k true early) [
        | inl before ↦ before
        | inr (e, same) ↦ absurd (cc same)
      ]

module _ (next : ℕ) (owners : OwnerIndex) where
  -- A round of the loop over the entities keeps the keys of the marks, and marks no owner but the
  -- piece's.
  kept-marks :
      (entity : EntityState) (index m : EntityIndex) (k : ℕ)
      → (if entity.kind == 1 then check_piece owners entity index else check_food entity index)
        ≡ value m
      → (Holds k index.owner_has_piece → Holds k m.owner_has_piece)
        × (find ℕ_discrete k m.owner_has_piece ≡ some true
            → (find ℕ_discrete k index.owner_has_piece ≡ some true)
              ⊎ ((entity.kind ≡ 1) × (entity.owner_id ≡ k)))
  kept-marks entity index m k h = elim (Bool-cases (entity.kind == 1)) [
    | inl player ↦
        let (owner, at, marks) = check_piece-value owners entity index m (ground arith) in
        (
          λ held. rw (marks) (assign-Holds entity.owner_id true index.owner_has_piece k held),
          λ found.
              elim (find-assign_cases entity.owner_id true index.owner_has_piece k true
                (ap (find ℕ_discrete k) (sym marks) ∙ found)) [
                  | inl before ↦ inl before
                  | inr e ↦ inr (ground arith, e)
                ],
        )
    | inr food ↦
        let same = check_food-value entity index m (ground arith) in
        (λ held. rw (same) held, λ found. inl (ap (find ℕ_discrete k) (sym same) ∙ found))
  ]

  pub index_entities-Holds :
      (entities : List EntityState) (index r : EntityIndex) (k : ℕ)
      → index_entities next owners entities index ≡ value r
      → Holds k index.owner_has_piece
      → Holds k r.owner_has_piece
  unfolding index_entities
  index_entities-Holds [] index r k h held = (held.0, ground arith)
  index_entities-Holds (entity ∷ entities) index r k h held =
      let (m, kept, rest) = index_entities-cons next owners entity entities index r h in
      index_entities-Holds entities _ r k rest ((kept-marks entity index m k kept).0 held)

  pub index_entities-HasPiece :
      (entities : List EntityState) (index r : EntityIndex) (owner : OwnerState)
      → index_entities next owners entities index ≡ value r
      → find ℕ_discrete owner.owner_id r.owner_has_piece ≡ some true
      → (find ℕ_discrete owner.owner_id index.owner_has_piece ≡ some true) ⊎ HasPiece entities owner
  unfolding index_entities
  index_entities-HasPiece [] index r owner h at = inl (ground arith)
  index_entities-HasPiece (entity ∷ entities) index r owner h at =
      let (m, kept, rest) = index_entities-cons next owners entity entities index r h in
      elim (index_entities-HasPiece entities _ r owner rest at) [
        | inr later ↦ inr (inr later)
        | inl early ↦ elim ((kept-marks entity index m owner.owner_id kept).1 early) [
          | inl before ↦ inl before
          | inr piece ↦ inr (inl piece)
        ]
      ]

  pub index_entities-IsOwned :
      (listed : List OwnerState) (entities : List EntityState) (index r : EntityIndex)
      → ((entity : EntityState) (o : OwnerState)
          → find ℕ_discrete entity.owner_id owners.owners_by_id ≡ some o
          → HasOwner listed entity)
      → index_entities next owners entities index ≡ value r
      → All (IsOwned listed) entities
  index_entities-IsOwned listed [] index r known h = tt
  index_entities-IsOwned listed (entity ∷ entities) index r known h =
      let (m, kept, rest) = index_entities-cons next owners entity entities index r h in
      (
        elim (Bool-cases (entity.kind == 1)) [
          | inl player ↦
              let (owner, at, marks) = check_piece-value owners entity index m (ground arith) in
              rw (player) (known entity owner at)
          | inr food ↦ rw (food) tt
        ],
        index_entities-IsOwned listed entities _ r known rest,
      )

pub any_without_piece-marked :
    (marks : List (ℕ × Bool)) (k : ℕ) (b : Bool)
    → any_without_piece marks ≡ false
    → find ℕ_discrete k marks ≡ some b
    → b ≡ true
unfolding find
any_without_piece-marked [] k b h at = absurd (cc at)
any_without_piece-marked ((j, true) ∷ marks) k b h at = elim (ℕ_discrete j k) [
  | yes e ↦ cc (at, find-hit ℕ_discrete j k true marks e)
  | no ne ↦ any_without_piece-marked marks k b h (sym (find-miss ℕ_discrete j k true marks ne) ∙ at)
]
any_without_piece-marked ((j, false) ∷ marks) k b h at = absurd (cc h)
