-- ===== src/Protocol/Validate/Snapshot.antt =====
-- codec.cpp: `validate` of a snapshot, a step for each part of it.
use native.Mathlib.Decide.{ℕ_discrete}
use mycore.Base.{
  ℕ, Option, none, some, List, [], ◌∷◌, Bool, true, false, not, ◌&&◌, ◌||◌, ltb, leb, ◌==◌,
  if◌then◌else◌, length, has_value,
}
use mycore.Base.Results.{Variant, value, error}
use mycore.Base.Chains.{◌>>=◌, ◌>>◌, refuse}
use mycore.Rollback.Keyed.{find, emplace}
use mycore.Rollback.Router.Sets.{insert, assign}
use mycore.Protocol.Float32.{is_finite, le_float, ne_float, zero_float, FloatUnit}
use mycore.Protocol.Messages
use mycore.Protocol.Messages.{
  u32_max, valid_id, maximum_pending_input_count, input_receive_window,
  maximum_authority_receipts_per_snapshot, input_receive_through_for, CodecError, PredictionKey,
  OwnerState, EntityState, PlayerAbsorbed, AuthorityEvent, food_consumed, player_absorbed,
  player_split, pieces_merged, AuthorityReceipt, FullSnapshot,
}
use mycore.Protocol.Validate.{
  Check, any_of, known_entity_kind, known_session_mode, known_respawn_result, valid_movement,
  validate_absorption,
}

-- `is_strictly_sorted`, on the projected values.
unfoldable pub is_strictly_sorted : {A : Type 0} → (A → ℕ) → List A → Bool
is_strictly_sorted key [] = true
is_strictly_sorted key (x ∷ []) = true
is_strictly_sorted key (x ∷ y ∷ ys) = ltb (key x) (key y) && is_strictly_sorted key (y ∷ ys)

unfoldable pub validate_input_window : FullSnapshot → Check
validate_input_window message =
    if valid_id message.input_receive_through
    then refuse
        (not (
            message.input_receive_through
            == input_receive_through_for message.last_processed_input_id)
          || ltb input_receive_window message.pending_input_count)
        CodecError.invalid_input_ordering
    else refuse (not (message.pending_input_count == 0)) CodecError.invalid_input_ordering

-- The numbers of the parts.
unfoldable pub validate_counts : FullSnapshot → Check
validate_counts message = do
  refuse (not (valid_id message.snapshot_id)) CodecError.invalid_id
  refuse (ltb maximum_pending_input_count message.pending_input_count) CodecError.out_of_range
  validate_input_window message
  refuse (not (message.checkpoint_schema_id == Messages.checkpoint_schema_id))
      CodecError.invalid_checkpoint
  refuse
      (any_of (
        ltb 65535 (length message.entities)
        ∷ ltb 65535 (length message.recipient.owned_entity_ids)
        ∷ ltb 65535 (length message.owners)
        ∷ []))
      CodecError.too_many_entities
  refuse (ltb maximum_authority_receipts_per_snapshot (length message.authority_receipts))
      CodecError.too_many_receipts

abbrev pub invalid_optional_tick : Option ℕ → Bool
invalid_optional_tick none = false
invalid_optional_tick (some tick) = tick == u32_max

-- An absorption, if there is one.
abbrev pub check_some : {A : Type 0} → (A → Check) → Option A → Check
check_some check none = value tt
check_some check (some a) = check a

unfoldable pub validate_recipient : FullSnapshot → Check
validate_recipient message =
    let recipient = message.recipient in
    let has_respawn_request = valid_id recipient.latest_respawn_request_id in
    do
      refuse
          (not (known_session_mode recipient.mode)
            || not (known_respawn_result recipient.latest_respawn_result))
          CodecError.invalid_enum
      refuse
          (invalid_optional_tick recipient.defeat_tick
            || invalid_optional_tick recipient.respawn_available_tick)
          CodecError.out_of_range
      refuse
          (if has_respawn_request
            then recipient.latest_respawn_result == 0
            else not (recipient.latest_respawn_result == 0))
          CodecError.invalid_id
      refuse
          (has_respawn_request
            && (not (valid_id message.last_processed_input_id)
                || ltb message.last_processed_input_id recipient.latest_respawn_request_id))
          CodecError.invalid_input_ordering
      check_some (λ event. validate_absorption event message.server_tick)
          recipient.latest_absorption

-- `owners_by_id` and `owner_has_piece`.
pub record OwnerIndex : Type 0 where
  pub owners_by_id : List (ℕ × OwnerState)
  pub owner_has_piece : List (ℕ × Bool)

unfoldable pub index_owners :
    FloatUnit → List OwnerState → OwnerIndex → Variant CodecError OwnerIndex
index_owners unit [] index = value index
index_owners unit (owner ∷ owners) index = do
  refuse (not (valid_id owner.owner_id)) CodecError.invalid_id
  refuse
      (not (valid_movement unit owner.movement_x owner.movement_y)
        || not (valid_movement unit owner.last_non_zero_movement_x owner.last_non_zero_movement_y))
      CodecError.out_of_range
  index_owners unit owners (record {
    owners_by_id = (emplace ℕ_discrete owner.owner_id owner index.owners_by_id).0;
    owner_has_piece = (emplace ℕ_discrete owner.owner_id false index.owner_has_piece).0;
  })

unfoldable pub validate_owners : FloatUnit → FullSnapshot → Variant CodecError OwnerIndex
validate_owners unit message = do
  refuse (not (is_strictly_sorted (λ (owner : OwnerState). owner.owner_id) message.owners))
      CodecError.duplicate_owner
  index_owners unit message.owners (record { owners_by_id = []; owner_has_piece = [] })

-- `entities_by_id`, `prediction_keys` and `owner_has_piece`.
pub record EntityIndex : Type 0 where
  pub entities_by_id : List (ℕ × EntityState)
  pub prediction_keys : List PredictionKey
  pub owner_has_piece : List (ℕ × Bool)

unfoldable pub PredictionKey-discrete : Discrete PredictionKey
PredictionKey-discrete = hlevel ℕ_discrete

-- The prediction key of a piece of the owner.
unfoldable pub check_prediction_key :
    EntityState
    → OwnerState
    → Option PredictionKey
    → List PredictionKey
    → Variant CodecError (List PredictionKey)
check_prediction_key entity owner none keys = value keys
check_prediction_key entity owner (some key) keys =
    let (keys', is_new) = insert PredictionKey-discrete key keys in
    do
      refuse
          (any_of (
            not (valid_id key.owner_id)
            ∷ not (valid_id key.input_id)
            ∷ not (key.owner_id == entity.owner_id)
            ∷ not (valid_id owner.last_input_id)
            ∷ ltb owner.last_input_id key.input_id
            ∷ not is_new
            ∷ []))
          CodecError.invalid_checkpoint
      value keys'

-- A player's piece: its owner is there, and is marked.
unfoldable pub check_piece : OwnerIndex → EntityState → EntityIndex → Variant CodecError EntityIndex
check_piece owners entity index = elim (find ℕ_discrete entity.owner_id owners.owners_by_id) [
  | none ↦ error CodecError.invalid_id
  | some owner ↦ do
    refuse (not (valid_id entity.owner_id)) CodecError.invalid_id
    keys ← check_prediction_key entity owner entity.prediction_key index.prediction_keys
    value (record index {
      prediction_keys = keys;
      owner_has_piece = assign ℕ_discrete entity.owner_id true index.owner_has_piece;
    })
]

unfoldable pub check_food : EntityState → EntityIndex → Variant CodecError EntityIndex
check_food entity index = do
  refuse
      (any_of (
        valid_id entity.owner_id
        ∷ ne_float entity.launch_velocity_x zero_float
        ∷ ne_float entity.launch_velocity_y zero_float
        ∷ not (entity.merge_eligible_tick == 0)
        ∷ has_value entity.prediction_key
        ∷ []))
      CodecError.invalid_checkpoint
  value index

-- The loop over the entities.
unfoldable pub index_entities :
    ℕ → OwnerIndex → List EntityState → EntityIndex → Variant CodecError EntityIndex
index_entities next_entity_id owners [] index = value index
index_entities next_entity_id owners (entity ∷ entities) index = do
  refuse (not (valid_id entity.entity_id)) CodecError.invalid_id
  refuse (valid_id next_entity_id && leb next_entity_id entity.entity_id)
      CodecError.invalid_checkpoint
  refuse (not (known_entity_kind entity.kind)) CodecError.invalid_enum
  refuse
      (any_of (
        not (is_finite entity.position_x)
        ∷ not (is_finite entity.position_y)
        ∷ not (is_finite entity.mass)
        ∷ not (is_finite entity.launch_velocity_x)
        ∷ not (is_finite entity.launch_velocity_y)
        ∷ []))
      CodecError.invalid_number
  refuse (le_float entity.mass zero_float) CodecError.out_of_range
  index' ← (if entity.kind == 1 then check_piece owners entity index else check_food entity index)
  index_entities next_entity_id owners entities (record index' {
    entities_by_id = (emplace ℕ_discrete entity.entity_id entity index'.entities_by_id).0;
  })

abbrev pub any_without_piece : List (ℕ × Bool) → Bool
any_without_piece [] = false
any_without_piece ((owner, has_piece) ∷ owners) = not has_piece || any_without_piece owners

unfoldable pub validate_entities : FullSnapshot → OwnerIndex → Variant CodecError EntityIndex
validate_entities message owners = do
  refuse (not (is_strictly_sorted (λ (entity : EntityState). entity.entity_id) message.entities))
      CodecError.duplicate_entity
  index ← index_entities message.next_entity_id owners message.entities (record {
    entities_by_id = [];
    prediction_keys = [];
    owner_has_piece = owners.owner_has_piece;
  })
  refuse (any_without_piece index.owner_has_piece) CodecError.invalid_checkpoint
  value index
