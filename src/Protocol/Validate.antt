-- ===== src/Protocol/Validate.antt =====
-- codec.cpp: the checks of a message before it is written and after it is read. A check that finds
-- nothing is `value tt`. The snapshot has a module of its own.
pub mod Snapshot
pub mod Session
use mycore.Base.{
  ℕ, ◌+◌, ◌-◌, ◌/◌, ◌%◌, ◌^◌, Option, none, some, List, [], ◌∷◌, Bool, true, false, not, ◌&&◌, ◌||◌,
  ltb, leb, ◌==◌, if◌then◌else◌, length,
}
use mycore.Base.Results.{Variant, value, error}
use mycore.Base.Chains.{◌>>◌, refuse}
use mycore.Protocol.Float32.{
  is_finite, lt_float, le_float, zero_float, one_float, minus_one_float,
  maximum_movement_length_squared, FloatUnit,
}
use mycore.Protocol.Messages.{
  u32_max, valid_id, maximum_input_samples_per_packet, CodecError, ClientHello, WorldRules,
  ServerWelcome, InputSample, InputPacket, ClientStatus, FoodConsumed, PlayerAbsorbed, PlayerSplit,
  PiecesMerged, AuthorityEvent, food_consumed, player_absorbed, player_split, pieces_merged,
}

abbrev pub Check : Type 0
Check = Variant CodecError (Unit {0})

-- A conjunction, and a disjunction.
abbrev pub all_of : List Bool → Bool
all_of [] = true
all_of (b ∷ bs) = b && all_of bs

abbrev pub any_of : List Bool → Bool
any_of [] = false
any_of (b ∷ bs) = b || any_of bs

-- `is_known`, for each enumeration.
unfoldable pub known_entity_kind : ℕ → Bool
known_entity_kind kind = kind == 1 || kind == 2

unfoldable pub known_session_mode : ℕ → Bool
known_session_mode mode = mode == 1 || mode == 2

unfoldable pub known_join_role : ℕ → Bool
known_join_role role = role == 1 || role == 2

unfoldable pub known_respawn_result : ℕ → Bool
known_respawn_result result = ltb result 5

unfoldable pub known_authority_event_kind : ℕ → Bool
known_authority_event_kind kind = leb 1 kind && leb kind 4

-- `std::isfinite(x) && x > 0.0F`, and the same with `>=`.
abbrev pub positive : ℕ → Bool
positive x = is_finite x && lt_float zero_float x

abbrev pub not_negative : ℕ → Bool
not_negative x = is_finite x && le_float zero_float x

unfoldable pub valid_movement : FloatUnit → ℕ → ℕ → Bool
valid_movement unit x y = all_of (
    is_finite x
    ∷ is_finite y
    ∷ le_float minus_one_float x
    ∷ le_float x one_float
    ∷ le_float minus_one_float y
    ∷ le_float y one_float
    ∷ le_float (unit.add (unit.multiply x x) (unit.multiply y y)) maximum_movement_length_squared
    ∷ [])

unfoldable pub valid_rules : WorldRules → Bool
valid_rules rules = all_of (
    positive rules.initial_player_mass
    ∷ positive rules.food_mass
    ∷ positive rules.spatial_grid_cell_size
    ∷ positive rules.player_speed_units_per_second
    ∷ ltb 0 rules.split_recast_ticks
    ∷ ltb 0 rules.merge_delay_ticks
    ∷ ltb 0 rules.maximum_pieces_per_owner
    ∷ positive rules.minimum_split_mass
    ∷ not_negative rules.child_launch_speed_units_per_second
    ∷ not_negative rules.launch_decay_units_per_second_squared
    ∷ not_negative rules.cohesion_speed_units_per_second
    ∷ [])

unfoldable pub validate_client_hello : ClientHello → Check
validate_client_hello message =
    refuse (not (known_join_role message.requested_role)) CodecError.invalid_enum

unfoldable pub validate_server_welcome : ServerWelcome → Check
validate_server_welcome message = do
  refuse (not (valid_id message.client_id)) CodecError.invalid_id
  refuse (not (known_join_role message.accepted_role)) CodecError.invalid_enum
  refuse (not (valid_rules message.world_rules)) CodecError.invalid_checkpoint

unfoldable pub validate_client_status : ClientStatus → Check
validate_client_status message =
    refuse (not (valid_id message.last_received_snapshot_id)) CodecError.invalid_id

-- The known action bits are the lowest two.
unfoldable pub validate_sample : FloatUnit → InputSample → Check
validate_sample unit sample = do
  refuse (not (valid_id sample.sequence_id)) CodecError.invalid_id
  refuse (not (sample.action_bits / 4 == 0)) CodecError.out_of_range
  refuse (not (is_finite sample.movement_x) || not (is_finite sample.movement_y))
      CodecError.invalid_number
  refuse (not (valid_movement unit sample.movement_x sample.movement_y)) CodecError.out_of_range

-- A sample does not follow the one before it.
abbrev pub out_of_order : InputSample → InputSample → Bool
out_of_order previous sample =
    previous.sequence_id == u32_max - 1
    || (not (sample.sequence_id == (previous.sequence_id + 1) % 2 ^ 32)
        || (previous.client_tick == u32_max
            || not (sample.client_tick == (previous.client_tick + 1) % 2 ^ 32)))

unfoldable pub follows : Option InputSample → InputSample → Check
follows none sample = value tt
follows (some previous) sample =
    refuse (out_of_order previous sample) CodecError.invalid_input_ordering

-- The loop over the samples, with the one before.
unfoldable pub validate_samples : FloatUnit → Option InputSample → List InputSample → Check
validate_samples unit previous [] = value tt
validate_samples unit previous (sample ∷ samples) = do
  validate_sample unit sample
  follows previous sample
  validate_samples unit (some sample) samples

unfoldable pub validate_input_packet : FloatUnit → InputPacket → Check
validate_input_packet unit message = do
  refuse (not (valid_id message.last_received_snapshot_id)) CodecError.invalid_id
  refuse
      (length message.samples == 0 || ltb maximum_input_samples_per_packet (length message.samples))
      CodecError.out_of_range
  validate_samples unit none message.samples

unfoldable pub validate_absorption : PlayerAbsorbed → ℕ → Check
validate_absorption event snapshot_tick = do
  refuse
      (any_of (
        not (valid_id event.absorber_entity_id)
        ∷ not (valid_id event.victim_entity_id)
        ∷ not (valid_id event.absorber_owner_id)
        ∷ not (valid_id event.victim_owner_id)
        ∷ (event.absorber_entity_id == event.victim_entity_id)
        ∷ (event.absorber_owner_id == event.victim_owner_id)
        ∷ []))
      CodecError.invalid_id
  refuse
      (any_of (
        not (is_finite event.absorber_position_x)
        ∷ not (is_finite event.absorber_position_y)
        ∷ not (is_finite event.victim_position_x)
        ∷ not (is_finite event.victim_position_y)
        ∷ not (is_finite event.transferred_mass)
        ∷ []))
      CodecError.invalid_number
  refuse (le_float event.transferred_mass zero_float || ltb snapshot_tick event.server_tick)
      CodecError.out_of_range

unfoldable pub validate_event : AuthorityEvent → ℕ → Check
validate_event (food_consumed event) snapshot_tick = do
  refuse
      (any_of (
        not (valid_id event.food_entity_id)
        ∷ not (valid_id event.consumer_entity_id)
        ∷ not (valid_id event.consumer_owner_id)
        ∷ (event.food_entity_id == event.consumer_entity_id)
        ∷ []))
      CodecError.invalid_id
  refuse
      (any_of (
        not (is_finite event.food_position_x)
        ∷ not (is_finite event.food_position_y)
        ∷ not (is_finite event.transferred_mass)
        ∷ []))
      CodecError.invalid_number
  refuse (le_float event.transferred_mass zero_float || ltb snapshot_tick event.server_tick)
      CodecError.out_of_range
validate_event (player_absorbed event) snapshot_tick = validate_absorption event snapshot_tick
validate_event (player_split event) snapshot_tick = do
  refuse
      (any_of (
        not (valid_id event.owner_id)
        ∷ not (valid_id event.input_id)
        ∷ not (valid_id event.parent_entity_id)
        ∷ not (valid_id event.child_entity_id)
        ∷ (event.parent_entity_id == event.child_entity_id)
        ∷ []))
      CodecError.invalid_id
  refuse
      (any_of (
        not (is_finite event.origin_position_x)
        ∷ not (is_finite event.origin_position_y)
        ∷ not (is_finite event.initial_launch_velocity_x)
        ∷ not (is_finite event.initial_launch_velocity_y)
        ∷ not (is_finite event.parent_mass)
        ∷ not (is_finite event.child_mass)
        ∷ []))
      CodecError.invalid_number
  refuse
      (any_of (
        le_float event.parent_mass zero_float
        ∷ le_float event.child_mass zero_float
        ∷ ltb snapshot_tick event.server_tick
        ∷ []))
      CodecError.out_of_range
validate_event (pieces_merged event) snapshot_tick = do
  refuse
      (any_of (
        not (valid_id event.owner_id)
        ∷ not (valid_id event.survivor_entity_id)
        ∷ not (valid_id event.consumed_entity_id)
        ∷ (event.survivor_entity_id == event.consumed_entity_id)
        ∷ []))
      CodecError.invalid_id
  refuse (not (is_finite event.combined_mass)) CodecError.invalid_number
  refuse (le_float event.combined_mass zero_float || ltb snapshot_tick event.server_tick)
      CodecError.out_of_range
