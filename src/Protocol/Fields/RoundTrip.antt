-- ===== src/Protocol/Fields/RoundTrip.antt =====
-- Each part of a fixed size is read back as it was written, if its fields fit their widths.
use mycore.Base.{◌<◌, ◌^◌, ◌≡◌, refl, some, ◌++◌}
use mycore.Protocol.Messages.{
  WorldRules, InputSample, PredictionKey, OwnerState, FoodConsumed, PlayerAbsorbed, PlayerSplit,
  PiecesMerged,
}
use mycore.Protocol.Bytes.{
  Bytes, write_u16, write_u32, write_float, read_u8, read_u16, read_u32, read_float, join_u16_lem,
  join_u32_lem,
}
use mycore.Protocol.Encode.{
  encode_rules, encode_absorption, encode_food_consumed, encode_player_split, encode_pieces_merged,
  encode_sample, encode_owner, encode_prediction_key,
}
use mycore.Protocol.Fields.{
  decode_rules, decode_absorption, decode_food_consumed, decode_player_split, decode_pieces_merged,
  decode_sample, decode_owner, decode_prediction_key,
}

pub record WorldRulesFits (rules : WorldRules) : Type 0 where
  pub initial_player_mass : rules.initial_player_mass < 2 ^ 32
  pub food_mass : rules.food_mass < 2 ^ 32
  pub spatial_grid_cell_size : rules.spatial_grid_cell_size < 2 ^ 32
  pub player_speed_units_per_second : rules.player_speed_units_per_second < 2 ^ 32
  pub split_recast_ticks : rules.split_recast_ticks < 2 ^ 32
  pub merge_delay_ticks : rules.merge_delay_ticks < 2 ^ 32
  pub maximum_pieces_per_owner : rules.maximum_pieces_per_owner < 2 ^ 16
  pub minimum_split_mass : rules.minimum_split_mass < 2 ^ 32
  pub child_launch_speed_units_per_second : rules.child_launch_speed_units_per_second < 2 ^ 32
  pub launch_decay_units_per_second_squared : rules.launch_decay_units_per_second_squared < 2 ^ 32
  pub cohesion_speed_units_per_second : rules.cohesion_speed_units_per_second < 2 ^ 32

pub decode_rules-encode_rules :
    (rules : WorldRules) (rest : Bytes)
    → WorldRulesFits rules
    → decode_rules (encode_rules rules ++ rest) ≡ some (rules, rest)
unfolding decode_rules encode_rules write_u32 read_u32 read_u8 write_float read_float write_u16
    read_u16
decode_rules-encode_rules rules rest h =
    rw
      (
        join_u32_lem rules.initial_player_mass h.initial_player_mass,
        join_u32_lem rules.food_mass h.food_mass,
        join_u32_lem rules.spatial_grid_cell_size h.spatial_grid_cell_size,
        join_u32_lem rules.player_speed_units_per_second h.player_speed_units_per_second,
        join_u32_lem rules.split_recast_ticks h.split_recast_ticks,
        join_u32_lem rules.merge_delay_ticks h.merge_delay_ticks,
        join_u16_lem rules.maximum_pieces_per_owner h.maximum_pieces_per_owner,
        join_u32_lem rules.minimum_split_mass h.minimum_split_mass,
        join_u32_lem rules.child_launch_speed_units_per_second
            h.child_launch_speed_units_per_second,
        join_u32_lem rules.launch_decay_units_per_second_squared
            h.launch_decay_units_per_second_squared,
        join_u32_lem rules.cohesion_speed_units_per_second h.cohesion_speed_units_per_second,
      )
      refl

pub record PlayerAbsorbedFits (event : PlayerAbsorbed) : Type 0 where
  pub server_tick : event.server_tick < 2 ^ 32
  pub absorber_entity_id : event.absorber_entity_id < 2 ^ 32
  pub victim_entity_id : event.victim_entity_id < 2 ^ 32
  pub absorber_owner_id : event.absorber_owner_id < 2 ^ 32
  pub victim_owner_id : event.victim_owner_id < 2 ^ 32
  pub absorber_position_x : event.absorber_position_x < 2 ^ 32
  pub absorber_position_y : event.absorber_position_y < 2 ^ 32
  pub victim_position_x : event.victim_position_x < 2 ^ 32
  pub victim_position_y : event.victim_position_y < 2 ^ 32
  pub transferred_mass : event.transferred_mass < 2 ^ 32

pub decode_absorption-encode_absorption :
    (event : PlayerAbsorbed) (rest : Bytes)
    → PlayerAbsorbedFits event
    → decode_absorption (encode_absorption event ++ rest) ≡ some (event, rest)
unfolding decode_absorption encode_absorption write_u32 read_u32 read_u8 write_float read_float
decode_absorption-encode_absorption event rest h =
    rw
      (
        join_u32_lem event.server_tick h.server_tick,
        join_u32_lem event.absorber_entity_id h.absorber_entity_id,
        join_u32_lem event.victim_entity_id h.victim_entity_id,
        join_u32_lem event.absorber_owner_id h.absorber_owner_id,
        join_u32_lem event.victim_owner_id h.victim_owner_id,
        join_u32_lem event.absorber_position_x h.absorber_position_x,
        join_u32_lem event.absorber_position_y h.absorber_position_y,
        join_u32_lem event.victim_position_x h.victim_position_x,
        join_u32_lem event.victim_position_y h.victim_position_y,
        join_u32_lem event.transferred_mass h.transferred_mass,
      )
      refl

pub record FoodConsumedFits (event : FoodConsumed) : Type 0 where
  pub server_tick : event.server_tick < 2 ^ 32
  pub food_entity_id : event.food_entity_id < 2 ^ 32
  pub consumer_entity_id : event.consumer_entity_id < 2 ^ 32
  pub consumer_owner_id : event.consumer_owner_id < 2 ^ 32
  pub food_position_x : event.food_position_x < 2 ^ 32
  pub food_position_y : event.food_position_y < 2 ^ 32
  pub transferred_mass : event.transferred_mass < 2 ^ 32

pub decode_food_consumed-encode_food_consumed :
    (event : FoodConsumed) (rest : Bytes)
    → FoodConsumedFits event
    → decode_food_consumed (encode_food_consumed event ++ rest) ≡ some (event, rest)
unfolding decode_food_consumed encode_food_consumed write_u32 read_u32 read_u8 write_float
    read_float
decode_food_consumed-encode_food_consumed event rest h =
    rw
      (
        join_u32_lem event.server_tick h.server_tick,
        join_u32_lem event.food_entity_id h.food_entity_id,
        join_u32_lem event.consumer_entity_id h.consumer_entity_id,
        join_u32_lem event.consumer_owner_id h.consumer_owner_id,
        join_u32_lem event.food_position_x h.food_position_x,
        join_u32_lem event.food_position_y h.food_position_y,
        join_u32_lem event.transferred_mass h.transferred_mass,
      )
      refl

pub record PlayerSplitFits (event : PlayerSplit) : Type 0 where
  pub server_tick : event.server_tick < 2 ^ 32
  pub owner_id : event.owner_id < 2 ^ 32
  pub input_id : event.input_id < 2 ^ 32
  pub child_ordinal : event.child_ordinal < 2 ^ 16
  pub parent_entity_id : event.parent_entity_id < 2 ^ 32
  pub child_entity_id : event.child_entity_id < 2 ^ 32
  pub origin_position_x : event.origin_position_x < 2 ^ 32
  pub origin_position_y : event.origin_position_y < 2 ^ 32
  pub initial_launch_velocity_x : event.initial_launch_velocity_x < 2 ^ 32
  pub initial_launch_velocity_y : event.initial_launch_velocity_y < 2 ^ 32
  pub parent_mass : event.parent_mass < 2 ^ 32
  pub child_mass : event.child_mass < 2 ^ 32

pub decode_player_split-encode_player_split :
    (event : PlayerSplit) (rest : Bytes)
    → PlayerSplitFits event
    → decode_player_split (encode_player_split event ++ rest) ≡ some (event, rest)
unfolding decode_player_split encode_player_split write_u32 read_u32 read_u8 write_float read_float
    write_u16 read_u16
decode_player_split-encode_player_split event rest h =
    rw
      (
        join_u32_lem event.server_tick h.server_tick,
        join_u32_lem event.owner_id h.owner_id,
        join_u32_lem event.input_id h.input_id,
        join_u16_lem event.child_ordinal h.child_ordinal,
        join_u32_lem event.parent_entity_id h.parent_entity_id,
        join_u32_lem event.child_entity_id h.child_entity_id,
        join_u32_lem event.origin_position_x h.origin_position_x,
        join_u32_lem event.origin_position_y h.origin_position_y,
        join_u32_lem event.initial_launch_velocity_x h.initial_launch_velocity_x,
        join_u32_lem event.initial_launch_velocity_y h.initial_launch_velocity_y,
        join_u32_lem event.parent_mass h.parent_mass,
        join_u32_lem event.child_mass h.child_mass,
      )
      refl

pub record PiecesMergedFits (event : PiecesMerged) : Type 0 where
  pub server_tick : event.server_tick < 2 ^ 32
  pub owner_id : event.owner_id < 2 ^ 32
  pub survivor_entity_id : event.survivor_entity_id < 2 ^ 32
  pub consumed_entity_id : event.consumed_entity_id < 2 ^ 32
  pub combined_mass : event.combined_mass < 2 ^ 32

pub decode_pieces_merged-encode_pieces_merged :
    (event : PiecesMerged) (rest : Bytes)
    → PiecesMergedFits event
    → decode_pieces_merged (encode_pieces_merged event ++ rest) ≡ some (event, rest)
unfolding decode_pieces_merged encode_pieces_merged write_u32 read_u32 read_u8 write_float
    read_float
decode_pieces_merged-encode_pieces_merged event rest h =
    rw
      (
        join_u32_lem event.server_tick h.server_tick,
        join_u32_lem event.owner_id h.owner_id,
        join_u32_lem event.survivor_entity_id h.survivor_entity_id,
        join_u32_lem event.consumed_entity_id h.consumed_entity_id,
        join_u32_lem event.combined_mass h.combined_mass,
      )
      refl

pub record InputSampleFits (sample : InputSample) : Type 0 where
  pub sequence_id : sample.sequence_id < 2 ^ 32
  pub client_tick : sample.client_tick < 2 ^ 32
  pub movement_x : sample.movement_x < 2 ^ 32
  pub movement_y : sample.movement_y < 2 ^ 32
  pub action_bits : sample.action_bits < 2 ^ 16

pub decode_sample-encode_sample :
    (sample : InputSample) (rest : Bytes)
    → InputSampleFits sample
    → decode_sample (encode_sample sample ++ rest) ≡ some (sample, rest)
unfolding decode_sample encode_sample write_u32 read_u32 read_u8 write_float read_float write_u16
    read_u16
decode_sample-encode_sample sample rest h =
    rw
      (
        join_u32_lem sample.sequence_id h.sequence_id,
        join_u32_lem sample.client_tick h.client_tick,
        join_u32_lem sample.movement_x h.movement_x,
        join_u32_lem sample.movement_y h.movement_y,
        join_u16_lem sample.action_bits h.action_bits,
      )
      refl

pub record OwnerStateFits (owner : OwnerState) : Type 0 where
  pub owner_id : owner.owner_id < 2 ^ 32
  pub movement_x : owner.movement_x < 2 ^ 32
  pub movement_y : owner.movement_y < 2 ^ 32
  pub last_non_zero_movement_x : owner.last_non_zero_movement_x < 2 ^ 32
  pub last_non_zero_movement_y : owner.last_non_zero_movement_y < 2 ^ 32
  pub last_input_id : owner.last_input_id < 2 ^ 32
  pub split_cooldown_end_tick : owner.split_cooldown_end_tick < 2 ^ 32

pub decode_owner-encode_owner :
    (owner : OwnerState) (rest : Bytes)
    → OwnerStateFits owner
    → decode_owner (encode_owner owner ++ rest) ≡ some (owner, rest)
unfolding decode_owner encode_owner write_u32 read_u32 read_u8 write_float read_float
decode_owner-encode_owner owner rest h =
    rw
      (
        join_u32_lem owner.owner_id h.owner_id,
        join_u32_lem owner.movement_x h.movement_x,
        join_u32_lem owner.movement_y h.movement_y,
        join_u32_lem owner.last_non_zero_movement_x h.last_non_zero_movement_x,
        join_u32_lem owner.last_non_zero_movement_y h.last_non_zero_movement_y,
        join_u32_lem owner.last_input_id h.last_input_id,
        join_u32_lem owner.split_cooldown_end_tick h.split_cooldown_end_tick,
      )
      refl

pub record PredictionKeyFits (key : PredictionKey) : Type 0 where
  pub owner_id : key.owner_id < 2 ^ 32
  pub input_id : key.input_id < 2 ^ 32
  pub child_ordinal : key.child_ordinal < 2 ^ 16

pub decode_prediction_key-encode_prediction_key :
    (key : PredictionKey) (rest : Bytes)
    → PredictionKeyFits key
    → decode_prediction_key (encode_prediction_key key ++ rest) ≡ some (key, rest)
unfolding decode_prediction_key encode_prediction_key write_u32 read_u32 read_u8 write_u16 read_u16
decode_prediction_key-encode_prediction_key key rest h =
    rw
      (
        join_u32_lem key.owner_id h.owner_id,
        join_u32_lem key.input_id h.input_id,
        join_u16_lem key.child_ordinal h.child_ordinal,
      )
      refl
