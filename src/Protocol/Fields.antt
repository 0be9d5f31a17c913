-- ===== src/Protocol/Fields.antt =====
-- codec.cpp: the reads of the parts of a fixed size, field by field in their order.
pub mod RoundTrip
use mycore.Base.{ℕ}
use mycore.Protocol.Messages.{
  WorldRules, InputSample, PredictionKey, OwnerState, FoodConsumed, PlayerAbsorbed, PlayerSplit,
  PiecesMerged,
}
use mycore.Protocol.Bytes.{◌>>=◌, Reader, done, read_u16, read_u32, read_float}

unfoldable pub decode_rules : Reader WorldRules
decode_rules = do
  initial_player_mass ← read_float
  food_mass ← read_float
  spatial_grid_cell_size ← read_float
  player_speed_units_per_second ← read_float
  split_recast_ticks ← read_u32
  merge_delay_ticks ← read_u32
  maximum_pieces_per_owner ← read_u16
  minimum_split_mass ← read_float
  child_launch_speed_units_per_second ← read_float
  launch_decay_units_per_second_squared ← read_float
  cohesion_speed_units_per_second ← read_float
  done (record {
    initial_player_mass = initial_player_mass;
    food_mass = food_mass;
    spatial_grid_cell_size = spatial_grid_cell_size;
    player_speed_units_per_second = player_speed_units_per_second;
    split_recast_ticks = split_recast_ticks;
    merge_delay_ticks = merge_delay_ticks;
    maximum_pieces_per_owner = maximum_pieces_per_owner;
    minimum_split_mass = minimum_split_mass;
    child_launch_speed_units_per_second = child_launch_speed_units_per_second;
    launch_decay_units_per_second_squared = launch_decay_units_per_second_squared;
    cohesion_speed_units_per_second = cohesion_speed_units_per_second;
  })

unfoldable pub decode_absorption : Reader PlayerAbsorbed
decode_absorption = do
  server_tick ← read_u32
  absorber_entity_id ← read_u32
  victim_entity_id ← read_u32
  absorber_owner_id ← read_u32
  victim_owner_id ← read_u32
  absorber_position_x ← read_float
  absorber_position_y ← read_float
  victim_position_x ← read_float
  victim_position_y ← read_float
  transferred_mass ← read_float
  done (record {
    server_tick = server_tick;
    absorber_entity_id = absorber_entity_id;
    victim_entity_id = victim_entity_id;
    absorber_owner_id = absorber_owner_id;
    victim_owner_id = victim_owner_id;
    absorber_position_x = absorber_position_x;
    absorber_position_y = absorber_position_y;
    victim_position_x = victim_position_x;
    victim_position_y = victim_position_y;
    transferred_mass = transferred_mass;
  })

unfoldable pub decode_food_consumed : Reader FoodConsumed
decode_food_consumed = do
  server_tick ← read_u32
  food_entity_id ← read_u32
  consumer_entity_id ← read_u32
  consumer_owner_id ← read_u32
  food_position_x ← read_float
  food_position_y ← read_float
  transferred_mass ← read_float
  done (record {
    server_tick = server_tick;
    food_entity_id = food_entity_id;
    consumer_entity_id = consumer_entity_id;
    consumer_owner_id = consumer_owner_id;
    food_position_x = food_position_x;
    food_position_y = food_position_y;
    transferred_mass = transferred_mass;
  })

unfoldable pub decode_player_split : Reader PlayerSplit
decode_player_split = do
  server_tick ← read_u32
  owner_id ← read_u32
  input_id ← read_u32
  child_ordinal ← read_u16
  parent_entity_id ← read_u32
  child_entity_id ← read_u32
  origin_position_x ← read_float
  origin_position_y ← read_float
  initial_launch_velocity_x ← read_float
  initial_launch_velocity_y ← read_float
  parent_mass ← read_float
  child_mass ← read_float
  done (record {
    server_tick = server_tick;
    owner_id = owner_id;
    input_id = input_id;
    child_ordinal = child_ordinal;
    parent_entity_id = parent_entity_id;
    child_entity_id = child_entity_id;
    origin_position_x = origin_position_x;
    origin_position_y = origin_position_y;
    initial_launch_velocity_x = initial_launch_velocity_x;
    initial_launch_velocity_y = initial_launch_velocity_y;
    parent_mass = parent_mass;
    child_mass = child_mass;
  })

unfoldable pub decode_pieces_merged : Reader PiecesMerged
decode_pieces_merged = do
  server_tick ← read_u32
  owner_id ← read_u32
  survivor_entity_id ← read_u32
  consumed_entity_id ← read_u32
  combined_mass ← read_float
  done (record {
    server_tick = server_tick;
    owner_id = owner_id;
    survivor_entity_id = survivor_entity_id;
    consumed_entity_id = consumed_entity_id;
    combined_mass = combined_mass;
  })

unfoldable pub decode_sample : Reader InputSample
decode_sample = do
  sequence_id ← read_u32
  client_tick ← read_u32
  movement_x ← read_float
  movement_y ← read_float
  action_bits ← read_u16
  done (record {
    sequence_id = sequence_id;
    client_tick = client_tick;
    movement_x = movement_x;
    movement_y = movement_y;
    action_bits = action_bits;
  })

unfoldable pub decode_owner : Reader OwnerState
decode_owner = do
  owner_id ← read_u32
  movement_x ← read_float
  movement_y ← read_float
  last_non_zero_movement_x ← read_float
  last_non_zero_movement_y ← read_float
  last_input_id ← read_u32
  split_cooldown_end_tick ← read_u32
  done (record {
    owner_id = owner_id;
    movement_x = movement_x;
    movement_y = movement_y;
    last_non_zero_movement_x = last_non_zero_movement_x;
    last_non_zero_movement_y = last_non_zero_movement_y;
    last_input_id = last_input_id;
    split_cooldown_end_tick = split_cooldown_end_tick;
  })

unfoldable pub decode_prediction_key : Reader PredictionKey
decode_prediction_key = do
  owner_id ← read_u32
  input_id ← read_u32
  child_ordinal ← read_u16
  done (record { owner_id = owner_id; input_id = input_id; child_ordinal = child_ordinal })
