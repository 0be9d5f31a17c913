-- ===== src/Protocol/Messages.antt =====
-- protocol/messages.hpp and ids.hpp, and the limits of codec.hpp. A `StrongId` over `std::uint32_t` is its value, and the
-- greatest value is the invalid one. A scoped enumeration is its underlying number, since a decoded
-- one can have any value.
use mycore.Base.{ℕ, ◌+◌, ◌-◌, ◌*◌, Option, List, Bool, not, ltb, ◌==◌, if◌then◌else◌}

abbrev pub u32_max : ℕ
u32_max = 4294967295

-- `StrongId::is_valid`.
abbrev pub valid_id : ℕ → Bool
valid_id id = not (id == u32_max)

abbrev pub maximum_input_samples_per_packet : ℕ
maximum_input_samples_per_packet = 3

abbrev pub maximum_pending_input_count : ℕ
maximum_pending_input_count = 64

abbrev pub input_receive_window : ℕ
input_receive_window = 32

abbrev pub maximum_authority_receipts_per_snapshot : ℕ
maximum_authority_receipts_per_snapshot = 16

abbrev pub checkpoint_schema_id : ℕ
checkpoint_schema_id = 1

abbrev pub protocol_version : ℕ
protocol_version = 5

abbrev pub packet_header_bytes : ℕ
packet_header_bytes = 12

abbrev pub maximum_encoded_message_bytes : ℕ
maximum_encoded_message_bytes = 64 * 1024

-- The 64-bit sums cannot wrap.
unfoldable pub input_receive_through_for : ℕ → ℕ
input_receive_through_for last_processed_input_id =
    let first_unprocessed : ℕ =
      if valid_id last_processed_input_id then last_processed_input_id + 1 else 0 in
    let requested_end = first_unprocessed + input_receive_window - 1 in
    let maximum_valid : ℕ = u32_max - 1 in
    if ltb requested_end maximum_valid then requested_end else maximum_valid

pub data CodecError : Type 0 where
  message_too_large truncated invalid_magic unsupported_version unknown_message_kind : CodecError
  unsupported_flags payload_length_mismatch trailing_bytes invalid_id invalid_enum : CodecError
  invalid_number out_of_range invalid_input_ordering duplicate_entity duplicate_owner : CodecError
  invalid_checkpoint invalid_receipt_ordering too_many_receipts too_many_entities : CodecError

pub record ClientHello : Type 0 where
  pub requested_role : ℕ

pub record WorldRules : Type 0 where
  pub initial_player_mass : ℕ
  pub food_mass : ℕ
  pub spatial_grid_cell_size : ℕ
  pub player_speed_units_per_second : ℕ
  pub split_recast_ticks : ℕ
  pub merge_delay_ticks : ℕ
  pub maximum_pieces_per_owner : ℕ
  pub minimum_split_mass : ℕ
  pub child_launch_speed_units_per_second : ℕ
  pub launch_decay_units_per_second_squared : ℕ
  pub cohesion_speed_units_per_second : ℕ

pub record ServerWelcome : Type 0 where
  pub client_id : ℕ
  pub accepted_role : ℕ
  pub server_tick : ℕ
  pub respawn_cooldown_ticks : ℕ
  pub world_rules : WorldRules

pub record InputSample : Type 0 where
  pub sequence_id : ℕ
  pub client_tick : ℕ
  pub movement_x : ℕ
  pub movement_y : ℕ
  pub action_bits : ℕ

pub record InputPacket : Type 0 where
  pub last_received_snapshot_id : ℕ
  pub last_received_authority_receipt_sequence : ℕ
  pub samples : List InputSample

pub record ClientStatus : Type 0 where
  pub last_received_snapshot_id : ℕ
  pub last_received_authority_receipt_sequence : ℕ

pub record PredictionKey : Type 0 where
  pub owner_id : ℕ
  pub input_id : ℕ
  pub child_ordinal : ℕ

pub record OwnerState : Type 0 where
  pub owner_id : ℕ
  pub movement_x : ℕ
  pub movement_y : ℕ
  pub last_non_zero_movement_x : ℕ
  pub last_non_zero_movement_y : ℕ
  pub last_input_id : ℕ
  pub split_cooldown_end_tick : ℕ

pub record EntityState : Type 0 where
  pub entity_id : ℕ
  pub kind : ℕ
  pub owner_id : ℕ
  pub position_x : ℕ
  pub position_y : ℕ
  pub mass : ℕ
  pub launch_velocity_x : ℕ
  pub launch_velocity_y : ℕ
  pub merge_eligible_tick : ℕ
  pub prediction_key : Option PredictionKey

pub record FoodConsumed : Type 0 where
  pub server_tick : ℕ
  pub food_entity_id : ℕ
  pub consumer_entity_id : ℕ
  pub consumer_owner_id : ℕ
  pub food_position_x : ℕ
  pub food_position_y : ℕ
  pub transferred_mass : ℕ

pub record PlayerAbsorbed : Type 0 where
  pub server_tick : ℕ
  pub absorber_entity_id : ℕ
  pub victim_entity_id : ℕ
  pub absorber_owner_id : ℕ
  pub victim_owner_id : ℕ
  pub absorber_position_x : ℕ
  pub absorber_position_y : ℕ
  pub victim_position_x : ℕ
  pub victim_position_y : ℕ
  pub transferred_mass : ℕ

pub record PlayerSplit : Type 0 where
  pub server_tick : ℕ
  pub owner_id : ℕ
  pub input_id : ℕ
  pub child_ordinal : ℕ
  pub parent_entity_id : ℕ
  pub child_entity_id : ℕ
  pub origin_position_x : ℕ
  pub origin_position_y : ℕ
  pub initial_launch_velocity_x : ℕ
  pub initial_launch_velocity_y : ℕ
  pub parent_mass : ℕ
  pub child_mass : ℕ

pub record PiecesMerged : Type 0 where
  pub server_tick : ℕ
  pub owner_id : ℕ
  pub survivor_entity_id : ℕ
  pub consumed_entity_id : ℕ
  pub combined_mass : ℕ

pub data AuthorityEvent : Type 0 where
  food_consumed : FoodConsumed → AuthorityEvent
  player_absorbed : PlayerAbsorbed → AuthorityEvent
  player_split : PlayerSplit → AuthorityEvent
  pieces_merged : PiecesMerged → AuthorityEvent

pub record AuthorityReceipt : Type 0 where
  pub sequence_id : ℕ
  pub event : AuthorityEvent

pub record RecipientSessionState : Type 0 where
  pub mode : ℕ
  pub owned_entity_ids : List ℕ
  pub primary_entity_id : ℕ
  pub follow_entity_id : ℕ
  pub defeat_tick : Option ℕ
  pub respawn_available_tick : Option ℕ
  pub latest_absorption : Option PlayerAbsorbed
  pub latest_respawn_request_id : ℕ
  pub latest_respawn_result : ℕ

pub record FullSnapshot : Type 0 where
  pub snapshot_id : ℕ
  pub server_tick : ℕ
  pub last_processed_input_id : ℕ
  pub input_receive_through : ℕ
  pub pending_input_count : ℕ
  pub checkpoint_schema_id : ℕ
  pub checkpoint_digest : ℕ
  pub next_entity_id : ℕ
  pub recipient : RecipientSessionState
  pub owners : List OwnerState
  pub entities : List EntityState
  pub authority_receipts_retired_through : ℕ
  pub authority_receipts : List AuthorityReceipt

pub data Message : Type 0 where
  client_hello : ClientHello → Message
  server_welcome : ServerWelcome → Message
  input_packet : InputPacket → Message
  full_snapshot : FullSnapshot → Message
  client_status : ClientStatus → Message
