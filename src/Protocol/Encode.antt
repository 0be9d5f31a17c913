-- ===== src/Protocol/Encode.antt =====
-- codec.cpp: the writing half, message by message. `encode` itself is in Codec.
use mycore.Base.{ℕ, ◌%◌, ◌^◌, Option, none, some, List, [], ◌∷◌, ◌++◌, length}
use mycore.Protocol.Messages.{
  u32_max, protocol_version, ClientHello, WorldRules, ServerWelcome, InputSample, InputPacket,
  ClientStatus, PredictionKey, OwnerState, EntityState, FoodConsumed, PlayerAbsorbed, PlayerSplit,
  PiecesMerged, AuthorityEvent, food_consumed, player_absorbed, player_split, pieces_merged,
  AuthorityReceipt, FullSnapshot, Message, client_hello, server_welcome, input_packet,
  full_snapshot, client_status,
}
use mycore.Protocol.Bytes.{Bytes, write_u8, write_u16, write_u32, write_u64, write_float}

-- One write after the other.
infixr 5 ◌>>◌
abbrev pub ◌>>◌ : Bytes → Bytes → Bytes
first >> next = first ++ next

-- A loop that writes each element.
abbrev pub write_each : {A : Type 0} → (A → Bytes) → List A → Bytes
write_each write [] = []
write_each write (x ∷ xs) = write x ++ write_each write xs

-- `optional.value_or(std::numeric_limits<std::uint32_t>::max())`.
abbrev pub value_or_max : Option ℕ → ℕ
value_or_max none = u32_max
value_or_max (some n) = n

abbrev pub flag : {A : Type 0} → Option A → ℕ
flag none = 0
flag (some a) = 1

abbrev pub write_some : {A : Type 0} → (A → Bytes) → Option A → Bytes
write_some write none = []
write_some write (some a) = write a

unfoldable pub encode_rules : WorldRules → Bytes
encode_rules rules = do
  write_float rules.initial_player_mass
  write_float rules.food_mass
  write_float rules.spatial_grid_cell_size
  write_float rules.player_speed_units_per_second
  write_u32 rules.split_recast_ticks
  write_u32 rules.merge_delay_ticks
  write_u16 rules.maximum_pieces_per_owner
  write_float rules.minimum_split_mass
  write_float rules.child_launch_speed_units_per_second
  write_float rules.launch_decay_units_per_second_squared
  write_float rules.cohesion_speed_units_per_second

unfoldable pub encode_absorption : PlayerAbsorbed → Bytes
encode_absorption event = do
  write_u32 event.server_tick
  write_u32 event.absorber_entity_id
  write_u32 event.victim_entity_id
  write_u32 event.absorber_owner_id
  write_u32 event.victim_owner_id
  write_float event.absorber_position_x
  write_float event.absorber_position_y
  write_float event.victim_position_x
  write_float event.victim_position_y
  write_float event.transferred_mass

-- What follows the kind of an event.
unfoldable pub encode_food_consumed : FoodConsumed → Bytes
encode_food_consumed event = do
  write_u32 event.server_tick
  write_u32 event.food_entity_id
  write_u32 event.consumer_entity_id
  write_u32 event.consumer_owner_id
  write_float event.food_position_x
  write_float event.food_position_y
  write_float event.transferred_mass

unfoldable pub encode_player_split : PlayerSplit → Bytes
encode_player_split event = do
  write_u32 event.server_tick
  write_u32 event.owner_id
  write_u32 event.input_id
  write_u16 event.child_ordinal
  write_u32 event.parent_entity_id
  write_u32 event.child_entity_id
  write_float event.origin_position_x
  write_float event.origin_position_y
  write_float event.initial_launch_velocity_x
  write_float event.initial_launch_velocity_y
  write_float event.parent_mass
  write_float event.child_mass

unfoldable pub encode_pieces_merged : PiecesMerged → Bytes
encode_pieces_merged event = do
  write_u32 event.server_tick
  write_u32 event.owner_id
  write_u32 event.survivor_entity_id
  write_u32 event.consumed_entity_id
  write_float event.combined_mass

unfoldable pub encode_authority_event : AuthorityEvent → Bytes
encode_authority_event (food_consumed event) = do write_u8 1; encode_food_consumed event
encode_authority_event (player_absorbed event) = do write_u8 2; encode_absorption event
encode_authority_event (player_split event) = do write_u8 3; encode_player_split event
encode_authority_event (pieces_merged event) = do write_u8 4; encode_pieces_merged event

unfoldable pub encode_client_hello : ClientHello → Bytes
encode_client_hello message = write_u8 message.requested_role

unfoldable pub encode_server_welcome : ServerWelcome → Bytes
encode_server_welcome message = do
  write_u32 message.client_id
  write_u8 message.accepted_role
  write_u32 message.server_tick
  write_u32 message.respawn_cooldown_ticks
  encode_rules message.world_rules

unfoldable pub encode_sample : InputSample → Bytes
encode_sample sample = do
  write_u32 sample.sequence_id
  write_u32 sample.client_tick
  write_float sample.movement_x
  write_float sample.movement_y
  write_u16 sample.action_bits

unfoldable pub encode_input_packet : InputPacket → Bytes
encode_input_packet message = do
  write_u8 (length message.samples % 2 ^ 8)
  write_u32 message.last_received_snapshot_id
  write_u32 message.last_received_authority_receipt_sequence
  write_each encode_sample message.samples

unfoldable pub encode_client_status : ClientStatus → Bytes
encode_client_status message = do
  write_u32 message.last_received_snapshot_id
  write_u32 message.last_received_authority_receipt_sequence

unfoldable pub encode_owner : OwnerState → Bytes
encode_owner owner = do
  write_u32 owner.owner_id
  write_float owner.movement_x
  write_float owner.movement_y
  write_float owner.last_non_zero_movement_x
  write_float owner.last_non_zero_movement_y
  write_u32 owner.last_input_id
  write_u32 owner.split_cooldown_end_tick

unfoldable pub encode_prediction_key : PredictionKey → Bytes
encode_prediction_key key = do
  write_u32 key.owner_id
  write_u32 key.input_id
  write_u16 key.child_ordinal

unfoldable pub encode_entity : EntityState → Bytes
encode_entity entity = do
  write_u32 entity.entity_id
  write_u8 entity.kind
  write_u32 entity.owner_id
  write_float entity.position_x
  write_float entity.position_y
  write_float entity.mass
  write_float entity.launch_velocity_x
  write_float entity.launch_velocity_y
  write_u32 entity.merge_eligible_tick
  write_u8 (flag entity.prediction_key)
  write_some encode_prediction_key entity.prediction_key

unfoldable pub encode_receipt : AuthorityReceipt → Bytes
encode_receipt receipt = write_u32 receipt.sequence_id ++ encode_authority_event receipt.event

-- The fixed part of a snapshot.
unfoldable pub encode_snapshot_head : FullSnapshot → Bytes
encode_snapshot_head message = do
  let recipient = message.recipient
  write_u32 message.snapshot_id
  write_u32 message.server_tick
  write_u32 message.last_processed_input_id
  write_u32 message.input_receive_through
  write_u8 message.pending_input_count
  write_u32 message.authority_receipts_retired_through
  write_u16 message.checkpoint_schema_id
  write_u64 message.checkpoint_digest
  write_u32 message.next_entity_id
  write_u8 recipient.mode
  write_u32 recipient.primary_entity_id
  write_u32 recipient.follow_entity_id
  write_u32 (value_or_max recipient.defeat_tick)
  write_u32 (value_or_max recipient.respawn_available_tick)
  write_u32 recipient.latest_respawn_request_id
  write_u8 recipient.latest_respawn_result
  write_u16 (length recipient.owned_entity_ids % 2 ^ 16)
  write_u8 (flag recipient.latest_absorption)

unfoldable pub encode_full_snapshot : FullSnapshot → Bytes
encode_full_snapshot message = do
  let recipient = message.recipient
  encode_snapshot_head message
  write_each write_u32 recipient.owned_entity_ids
  write_some encode_absorption recipient.latest_absorption
  write_u16 (length message.owners % 2 ^ 16)
  write_each encode_owner message.owners
  write_u16 (length message.entities % 2 ^ 16)
  write_each encode_entity message.entities
  write_u8 (length message.authority_receipts % 2 ^ 8)
  write_each encode_receipt message.authority_receipts

unfoldable pub encode_payload : Message → Bytes
encode_payload (client_hello message) = encode_client_hello message
encode_payload (server_welcome message) = encode_server_welcome message
encode_payload (input_packet message) = encode_input_packet message
encode_payload (full_snapshot message) = encode_full_snapshot message
encode_payload (client_status message) = encode_client_status message

-- The packet's header.
unfoldable pub write_header : ℕ → ℕ → Bytes
write_header kind size = do
  write_u8 0x44
  write_u8 0x4f
  write_u8 0x54
  write_u8 0x53
  write_u16 protocol_version
  write_u8 kind
  write_u8 0
  write_u32 size
