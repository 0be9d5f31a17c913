-- ===== src/Protocol/Tests.antt =====
-- Messages, their encodings, and the theorems of the codec at them.
mod Delivery
use native.Mathlib.Decide.{ℕ_discrete}
use mycore.Base.{
  ℕ, ◌≡◌, ◌+◌, ◌*◌, ◌≤◌, refl, Option, none, some, List, [], ◌∷◌, arith, length, ltb, if◌then◌else◌,
}
use mycore.Base.Results.{Variant, value, error}
use mycore.Rollback.Keyed.{find, emplace, dec_in}
use mycore.Rollback.Router.Sets.{contains, insert, assign}
use mycore.Protocol.Float32.{one_float, FloatUnit, is_finite, lt_float, le_float, ne_float}
use mycore.Protocol.Messages.{
  u32_max, input_receive_through_for, maximum_encoded_message_bytes, CodecError, InputSample,
  InputPacket, PredictionKey, OwnerState, EntityState, food_consumed, AuthorityReceipt,
  RecipientSessionState, FullSnapshot, Message, input_packet, full_snapshot,
}
use mycore.Protocol.Bytes.{
  Bytes, byte_from, write_u8, write_u16, write_u32, write_u64, write_float, join_u16, join_u32,
  join_u64, read_u8, read_u16, read_u32, read_u64, read_float,
}
use mycore.Protocol.Encode.{
  encode_food_consumed, encode_authority_event, encode_sample, encode_input_packet, encode_owner,
  encode_prediction_key, encode_entity, encode_receipt, encode_snapshot_head, encode_full_snapshot,
  encode_payload, write_header,
}
use mycore.Protocol.Validate.{
  valid_movement, validate_sample, validate_samples, follows, validate_input_packet, validate_event,
  known_entity_kind, known_session_mode, known_respawn_result,
}
use mycore.Protocol.Validate.Snapshot.{
  is_strictly_sorted, validate_input_window, validate_counts, validate_recipient, index_owners,
  validate_owners, PredictionKey-discrete, check_prediction_key, check_piece, check_food,
  index_entities, validate_entities,
}
use mycore.Protocol.Validate.Session.{
  find_piece, check_absorption, check_spectating, check_owned, check_follow, check_playing,
  validate_session, EventKey-discrete, check_sequence, check_receipts, check_first,
  validate_receipts, validate_full_snapshot, validate_message,
}
use mycore.Protocol.Codec.{message_kind, authority_event_size, payload_size, encode, decode}

-- Movement along one axis needs no rounding.
abbrev pub unit : FloatUnit
unit = record { add = λ x y. x; multiply = λ x y. x }

abbrev sample : ℕ → ℕ → InputSample
sample sequence tick = record {
  sequence_id = sequence;
  client_tick = tick;
  movement_x = 0;
  movement_y = 0;
  action_bits = 2;
}

abbrev pub packet : InputPacket
packet = record {
  last_received_snapshot_id = 8;
  last_received_authority_receipt_sequence = u32_max;
  samples = sample 41 300 ∷ sample 42 301 ∷ [];
}

abbrev pub piece : EntityState
piece = record {
  entity_id = 3;
  kind = 1;
  owner_id = 2;
  position_x = one_float;
  position_y = one_float;
  mass = one_float;
  launch_velocity_x = 0;
  launch_velocity_y = 0;
  merge_eligible_tick = 90;
  prediction_key = some (record { owner_id = 2; input_id = 4; child_ordinal = 1 });
}

abbrev pub food : EntityState
food = record {
  entity_id = 5;
  kind = 2;
  owner_id = u32_max;
  position_x = 0;
  position_y = one_float;
  mass = one_float;
  launch_velocity_x = 0;
  launch_velocity_y = 0;
  merge_eligible_tick = 0;
  prediction_key = none;
}

abbrev pub player : OwnerState
player = record {
  owner_id = 2;
  movement_x = 0;
  movement_y = 0;
  last_non_zero_movement_x = one_float;
  last_non_zero_movement_y = 0;
  last_input_id = 4;
  split_cooldown_end_tick = 120;
}

abbrev pub meal : AuthorityReceipt
meal = record {
  sequence_id = 0;
  event = food_consumed (record {
    server_tick = 100;
    food_entity_id = 6;
    consumer_entity_id = 3;
    consumer_owner_id = 2;
    food_position_x = one_float;
    food_position_y = 0;
    transferred_mass = one_float;
  });
}

abbrev pub snapshot : FullSnapshot
snapshot = record {
  snapshot_id = 7;
  server_tick = 100;
  last_processed_input_id = 4;
  input_receive_through = 36;
  pending_input_count = 0;
  checkpoint_schema_id = 1;
  checkpoint_digest = 9876543210123456789;
  next_entity_id = 10;
  recipient = record {
    mode = 1;
    owned_entity_ids = 3 ∷ [];
    primary_entity_id = 3;
    follow_entity_id = u32_max;
    defeat_tick = none;
    respawn_available_tick = none;
    latest_absorption = none;
    latest_respawn_request_id = u32_max;
    latest_respawn_result = 0;
  };
  owners = player ∷ [];
  entities = piece ∷ food ∷ [];
  authority_receipts_retired_through = u32_max;
  authority_receipts = meal ∷ [];
}

pub valid_snapshot : validate_full_snapshot unit snapshot ≡ value tt
unfolding validate_full_snapshot validate_counts validate_input_window input_receive_through_for
    validate_recipient known_session_mode known_respawn_result validate_owners is_strictly_sorted
    index_owners valid_movement is_finite le_float validate_entities index_entities
    known_entity_kind check_piece find lt_float ne_float EventKey-discrete check_absorption
    check_first check_follow check_owned check_playing check_receipts check_sequence
    check_spectating find_piece validate_receipts validate_session PredictionKey-discrete check_food
    check_prediction_key validate_event dec_in emplace assign contains insert ℕ_discrete
valid_snapshot = refl

abbrev pub packet_bytes : Bytes
packet_bytes =
    0x44 ∷ 0x4f ∷ 0x54 ∷ 0x53 ∷ 0 ∷ 5 ∷ 3 ∷ 0 ∷ 0 ∷ 0 ∷ 0 ∷ 45 ∷ 2 ∷ 0 ∷ 0 ∷ 0 ∷ 8 ∷ 255 ∷ 255 ∷ 255
    ∷ 255 ∷ 0 ∷ 0 ∷ 0 ∷ 41 ∷ 0 ∷ 0 ∷ 1 ∷ 44 ∷ 0 ∷ 0 ∷ 0 ∷ 0 ∷ 0 ∷ 0 ∷ 0 ∷ 0 ∷ 0 ∷ 2 ∷ 0 ∷ 0 ∷ 0 ∷ 42
    ∷ 0 ∷ 0 ∷ 1 ∷ 45 ∷ 0 ∷ 0 ∷ 0 ∷ 0 ∷ 0 ∷ 0 ∷ 0 ∷ 0 ∷ 0 ∷ 2 ∷ []

pub encoded_packet : encode unit (input_packet packet) ≡ value packet_bytes
unfolding encode validate_message validate_input_packet validate_samples validate_sample follows
    valid_movement is_finite le_float lt_float payload_size encode_payload encode_input_packet
    encode_sample write_u8 write_u16 write_u32 write_float byte_from message_kind write_header
encoded_packet = refl

abbrev pub snapshot_bytes : Bytes
snapshot_bytes =
    68 ∷ 79 ∷ 84 ∷ 83 ∷ 0 ∷ 5 ∷ 4 ∷ 0 ∷ 0 ∷ 0 ∷ 0 ∷ 208 ∷ 0 ∷ 0 ∷ 0 ∷ 7 ∷ 0 ∷ 0 ∷ 0 ∷ 100 ∷ 0 ∷ 0
    ∷ 0 ∷ 4 ∷ 0 ∷ 0 ∷ 0 ∷ 36 ∷ 0 ∷ 255 ∷ 255 ∷ 255 ∷ 255 ∷ 0 ∷ 1 ∷ 137 ∷ 16 ∷ 135 ∷ 184 ∷ 176 ∷ 52
    ∷ 113 ∷ 21 ∷ 0 ∷ 0 ∷ 0 ∷ 10 ∷ 1 ∷ 0 ∷ 0 ∷ 0 ∷ 3 ∷ 255 ∷ 255 ∷ 255 ∷ 255 ∷ 255 ∷ 255 ∷ 255 ∷ 255
    ∷ 255 ∷ 255 ∷ 255 ∷ 255 ∷ 255 ∷ 255 ∷ 255 ∷ 255 ∷ 0 ∷ 0 ∷ 1 ∷ 0 ∷ 0 ∷ 0 ∷ 0 ∷ 3 ∷ 0 ∷ 1 ∷ 0 ∷ 0
    ∷ 0 ∷ 2 ∷ 0 ∷ 0 ∷ 0 ∷ 0 ∷ 0 ∷ 0 ∷ 0 ∷ 0 ∷ 63 ∷ 128 ∷ 0 ∷ 0 ∷ 0 ∷ 0 ∷ 0 ∷ 0 ∷ 0 ∷ 0 ∷ 0 ∷ 4 ∷ 0
    ∷ 0 ∷ 0 ∷ 120 ∷ 0 ∷ 2 ∷ 0 ∷ 0 ∷ 0 ∷ 3 ∷ 1 ∷ 0 ∷ 0 ∷ 0 ∷ 2 ∷ 63 ∷ 128 ∷ 0 ∷ 0 ∷ 63 ∷ 128 ∷ 0 ∷ 0
    ∷ 63 ∷ 128 ∷ 0 ∷ 0 ∷ 0 ∷ 0 ∷ 0 ∷ 0 ∷ 0 ∷ 0 ∷ 0 ∷ 0 ∷ 0 ∷ 0 ∷ 0 ∷ 90 ∷ 1 ∷ 0 ∷ 0 ∷ 0 ∷ 2 ∷ 0 ∷ 0
    ∷ 0 ∷ 4 ∷ 0 ∷ 1 ∷ 0 ∷ 0 ∷ 0 ∷ 5 ∷ 2 ∷ 255 ∷ 255 ∷ 255 ∷ 255 ∷ 0 ∷ 0 ∷ 0 ∷ 0 ∷ 63 ∷ 128 ∷ 0 ∷ 0
    ∷ 63 ∷ 128 ∷ 0 ∷ 0 ∷ 0 ∷ 0 ∷ 0 ∷ 0 ∷ 0 ∷ 0 ∷ 0 ∷ 0 ∷ 0 ∷ 0 ∷ 0 ∷ 0 ∷ 0 ∷ 1 ∷ 0 ∷ 0 ∷ 0 ∷ 0 ∷ 1
    ∷ 0 ∷ 0 ∷ 0 ∷ 100 ∷ 0 ∷ 0 ∷ 0 ∷ 6 ∷ 0 ∷ 0 ∷ 0 ∷ 3 ∷ 0 ∷ 0 ∷ 0 ∷ 2 ∷ 63 ∷ 128 ∷ 0 ∷ 0 ∷ 0 ∷ 0 ∷ 0
    ∷ 0 ∷ 63 ∷ 128 ∷ 0 ∷ 0 ∷ []

pub encoded_snapshot : encode unit (full_snapshot snapshot) ≡ value snapshot_bytes
unfolding encode validate_message validate_full_snapshot validate_counts validate_input_window
    input_receive_through_for validate_recipient known_session_mode known_respawn_result
    validate_owners is_strictly_sorted index_owners valid_movement is_finite le_float
    validate_entities index_entities known_entity_kind check_piece find lt_float ne_float
    EventKey-discrete check_absorption check_first check_follow check_owned check_playing
    check_receipts check_sequence check_spectating find_piece validate_receipts validate_session
    PredictionKey-discrete check_food check_prediction_key validate_event dec_in emplace assign
    contains insert ℕ_discrete payload_size authority_event_size encode_payload encode_full_snapshot
    encode_snapshot_head encode_owner encode_entity encode_prediction_key encode_receipt
    encode_authority_event encode_food_consumed write_u8 write_u16 write_u32 write_u64 write_float
    byte_from message_kind write_header
encoded_snapshot = refl
