-- ===== src/Protocol/Tests/Delivery.antt =====
-- The theorems of the codec at the messages of Tests.
use mycore.Base.{◌≡◌, ◌+◌, ◌*◌, ◌≤◌, arith, length}
use mycore.Base.Results.{value}
use mycore.Protocol.Messages.{maximum_encoded_message_bytes, full_snapshot}
use mycore.Protocol.Encode.{encode_payload}
use mycore.Protocol.Fields.RoundTrip.{OwnerStateFits}
use mycore.Protocol.Decode.Items.{EntityStateFits, AuthorityReceiptFits}
use mycore.Protocol.Codec.Heads.{HeadFits}
use mycore.Protocol.Codec.Snapshots.{FullSnapshotFits}
use mycore.Protocol.Codec.Sizes.{length-encode_payload}
use mycore.Protocol.Codec.RoundTrip.{decode-encode}
use mycore.Protocol.Codec.Delivered.{decode-valid}
use mycore.Protocol.Codec.Limits.{encode-length, encode-input_packet}
use mycore.Protocol.Validate.Session.{validate_message}
use mycore.Protocol.Codec.{payload_size, decode}
use mycore.Protocol.Consistent.{All, IsAscending, IsOwned, HasPiece}
use mycore.Protocol.Consistent.Snapshot.{validate_full_snapshot-IsConsistent}
use mycore.Protocol.Tests.{
  valid_snapshot, unit, packet, packet_bytes, encoded_packet, piece, food, player, meal, snapshot,
  snapshot_bytes, encoded_snapshot,
}

piece-Fits : EntityStateFits piece
piece-Fits = record {
  entity_id = omega arith;
  owner_id = omega arith;
  position_x = omega arith;
  position_y = omega arith;
  mass = omega arith;
  launch_velocity_x = omega arith;
  launch_velocity_y = omega arith;
  merge_eligible_tick = omega arith;
  kind = omega arith;
  prediction_key = record {
    owner_id = omega arith;
    input_id = omega arith;
    child_ordinal = omega arith;
  };
}

food-Fits : EntityStateFits food
food-Fits = record {
  entity_id = omega arith;
  owner_id = omega arith;
  position_x = omega arith;
  position_y = omega arith;
  mass = omega arith;
  launch_velocity_x = omega arith;
  launch_velocity_y = omega arith;
  merge_eligible_tick = omega arith;
  kind = omega arith;
  prediction_key = tt;
}

player-Fits : OwnerStateFits player
player-Fits = record {
  owner_id = omega arith;
  movement_x = omega arith;
  movement_y = omega arith;
  last_non_zero_movement_x = omega arith;
  last_non_zero_movement_y = omega arith;
  last_input_id = omega arith;
  split_cooldown_end_tick = omega arith;
}

meal-Fits : AuthorityReceiptFits meal
meal-Fits = record {
  sequence_id = omega arith;
  event = record {
    server_tick = omega arith;
    food_entity_id = omega arith;
    consumer_entity_id = omega arith;
    consumer_owner_id = omega arith;
    food_position_x = omega arith;
    food_position_y = omega arith;
    transferred_mass = omega arith;
  };
}

head-Fits : HeadFits snapshot
head-Fits = record {
  snapshot_id = omega arith;
  server_tick = omega arith;
  last_processed_input_id = omega arith;
  input_receive_through = omega arith;
  pending_input_count = omega arith;
  checkpoint_schema_id = omega arith;
  checkpoint_digest = omega arith;
  next_entity_id = omega arith;
  mode = omega arith;
  primary_entity_id = omega arith;
  follow_entity_id = omega arith;
  defeat_tick = tt;
  respawn_available_tick = tt;
  latest_respawn_request_id = omega arith;
  latest_respawn_result = omega arith;
  authority_receipts_retired_through = omega arith;
}

snapshot-Fits : FullSnapshotFits snapshot
snapshot-Fits = record {
  head = head-Fits;
  owned_entity_ids = (omega arith, tt);
  latest_absorption = tt;
  owners = (player-Fits, tt);
  entities = (piece-Fits, (food-Fits, tt));
  authority_receipts = (meal-Fits, tt);
}

validate_full_snapshot-IsConsistent_example :
    IsAscending (λ owner. owner.owner_id) snapshot.owners
    × IsAscending (λ entity. entity.entity_id) snapshot.entities
    × All (IsOwned snapshot.owners) snapshot.entities
    × All (HasPiece snapshot.entities) snapshot.owners
validate_full_snapshot-IsConsistent_example =
    validate_full_snapshot-IsConsistent unit snapshot valid_snapshot

decode-encode_example : decode unit snapshot_bytes ≡ value (full_snapshot snapshot)
decode-encode_example =
    decode-encode unit (full_snapshot snapshot) snapshot_bytes snapshot-Fits encoded_snapshot

decode-valid_example : validate_message unit (full_snapshot snapshot) ≡ value tt
decode-valid_example =
    decode-valid unit snapshot_bytes (full_snapshot snapshot) decode-encode_example

encode-length_example : (12 ≤ 220) × (220 ≤ maximum_encoded_message_bytes + 4)
encode-length_example = encode-length unit (full_snapshot snapshot) snapshot_bytes encoded_snapshot

encode-input_packet_example : (39 ≤ 57) × (57 ≤ 75) × (57 ≡ 21 + 2 * 18)
encode-input_packet_example = encode-input_packet unit packet packet_bytes encoded_packet

length-encode_payload_example :
    length (encode_payload (full_snapshot snapshot)) ≡ payload_size (full_snapshot snapshot) + 4
length-encode_payload_example = length-encode_payload (full_snapshot snapshot)
