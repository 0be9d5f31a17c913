-- ===== src/Protocol/Decode/Snapshot.antt =====
-- codec.cpp: `decode_authority_event` and `decode_full_snapshot`.
use mycore.Base.{ℕ, ◌+◌, ◌*◌, Option, none, some, List, [], not, ltb, ◌==◌, if◌then◌else◌}
use mycore.Base.Results.{error}
use mycore.Protocol.Float32.{FloatUnit}
use mycore.Protocol.Messages.{
  u32_max, maximum_authority_receipts_per_snapshot, CodecError, OwnerState, EntityState,
  PlayerAbsorbed, AuthorityEvent, food_consumed, player_absorbed, player_split, pieces_merged,
  AuthorityReceipt, FullSnapshot, Message, full_snapshot,
}
use mycore.Protocol.Validate.{known_authority_event_kind}
use mycore.Protocol.Bytes.{Reader, read_u8, read_u16, read_u32, read_u64, read_float}
use mycore.Protocol.Fields.{
  decode_absorption, decode_food_consumed, decode_player_split, decode_pieces_merged, decode_owner,
  decode_prediction_key,
}
use mycore.Protocol.Decode.{
  Decoder, ◌>>=◌, ◌>>◌, pure, need, refuse_if, at_least, at_end, repeat, checked,
}

-- The event of the kind.
unfoldable pub decode_event_of : ℕ → Decoder AuthorityEvent
decode_event_of kind =
    if kind == 1
    then (do event ← need decode_food_consumed; pure (food_consumed event))
    else if kind == 2
    then (do event ← need decode_absorption; pure (player_absorbed event))
    else if kind == 3
    then (do event ← need decode_player_split; pure (player_split event))
    else if kind == 4
    then (do event ← need decode_pieces_merged; pure (pieces_merged event))
    else (λ bytes. error CodecError.invalid_enum)

unfoldable pub decode_authority_event : Decoder AuthorityEvent
decode_authority_event = do
  kind ← need read_u8
  refuse_if (not (known_authority_event_kind kind)) CodecError.invalid_enum
  decode_event_of kind

unfoldable pub decode_receipt : Decoder AuthorityReceipt
decode_receipt = do
  receipt_sequence ← need read_u32
  event ← decode_authority_event
  pure (record { sequence_id = receipt_sequence; event = event })

-- What a flag announces.
abbrev pub when_flag : {A : Type 0} → ℕ → Reader A → Decoder (Option A)
when_flag flag read = if flag == 0 then pure none else (do a ← need read; pure (some a))

unfoldable pub decode_entity : Decoder EntityState
decode_entity = do
  entity_id ← need read_u32
  entity_kind ← need read_u8
  owner_id ← need read_u32
  position_x ← need read_float
  position_y ← need read_float
  mass ← need read_float
  launch_velocity_x ← need read_float
  launch_velocity_y ← need read_float
  merge_eligible_tick ← need read_u32
  has_prediction_key ← need read_u8
  refuse_if (ltb 1 has_prediction_key) CodecError.out_of_range
  prediction_key ← when_flag has_prediction_key decode_prediction_key
  pure (record {
    entity_id = entity_id;
    kind = entity_kind;
    owner_id = owner_id;
    position_x = position_x;
    position_y = position_y;
    mass = mass;
    launch_velocity_x = launch_velocity_x;
    launch_velocity_y = launch_velocity_y;
    merge_eligible_tick = merge_eligible_tick;
    prediction_key = prediction_key;
  })

-- The greatest value stands for no tick.
abbrev pub optional_tick : ℕ → Option ℕ
optional_tick tick = if tick == u32_max then none else some tick

-- The fixed part of a snapshot: the message so far, the number of owned entities, and whether there
-- is an absorption.
unfoldable pub decode_snapshot_head : Decoder (FullSnapshot × ℕ × ℕ)
decode_snapshot_head = do
  snapshot_id ← need read_u32
  server_tick ← need read_u32
  last_processed_input_id ← need read_u32
  input_receive_through ← need read_u32
  pending_input_count ← need read_u8
  authority_receipts_retired_through ← need read_u32
  checkpoint_schema_id ← need read_u16
  checkpoint_digest ← need read_u64
  next_entity_id ← need read_u32
  session_mode ← need read_u8
  primary_entity_id ← need read_u32
  follow_entity_id ← need read_u32
  defeat_tick ← need read_u32
  respawn_available_tick ← need read_u32
  latest_respawn_request_id ← need read_u32
  latest_respawn_result ← need read_u8
  owned_entity_count ← need read_u16
  has_latest_absorption ← need read_u8
  pure (
    record {
      snapshot_id = snapshot_id;
      server_tick = server_tick;
      last_processed_input_id = last_processed_input_id;
      input_receive_through = input_receive_through;
      pending_input_count = pending_input_count;
      checkpoint_schema_id = checkpoint_schema_id;
      checkpoint_digest = checkpoint_digest;
      next_entity_id = next_entity_id;
      recipient = record {
        mode = session_mode;
        owned_entity_ids = [];
        primary_entity_id = primary_entity_id;
        follow_entity_id = follow_entity_id;
        defeat_tick = optional_tick defeat_tick;
        respawn_available_tick = optional_tick respawn_available_tick;
        latest_absorption = none;
        latest_respawn_request_id = latest_respawn_request_id;
        latest_respawn_result = latest_respawn_result;
      };
      owners = [];
      entities = [];
      authority_receipts_retired_through = authority_receipts_retired_through;
      authority_receipts = [];
    },
    owned_entity_count,
    has_latest_absorption,
  )

-- The parts of a size of their own, each after its number.
unfoldable pub decode_owned : ℕ → ℕ → Decoder (List ℕ × Option PlayerAbsorbed)
decode_owned owned_entity_count has_latest_absorption = do
  at_least (owned_entity_count * 4 + (if has_latest_absorption == 0 then 0 else 40) + 2)
  owned_entity_ids ← repeat owned_entity_count (need read_u32)
  latest_absorption ← when_flag has_latest_absorption decode_absorption
  pure (owned_entity_ids, latest_absorption)

unfoldable pub decode_owners : Decoder (List OwnerState)
decode_owners = do
  owner_count ← need read_u16
  at_least (owner_count * 28 + 2)
  repeat owner_count (need decode_owner)

unfoldable pub decode_entities : Decoder (List EntityState)
decode_entities = do
  entity_count ← need read_u16
  at_least (entity_count * 34 + 1)
  repeat entity_count decode_entity

unfoldable pub decode_receipts : Decoder (List AuthorityReceipt)
decode_receipts = do
  receipt_count ← need read_u8
  refuse_if (ltb maximum_authority_receipts_per_snapshot receipt_count) CodecError.too_many_receipts
  repeat receipt_count decode_receipt

unfoldable pub decode_full_snapshot : FloatUnit → Decoder Message
decode_full_snapshot unit = do
  (message, owned_entity_count, has_latest_absorption) ← decode_snapshot_head
  refuse_if (ltb 1 has_latest_absorption) CodecError.out_of_range
  (owned_entity_ids, latest_absorption) ← decode_owned owned_entity_count has_latest_absorption
  owners ← decode_owners
  entities ← decode_entities
  authority_receipts ← decode_receipts
  at_end
  checked unit (
      full_snapshot (record message {
        recipient = record message.recipient {
          owned_entity_ids = owned_entity_ids;
          latest_absorption = latest_absorption;
        };
        owners = owners;
        entities = entities;
        authority_receipts = authority_receipts;
      }))
