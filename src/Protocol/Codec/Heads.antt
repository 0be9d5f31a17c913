-- ===== src/Protocol/Codec/Heads.antt =====
-- The fixed part of a snapshot is read back as it was written.
use mycore.Base.{
  ℕ, ◌/◌, ◌%◌, ◌<◌, ◌≤◌, ◌^◌, ◌≡◌, refl, Option, none, some, [], ◌++◌, length, arith, false,
}
use mycore.Base.Results.{value}
use mycore.Protocol.Messages.{FullSnapshot}
use mycore.Protocol.Bytes.{
  Bytes, write_u8, write_u16, write_u32, write_u64, read_u8, read_u16, read_u32, read_u64,
  join_u16_lem, join_u32_lem, join_u64_lem,
}
use mycore.Protocol.Encode.{value_or_max, flag, encode_snapshot_head}
use mycore.Protocol.Decode.Snapshot.{optional_tick, decode_snapshot_head}
use mycore.Protocol.Validate.Snapshot.{invalid_optional_tick}

abbrev pub TickFits : Option ℕ → Type 0
TickFits none = Unit
TickFits (some tick) = tick < 2 ^ 32

-- The numbers of the fixed part fit their widths.
pub record HeadFits (message : FullSnapshot) : Type 0 where
  pub snapshot_id : message.snapshot_id < 2 ^ 32
  pub server_tick : message.server_tick < 2 ^ 32
  pub last_processed_input_id : message.last_processed_input_id < 2 ^ 32
  pub input_receive_through : message.input_receive_through < 2 ^ 32
  pub pending_input_count : message.pending_input_count < 2 ^ 8
  pub checkpoint_schema_id : message.checkpoint_schema_id < 2 ^ 16
  pub checkpoint_digest : message.checkpoint_digest < 2 ^ 64
  pub next_entity_id : message.next_entity_id < 2 ^ 32
  pub mode : message.recipient.mode < 2 ^ 8
  pub primary_entity_id : message.recipient.primary_entity_id < 2 ^ 32
  pub follow_entity_id : message.recipient.follow_entity_id < 2 ^ 32
  pub defeat_tick : TickFits message.recipient.defeat_tick
  pub respawn_available_tick : TickFits message.recipient.respawn_available_tick
  pub latest_respawn_request_id : message.recipient.latest_respawn_request_id < 2 ^ 32
  pub latest_respawn_result : message.recipient.latest_respawn_result < 2 ^ 8
  pub authority_receipts_retired_through : message.authority_receipts_retired_through < 2 ^ 32

-- What the fixed part of a snapshot says of it.
abbrev pub head_of : FullSnapshot → FullSnapshot × ℕ × ℕ
head_of message = (
  record message {
    recipient = record message.recipient { owned_entity_ids = []; latest_absorption = none };
    owners = [];
    entities = [];
    authority_receipts = [];
  },
  length message.recipient.owned_entity_ids,
  flag message.recipient.latest_absorption,
)

tick_fits : (o : Option ℕ) → TickFits o → value_or_max o < 2 ^ 32
tick_fits none h = omega arith
tick_fits (some tick) h = h

tick_back : (o : Option ℕ) → invalid_optional_tick o ≡ false → optional_tick (value_or_max o) ≡ o
tick_back none h = refl
tick_back (some tick) h = rw (h) refl

module _ (message : FullSnapshot) (h : HeadFits message)
    (owned : length message.recipient.owned_entity_ids ≤ 65535)
    (defeat : invalid_optional_tick message.recipient.defeat_tick ≡ false)
    (respawn : invalid_optional_tick message.recipient.respawn_available_tick ≡ false) where
  pub decode_snapshot_head-encode :
      (rest : Bytes)
      → decode_snapshot_head (encode_snapshot_head message ++ rest) ≡ value (head_of message, rest)
  unfolding decode_snapshot_head encode_snapshot_head write_u8 read_u8 write_u16 read_u16 write_u32
      read_u32 write_u64 read_u64
  decode_snapshot_head-encode rest =
      let recipient = message.recipient in
      let high : message.checkpoint_digest / 2 ^ 32 % 2 ^ 32 < 2 ^ 32 = omega arith in
      let low : message.checkpoint_digest % 2 ^ 32 < 2 ^ 32 = omega arith in
      let counted : length recipient.owned_entity_ids % 2 ^ 16 < 2 ^ 16 = omega arith in
      let count : length recipient.owned_entity_ids % 2 ^ 16 ≡ length recipient.owned_entity_ids =
        omega arith in
      rw
        (
          join_u32_lem message.snapshot_id h.snapshot_id,
          join_u32_lem message.server_tick h.server_tick,
          join_u32_lem message.last_processed_input_id h.last_processed_input_id,
          join_u32_lem message.input_receive_through h.input_receive_through,
          join_u32_lem message.authority_receipts_retired_through
              h.authority_receipts_retired_through,
          join_u16_lem message.checkpoint_schema_id h.checkpoint_schema_id,
          join_u32_lem (message.checkpoint_digest / 2 ^ 32 % 2 ^ 32) high,
          join_u32_lem (message.checkpoint_digest % 2 ^ 32) low,
          join_u64_lem message.checkpoint_digest h.checkpoint_digest,
          join_u32_lem message.next_entity_id h.next_entity_id,
          join_u32_lem recipient.primary_entity_id h.primary_entity_id,
          join_u32_lem recipient.follow_entity_id h.follow_entity_id,
          join_u32_lem (value_or_max recipient.defeat_tick)
              (tick_fits recipient.defeat_tick h.defeat_tick),
          join_u32_lem (value_or_max recipient.respawn_available_tick)
              (tick_fits recipient.respawn_available_tick h.respawn_available_tick),
          join_u32_lem recipient.latest_respawn_request_id h.latest_respawn_request_id,
          join_u16_lem (length recipient.owned_entity_ids % 2 ^ 16) counted,
          count,
          tick_back recipient.defeat_tick defeat,
          tick_back recipient.respawn_available_tick respawn,
        )
        refl
