-- ===== src/Protocol/Decode.antt =====
-- codec.cpp: the reading half, message by message. `decode` itself is in Codec.
pub mod Snapshot
pub mod Steps
pub mod Items
use mycore.Base.{
  ℕ, zero, suc, ◌+◌, ◌*◌, Option, none, some, List, [], ◌∷◌, Bool, true, false, not, ◌||◌, ltb,
  ◌==◌, if◌then◌else◌, length,
}
use mycore.Base.Results.{Variant, value, error}
use mycore.Base.Chains.{refuse}
use mycore.Protocol.Float32.{FloatUnit}
use mycore.Protocol.Messages.{
  u32_max, maximum_input_samples_per_packet, maximum_authority_receipts_per_snapshot, CodecError,
  ServerWelcome, PredictionKey, EntityState, PlayerAbsorbed, AuthorityEvent, food_consumed,
  player_absorbed, player_split, pieces_merged, AuthorityReceipt, FullSnapshot, Message,
  client_hello, server_welcome, input_packet, full_snapshot, client_status,
}
use mycore.Protocol.Bytes.{Bytes, Reader, read_u8, read_u16, read_u32, read_u64, read_float}
use mycore.Protocol.Fields.{
  decode_rules, decode_absorption, decode_food_consumed, decode_player_split, decode_pieces_merged,
  decode_sample, decode_owner, decode_prediction_key,
}
use mycore.Protocol.Validate.{Check}
use mycore.Protocol.Validate.Session.{validate_message}

-- A step of a decoder: it returns an error, or a value with the bytes that are left.
abbrev pub Decoder : Type 0 → Type 0
Decoder A = Bytes → Variant CodecError (A × Bytes)

infixl 5 ◌>>=◌ ◌>>◌
abbrev pub ◌>>=◌ : {A B : Type 0} → Decoder A → (A → Decoder B) → Decoder B
◌>>=◌ step next bytes = elim (step bytes) [ error e ↦ error e | value (a, rest) ↦ next a rest ]

abbrev pub ◌>>◌ : {B : Type 0} → Decoder (Unit {0}) → Decoder B → Decoder B
step >> next = step >>= λ u. next

abbrev pub pure : {A : Type 0} → A → Decoder A
pure a bytes = value (a, bytes)

-- A read whose refusal is an error.
abbrev pub need : {A : Type 0} → Reader A → Decoder A
need read bytes = elim (read bytes) [ none ↦ error CodecError.truncated | some r ↦ value r ]

abbrev pub refuse_if : Bool → CodecError → Decoder (Unit {0})
refuse_if test e bytes = elim test [ true ↦ error e | false ↦ value (tt, bytes) ]

-- `if (reader.remaining() < count) { return CodecError::Truncated; }`.
abbrev pub at_least : ℕ → Decoder (Unit {0})
at_least count bytes = refuse_if (ltb (length bytes) count) CodecError.truncated bytes

-- `if (reader.remaining() != 0) { return CodecError::TrailingBytes; }`.
abbrev pub at_end : Decoder (Unit {0})
at_end bytes = refuse_if (not (length bytes == 0)) CodecError.trailing_bytes bytes

-- Exactly so many bytes are left.
abbrev pub exactly : ℕ → Decoder (Unit {0})
exactly count = do
  at_least count
  (λ bytes. refuse_if (ltb count (length bytes)) CodecError.trailing_bytes bytes)

-- A loop that reads so many elements.
unfoldable pub repeat : {A : Type 0} → ℕ → Decoder A → Decoder (List A)
repeat zero step bytes = value ([], bytes)
repeat (suc n) step bytes = elim (step bytes) [
  | error e ↦ error e
  | value (a, rest) ↦ elim (repeat n step rest) [
    | error e ↦ error e
    | value (xs, rest') ↦ value (a ∷ xs, rest')
  ]
]

-- The end of each decoder: the check of the message.
abbrev pub checked : FloatUnit → Message → Decoder Message
checked unit message bytes = elim (validate_message unit message) [
  | error e ↦ error e
  | value u ↦ value (message, bytes)
]

module _ (unit : FloatUnit) where
  unfoldable pub decode_client_hello : Decoder Message
  decode_client_hello = do
    requested_role ← need read_u8
    at_end
    checked unit (client_hello (record { requested_role = requested_role }))

  unfoldable pub decode_server_welcome : Decoder Message
  decode_server_welcome = do
    client_id ← need read_u32
    accepted_role ← need read_u8
    server_tick ← need read_u32
    respawn_cooldown_ticks ← need read_u32
    world_rules ← need decode_rules
    at_end
    checked unit (
        server_welcome (record {
          client_id = client_id;
          accepted_role = accepted_role;
          server_tick = server_tick;
          respawn_cooldown_ticks = respawn_cooldown_ticks;
          world_rules = world_rules;
        }))

  unfoldable pub decode_client_status : Decoder Message
  decode_client_status = do
    last_received_snapshot_id ← need read_u32
    last_received_authority_receipt_sequence ← need read_u32
    at_end
    checked unit (
        client_status (record {
          last_received_snapshot_id = last_received_snapshot_id;
          last_received_authority_receipt_sequence = last_received_authority_receipt_sequence;
        }))

  unfoldable pub decode_input_packet : Decoder Message
  decode_input_packet = do
    sample_count ← need read_u8
    refuse_if (sample_count == 0 || ltb maximum_input_samples_per_packet sample_count)
        CodecError.out_of_range
    exactly (2 * 4 + sample_count * 18)
    last_received_snapshot_id ← need read_u32
    last_received_authority_receipt_sequence ← need read_u32
    samples ← repeat sample_count (need decode_sample)
    checked unit (
        input_packet (record {
          last_received_snapshot_id = last_received_snapshot_id;
          last_received_authority_receipt_sequence = last_received_authority_receipt_sequence;
          samples = samples;
        }))
