-- ===== src/Protocol/Codec.antt =====
-- codec.cpp: `encode` and `decode`.
pub mod Sizes
pub mod Payloads
pub mod Heads
pub mod Counts
pub mod Snapshots
pub mod RoundTrip
pub mod Delivered
pub mod Limits
use mycore.Base.{
  ℕ, ◌+◌, ◌-◌, ◌*◌, ◌%◌, ◌^◌, Option, none, some, List, [], ◌∷◌, ◌++◌, Bool, true, false, not, ◌||◌,
  ltb, ◌==◌, if◌then◌else◌, length,
}
use mycore.Base.Results.{Variant, value, error}
use mycore.Protocol.Float32.{FloatUnit}
use mycore.Protocol.Messages.{
  packet_header_bytes, maximum_encoded_message_bytes, protocol_version, CodecError, EntityState,
  AuthorityReceipt, AuthorityEvent, food_consumed, player_absorbed, player_split, pieces_merged,
  Message, client_hello, server_welcome, input_packet, full_snapshot, client_status,
}
use mycore.Protocol.Bytes.{
  Bytes, Reader, write_u8, write_u16, write_u32, read_u8, read_u16, read_u32,
}
use mycore.Protocol.Encode.{write_header, encode_payload}
use mycore.Protocol.Validate.{any_of}
use mycore.Protocol.Validate.Session.{validate_message}
use mycore.Protocol.Decode.{
  Decoder, ◌>>=◌, ◌>>◌, pure, need, refuse_if, decode_client_hello, decode_server_welcome,
  decode_input_packet, decode_client_status,
}
use mycore.Protocol.Decode.Snapshot.{decode_full_snapshot}

-- The numbers of `MessageKind`.
unfoldable pub message_kind : Message → ℕ
message_kind (client_hello message) = 1
message_kind (server_welcome message) = 2
message_kind (input_packet message) = 3
message_kind (full_snapshot message) = 4
message_kind (client_status message) = 5

unfoldable pub authority_event_size : AuthorityEvent → ℕ
authority_event_size (food_consumed event) = 28
authority_event_size (player_absorbed event) = 40
authority_event_size (player_split event) = 46
authority_event_size (pieces_merged event) = 20

abbrev pub size_if : {A : Type 0} → Option A → ℕ → ℕ
size_if none size = 0
size_if (some a) size = size

abbrev pub entities_size : List EntityState → ℕ
entities_size [] = 0
entities_size (entity ∷ entities) = 34 + size_if entity.prediction_key 10 + entities_size entities

abbrev pub receipts_size : List AuthorityReceipt → ℕ
receipts_size [] = 0
receipts_size (receipt ∷ receipts) = 5 + authority_event_size receipt.event + receipts_size receipts

unfoldable pub payload_size : Message → ℕ
payload_size (client_hello message) = 1
payload_size (server_welcome message) = 13 + 42
payload_size (input_packet message) = 9 + length message.samples * 18
payload_size (client_status message) = 8
payload_size (full_snapshot message) =
    61
    + length message.recipient.owned_entity_ids * 4
    + size_if message.recipient.latest_absorption 40
    + length message.owners * 28
    + entities_size message.entities
    + receipts_size message.authority_receipts

unfoldable pub encode : FloatUnit → Message → Variant CodecError Bytes
encode unit message = elim (validate_message unit message) [
  | error e ↦ error e
  | value u ↦
      if ltb (maximum_encoded_message_bytes - packet_header_bytes) (payload_size message)
      then error CodecError.message_too_large
      else let payload = encode_payload message in
        value (write_header (message_kind message) (length payload % 2 ^ 32) ++ payload)
]

-- The version, the kind, the flags and the size of the payload, after the magic bytes.
unfoldable pub read_header : Decoder (ℕ × ℕ × ℕ × ℕ)
read_header = do
  magic_d ← need read_u8
  magic_o ← need read_u8
  magic_t ← need read_u8
  magic_s ← need read_u8
  version ← need read_u16
  encoded_kind ← need read_u8
  flags ← need read_u8
  encoded_payload_size ← need read_u32
  refuse_if
      (any_of (
        not (magic_d == 0x44)
        ∷ not (magic_o == 0x4f)
        ∷ not (magic_t == 0x54)
        ∷ not (magic_s == 0x53)
        ∷ []))
      CodecError.invalid_magic
  pure (version, encoded_kind, flags, encoded_payload_size)

-- The switch on the kind.
unfoldable pub decode_payload : FloatUnit → ℕ → Decoder Message
decode_payload unit kind =
    if kind == 1
    then decode_client_hello unit
    else if kind == 2
    then decode_server_welcome unit
    else if kind == 3
    then decode_input_packet unit
    else if kind == 4
    then decode_full_snapshot unit
    else if kind == 5
    then decode_client_status unit
    else (λ bytes. error CodecError.unknown_message_kind)

-- The header is the first twelve bytes, and the payload is what is left after them.
unfoldable pub decode_packet : FloatUnit → ℕ → Decoder Message
decode_packet unit size = do
  (version, encoded_kind, flags, encoded_payload_size) ← read_header
  refuse_if (not (version == protocol_version)) CodecError.unsupported_version
  refuse_if (not (flags == 0)) CodecError.unsupported_flags
  refuse_if (not (encoded_payload_size == size - packet_header_bytes))
      CodecError.payload_length_mismatch
  decode_payload unit encoded_kind

unfoldable pub decode : FloatUnit → Bytes → Variant CodecError Message
decode unit bytes =
    if ltb maximum_encoded_message_bytes (length bytes)
    then error CodecError.message_too_large
    else if ltb (length bytes) packet_header_bytes
    then error CodecError.truncated
    else elim (decode_packet unit (length bytes) bytes) [
      | error e ↦ error e
      | value (message, rest) ↦ value message
    ]
