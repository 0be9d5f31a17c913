-- ===== src/Protocol/Codec/RoundTrip.antt =====
-- `decode` after `encode`.
use mycore.Base.{
  ℕ, ◌+◌, ◌-◌, ◌%◌, ◌<◌, ◌≤◌, ◌^◌, ◌≡◌, refl, ap, ◌∙◌, inl, inr, [], ◌++◌, length, length-append,
  arith, ltb, not, ◌==◌, if◌then◌else◌, false, Bool-cases,
}
use mycore.Base.Results.{value, error}
use mycore.Protocol.Float32.{FloatUnit}
use mycore.Protocol.Messages.{
  packet_header_bytes, maximum_encoded_message_bytes, CodecError, Message, client_hello,
  server_welcome, input_packet, full_snapshot, client_status,
}
use mycore.Protocol.Bytes.{
  Bytes, write_u8, write_u16, write_u32, read_u8, read_u16, read_u32, join_u16_lem, join_u32_lem,
}
use mycore.Protocol.Encode.{write_header, encode_payload}
use mycore.Protocol.Validate.Session.{validate_message}
use mycore.Protocol.Decode.Steps.{bind-step, refuse-step}
use mycore.Protocol.Codec.{
  message_kind, payload_size, encode, read_header, decode_payload, decode_packet, decode,
}
use mycore.Protocol.Codec.Sizes.{uncounted, length-encode_payload}
use mycore.Protocol.Codec.Payloads.{
  ServerWelcomeFits, InputPacketFits, ClientStatusFits, decode_client_hello-encode,
  decode_server_welcome-encode, decode_input_packet-encode, decode_client_status-encode,
}
use mycore.Protocol.Codec.Snapshots.{FullSnapshotFits, decode_full_snapshot-encode}

-- Each number of the message fits its width.
abbrev pub MessageFits : Message → Type 0
MessageFits (client_hello message) = message.requested_role < 2 ^ 8
MessageFits (server_welcome message) = ServerWelcomeFits message
MessageFits (input_packet message) = InputPacketFits message
MessageFits (full_snapshot message) = FullSnapshotFits message
MessageFits (client_status message) = ClientStatusFits message

read_header-write_header :
    (kind size : ℕ) (payload : Bytes)
    → size < 2 ^ 32
    → read_header (write_header kind size ++ payload) ≡ value ((5, kind, 0, size), payload)
unfolding read_header write_header write_u8 read_u8 write_u16 read_u16 write_u32 read_u32
read_header-write_header kind size payload h =
    rw (join_u16_lem 5 (omega arith), join_u32_lem size h) refl

length-write_header : (kind size : ℕ) → length (write_header kind size) ≡ 12
unfolding write_header write_u8 write_u16 write_u32
length-write_header kind size = refl

-- What `encode` writes, where it does.
pub record Encodes (unit : FloatUnit) (message : Message) (bytes : Bytes) : Type 0 where
  pub valid : validate_message unit message ≡ value tt
  pub size : payload_size message ≤ maximum_encoded_message_bytes - packet_header_bytes
  pub packet :
      bytes
      ≡ write_header (message_kind message) (length (encode_payload message) % 2 ^ 32)
        ++ encode_payload message

small_enough :
    (n : ℕ)
    → ltb (maximum_encoded_message_bytes - packet_header_bytes) n ≡ false
    → n ≤ maximum_encoded_message_bytes - packet_header_bytes
small_enough n h = ground arith

uncounted-le : (message : Message) → uncounted message ≤ 4
uncounted-le (client_hello message) = omega arith
uncounted-le (server_welcome message) = omega arith
uncounted-le (input_packet message) = omega arith
uncounted-le (full_snapshot message) = omega arith
uncounted-le (client_status message) = omega arith

same_size : (a b : ℕ) → a ≡ b → not (a == b) ≡ false
same_size a b h = ground arith

long_enough : (n k : ℕ) → n ≡ 12 + k → ltb n packet_header_bytes ≡ false
long_enough n k h = ground arith

module _ (unit : FloatUnit) where
  decode_payload-encode :
      (message : Message)
      → MessageFits message
      → validate_message unit message ≡ value tt
      → decode_payload unit (message_kind message) (encode_payload message) ≡ value (message, [])
  unfolding decode_payload message_kind encode_payload
  decode_payload-encode (client_hello message) h v = decode_client_hello-encode unit message v
  decode_payload-encode (server_welcome message) h v = decode_server_welcome-encode unit message h v
  decode_payload-encode (input_packet message) h v = decode_input_packet-encode unit message h v
  decode_payload-encode (full_snapshot message) h v = decode_full_snapshot-encode unit message h v
  decode_payload-encode (client_status message) h v = decode_client_status-encode unit message h v

  module _ (message : Message) (bytes : Bytes) where
    pub encode-Encodes : encode unit message ≡ value bytes → Encodes unit message bytes
    unfolding encode
    encode-Encodes h = record {
      valid = ground arith;
      size = small_enough (payload_size message) (ground arith);
      packet = ground arith;
    }

    -- The size of the packet: a header of twelve bytes and the payload.
    pub packet-length :
        Encodes unit message bytes → length bytes ≡ 12 + (payload_size message + uncounted message)
    packet-length e =
        ap length e.packet
        ∙ length-append
            (write_header (message_kind message) (length (encode_payload message) % 2 ^ 32))
            (encode_payload message)
        ∙ omega (
          arith,
          length-write_header (message_kind message) (length (encode_payload message) % 2 ^ 32),
          length-encode_payload message,
        )

    decode_packet-encode :
        MessageFits message
        → Encodes unit message bytes
        → decode_packet unit (length bytes) bytes ≡ value (message, [])
    unfolding decode_packet
    decode_packet-encode h e =
        let payload = encode_payload message in
        let limit = e.size in
        let small : length payload % 2 ^ 32 ≡ length payload =
          omega (arith, length-encode_payload message, uncounted-le message) in
        let fits : length payload % 2 ^ 32 < 2 ^ 32 = omega arith in
        let total : length payload % 2 ^ 32 ≡ length bytes - 12 =
          omega (arith, small, packet-length e, length-encode_payload message) in
        bind-step read_header _ bytes (5, message_kind message, 0, length payload % 2 ^ 32) payload
          (ap read_header e.packet
            ∙ read_header-write_header (message_kind message) (length payload % 2 ^ 32) payload
                fits)
        ∙ refuse-step payload (decode_payload unit (message_kind message))
            (not (length payload % 2 ^ 32 == length bytes - packet_header_bytes))
            CodecError.payload_length_mismatch (same_size _ _ total)
        ∙ decode_payload-encode message h e.valid

    -- What `encode` makes of a message, each of whose numbers fits its width, `decode` turns back into
    -- that message, unless it is longer than a packet may be. Only a snapshot can be: `payload_size` counts four bytes too
    -- few of it.
    pub decode-encode :
        MessageFits message
        → encode unit message ≡ value bytes
        → decode unit bytes ≡ (
            if ltb maximum_encoded_message_bytes (length bytes)
            then error CodecError.message_too_large
            else value message)
    unfolding decode
    decode-encode h at =
        let e = encode-Encodes at in
        let enough : ltb (length bytes) packet_header_bytes ≡ false =
          long_enough _ _ (packet-length e) in
        elim (Bool-cases (ltb maximum_encoded_message_bytes (length bytes))) [
          | inl long ↦ rw (long) refl
          | inr short ↦ rw (short, enough, decode_packet-encode h e) refl
        ]
