-- ===== src/Protocol/Codec/Limits.antt =====
-- How long an encoded message can be.
use mycore.Base.{◌+◌, ◌*◌, ◌≤◌, ◌≡◌, arith}
use mycore.Base.Results.{value}
use mycore.Protocol.Float32.{FloatUnit}
use mycore.Protocol.Messages.{maximum_encoded_message_bytes, InputPacket, Message, input_packet}
use mycore.Protocol.Bytes.{Bytes}
use mycore.Base.{length}
use mycore.Protocol.Codec.{payload_size, encode}
use mycore.Protocol.Codec.Sizes.{uncounted}
use mycore.Protocol.Codec.Payloads.{valid_packet}
use mycore.Protocol.Codec.RoundTrip.{encode-Encodes, packet-length}

module _ (unit : FloatUnit) where
  -- An encoded message is not longer than a packet may be, or four bytes longer if it is a snapshot, and no shorter than its header.
  pub encode-length :
      (message : Message) (bytes : Bytes)
      → encode unit message ≡ value bytes
      → (12 ≤ length bytes) × (length bytes ≤ maximum_encoded_message_bytes + uncounted message)
  encode-length message bytes h =
      let e = encode-Encodes unit message bytes h in
      let small = e.size in
      (
        omega (arith, packet-length unit message bytes e),
        omega (arith, packet-length unit message bytes e),
      )

  -- An encoded input packet has 39, 57 or 75 bytes, so 75 at most.
  pub encode-input_packet :
      (packet : InputPacket) (bytes : Bytes)
      → encode unit (input_packet packet) ≡ value bytes
      → (39 ≤ length bytes) × (length bytes ≤ 75) × (length bytes ≡ 21 + length packet.samples * 18)
  unfolding payload_size
  encode-input_packet packet bytes h =
      let e = encode-Encodes unit (input_packet packet) bytes h in
      let (least, most) = valid_packet unit packet e.valid in
      let size = packet-length unit (input_packet packet) bytes e in
      (omega arith, omega arith, omega arith)
