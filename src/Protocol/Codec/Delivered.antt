-- ===== src/Protocol/Codec/Delivered.antt =====
-- What `decode` hands out has passed the checks.
use mycore.Base.{ℕ, ◌≡◌, length, arith, inl, inr}
use mycore.Base.Results.{value}
use mycore.Base.Chains.{Variant-cases}
use mycore.Protocol.Float32.{FloatUnit}
use mycore.Protocol.Messages.{Message}
use mycore.Protocol.Bytes.{Bytes}
use mycore.Protocol.Validate.Session.{validate_message}
use mycore.Protocol.Decode.{
  Decoder, checked, decode_client_hello, decode_server_welcome, decode_input_packet,
  decode_client_status,
}
use mycore.Protocol.Decode.Snapshot.{decode_full_snapshot}
use mycore.Protocol.Codec.{read_header, decode_payload, decode_packet, decode}

-- Each value that the decoder hands out has `P`.
Delivers : {A : Type 0} → (A → Type 0) → Decoder A → Type 0
Delivers {A} P step = (bytes : Bytes) (a : A) (rest : Bytes) → step bytes ≡ value (a, rest) → P a

module _ (unit : FloatUnit) where
  Valid : Message → Type 0
  Valid message = validate_message unit message ≡ value tt

  checked-Delivers : (message : Message) → Delivers Valid (checked unit message)
  unfolding Delivers Valid
  checked-Delivers message bytes a rest h = ground arith

  decode_client_hello-Delivers : Delivers Valid (decode_client_hello unit)
  unfolding Delivers Valid decode_client_hello
  decode_client_hello-Delivers bytes a rest h = ground arith

  decode_client_status-Delivers : Delivers Valid (decode_client_status unit)
  unfolding Delivers Valid decode_client_status
  decode_client_status-Delivers bytes a rest h = ground arith

  decode_server_welcome-Delivers : Delivers Valid (decode_server_welcome unit)
  unfolding Delivers Valid decode_server_welcome
  decode_server_welcome-Delivers bytes a rest h = ground arith

  decode_input_packet-Delivers : Delivers Valid (decode_input_packet unit)
  unfolding Delivers Valid decode_input_packet
  decode_input_packet-Delivers bytes a rest h = ground arith

  decode_full_snapshot-Delivers : Delivers Valid (decode_full_snapshot unit)
  unfolding Delivers Valid decode_full_snapshot
  decode_full_snapshot-Delivers bytes a rest h = ground arith

  decode_payload-Delivers : (kind : ℕ) → Delivers Valid (decode_payload unit kind)
  unfolding Delivers Valid decode_payload
  decode_payload-Delivers kind bytes a rest h = ground (
    arith,
    decode_client_hello-Delivers bytes a rest,
    decode_client_status-Delivers bytes a rest,
    decode_server_welcome-Delivers bytes a rest,
    decode_input_packet-Delivers bytes a rest,
    decode_full_snapshot-Delivers bytes a rest,
  )

  decode_packet-Delivers : (size : ℕ) → Delivers Valid (decode_packet unit size)
  unfolding Delivers Valid decode_packet
  decode_packet-Delivers size bytes a rest h = elim (Variant-cases (read_header bytes)) [
    | inl (((version, kind, flags, encoded), payload), at) ↦
        ground (arith, decode_payload-Delivers kind payload a rest)
    | inr (e, at) ↦ ground arith
  ]

  -- Whatever bytes come in: `decode` hands out only messages that pass the checks, the same that
  -- `encode` makes.
  pub decode-valid :
      (bytes : Bytes) (message : Message)
      → decode unit bytes ≡ value message
      → validate_message unit message ≡ value tt
  unfolding decode Valid Delivers
  decode-valid bytes message h = elim (Variant-cases (decode_packet unit (length bytes) bytes)) [
    | inl ((decoded, rest), at) ↦
        let passed = decode_packet-Delivers (length bytes) bytes decoded rest at in ground arith
    | inr (e, at) ↦ ground arith
  ]
