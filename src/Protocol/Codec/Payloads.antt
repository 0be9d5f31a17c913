-- ===== src/Protocol/Codec/Payloads.antt =====
-- The payload of each message but a snapshot is read back as it was written.
use mycore.Base.{
  ℕ, ◌+◌, ◌*◌, ◌%◌, ◌<◌, ◌≤◌, ◌^◌, ◌≡◌, refl, ◌∙◌, [], ◌++◌, length, arith, ltb, ◌==◌, ◌||◌, false,
}
use mycore.Base.Results.{value}
use mycore.Base.Chains.{then-value, refuse-value}
use mycore.Protocol.Float32.{FloatUnit}
use mycore.Protocol.Messages.{
  ClientHello, ServerWelcome, InputPacket, ClientStatus, Message, client_hello, server_welcome,
  input_packet, client_status,
}
use mycore.Protocol.Bytes.{Bytes, write_u8, write_u32, read_u8, read_u32, join_u32_lem}
use mycore.Protocol.Encode.{
  write_each, encode_rules, encode_client_hello, encode_server_welcome, encode_sample,
  encode_input_packet, encode_client_status,
}
use mycore.Protocol.Fields.{decode_rules, decode_sample}
use mycore.Protocol.Fields.RoundTrip.{
  WorldRulesFits, InputSampleFits, decode_rules-encode_rules, decode_sample-encode_sample,
}
use mycore.Protocol.Validate.{validate_input_packet}
use mycore.Protocol.Validate.Session.{validate_message}
use mycore.Protocol.Decode.{
  need, repeat, checked, decode_client_hello, decode_server_welcome, decode_input_packet,
  decode_client_status,
}
use mycore.Protocol.Decode.Steps.{need-some, bind-step, refuse-step, exactly-step, step-last}
use mycore.Protocol.Decode.Items.{Each, repeat-write_each}
use mycore.Protocol.Codec.Sizes.{length-write_each, length-encode_sample}

pub record ServerWelcomeFits (message : ServerWelcome) : Type 0 where
  pub client_id : message.client_id < 2 ^ 32
  pub accepted_role : message.accepted_role < 2 ^ 8
  pub server_tick : message.server_tick < 2 ^ 32
  pub respawn_cooldown_ticks : message.respawn_cooldown_ticks < 2 ^ 32
  pub world_rules : WorldRulesFits message.world_rules

pub record InputPacketFits (message : InputPacket) : Type 0 where
  pub last_received_snapshot_id : message.last_received_snapshot_id < 2 ^ 32
  pub last_received_authority_receipt_sequence :
      message.last_received_authority_receipt_sequence < 2 ^ 32
  pub samples : Each InputSampleFits message.samples

pub record ClientStatusFits (message : ClientStatus) : Type 0 where
  pub last_received_snapshot_id : message.last_received_snapshot_id < 2 ^ 32
  pub last_received_authority_receipt_sequence :
      message.last_received_authority_receipt_sequence < 2 ^ 32

few_of : (n : ℕ) → (n == 0 || ltb 3 n) ≡ false → (1 ≤ n) × (n ≤ 3)
few_of n h = ground arith

some_and_few : (n : ℕ) → 1 ≤ n → n ≤ 3 → (n == 0 || ltb 3 n) ≡ false
some_and_few n h g = ground arith

module _ (unit : FloatUnit) where
  pub checked-valid :
      (message : Message) (rest : Bytes)
      → validate_message unit message ≡ value tt
      → checked unit message rest ≡ value (message, rest)
  checked-valid message rest h = rw (h, checked) refl

  pub decode_client_hello-encode :
      (message : ClientHello)
      → validate_message unit (client_hello message) ≡ value tt
      → decode_client_hello unit (encode_client_hello message) ≡ value (client_hello message, [])
  unfolding decode_client_hello encode_client_hello write_u8 read_u8
  decode_client_hello-encode message valid = rw (valid, checked) refl

  pub decode_client_status-encode :
      (message : ClientStatus)
      → ClientStatusFits message
      → validate_message unit (client_status message) ≡ value tt
      → decode_client_status unit (encode_client_status message) ≡ value (client_status message, [])
  unfolding decode_client_status encode_client_status write_u32 read_u32 read_u8
  decode_client_status-encode message h valid =
      rw
        (
          join_u32_lem message.last_received_snapshot_id h.last_received_snapshot_id,
          join_u32_lem message.last_received_authority_receipt_sequence
              h.last_received_authority_receipt_sequence,
        )
        (checked-valid (client_status message) [] valid)

  pub decode_server_welcome-encode :
      (message : ServerWelcome)
      → ServerWelcomeFits message
      → validate_message unit (server_welcome message) ≡ value tt
      → decode_server_welcome unit (encode_server_welcome message)
        ≡ value (server_welcome message, [])
  unfolding decode_server_welcome encode_server_welcome write_u32 read_u32 write_u8 read_u8
  decode_server_welcome-encode message h valid =
      rw
        (
          join_u32_lem message.client_id h.client_id,
          join_u32_lem message.server_tick h.server_tick,
          join_u32_lem message.respawn_cooldown_ticks h.respawn_cooldown_ticks,
        )
        (bind-step (need decode_rules) _ _ message.world_rules [] (
            step-last (need decode_rules) (encode_rules message.world_rules) message.world_rules (
              need-some decode_rules _ _
                (decode_rules-encode_rules message.world_rules [] h.world_rules)))
          ∙ checked-valid (server_welcome message) [] valid)

  -- A valid packet has one to three samples.
  pub valid_packet :
      (message : InputPacket)
      → validate_message unit (input_packet message) ≡ value tt
      → (1 ≤ length message.samples) × (length message.samples ≤ 3)
  unfolding validate_message validate_input_packet
  valid_packet message valid =
      let (_, counted) = then-value _ _ tt valid in
      let (counts, _) = then-value _ _ tt counted in
      let few : (length message.samples == 0 || ltb 3 (length message.samples)) ≡ false =
        refuse-value _ _ counts in
      few_of (length message.samples) few

  pub decode_input_packet-encode :
      (message : InputPacket)
      → InputPacketFits message
      → validate_message unit (input_packet message) ≡ value tt
      → decode_input_packet unit (encode_input_packet message) ≡ value (input_packet message, [])
  unfolding decode_input_packet encode_input_packet write_u32 read_u32 write_u8 read_u8
  decode_input_packet-encode message h valid =
      let (some_samples, few_samples) = valid_packet message valid in
      let count : length message.samples % 2 ^ 8 ≡ length message.samples = omega arith in
      let size : length (write_each encode_sample message.samples) ≡ length message.samples * 18 =
        length-write_each encode_sample 18 length-encode_sample message.samples in
      let packet = input_packet message in
      let samples = write_each encode_sample message.samples in
      let payload : Bytes =
        write_u32 message.last_received_snapshot_id
        ++ (write_u32 message.last_received_authority_receipt_sequence ++ samples) in
      let packet_size : length payload ≡ 2 * 4 + length message.samples * 18 =
        omega (arith, size) in
      rw (count) (
        refuse-step payload _ _ _ (some_and_few (length message.samples) some_samples few_samples)
        ∙ exactly-step payload _ _ packet_size
        ∙ rw
            (
              join_u32_lem message.last_received_snapshot_id h.last_received_snapshot_id,
              join_u32_lem message.last_received_authority_receipt_sequence
                  h.last_received_authority_receipt_sequence,
            )
            (bind-step (repeat (length message.samples) (need decode_sample)) _ _ message.samples []
                (step-last (repeat (length message.samples) (need decode_sample)) samples
                  message.samples
                  (repeat-write_each (need decode_sample) encode_sample InputSampleFits
                    (λ sample rest fits.
                      need-some decode_sample _ _ (decode_sample-encode_sample sample rest fits))
                    message.samples [] h.samples))
              ∙ checked-valid packet [] valid))
