-- ===== src/Protocol/Codec/Sizes.antt =====
-- The sizes of what is written.
use mycore.Base.{
  ℕ, ◌+◌, ◌*◌, ◌≡◌, refl, ◌∙◌, Option, none, some, List, [], ◌∷◌, length, length-append, arith,
}
use mycore.Protocol.Messages.{
  WorldRules, InputSample, PredictionKey, OwnerState, EntityState, PlayerAbsorbed, AuthorityEvent,
  food_consumed, player_absorbed, player_split, pieces_merged, AuthorityReceipt, FullSnapshot,
  Message, client_hello, server_welcome, input_packet, full_snapshot, client_status,
}
use mycore.Protocol.Bytes.{Bytes, write_u8, write_u16, write_u32, write_u64, write_float}
use mycore.Protocol.Encode.{
  write_each, write_some, encode_rules, encode_absorption, encode_food_consumed,
  encode_player_split, encode_pieces_merged, encode_authority_event, encode_client_hello,
  encode_server_welcome, encode_sample, encode_input_packet, encode_client_status, encode_owner,
  encode_prediction_key, encode_entity, encode_receipt, encode_snapshot_head, encode_full_snapshot,
  encode_payload,
}
use mycore.Protocol.Codec.{
  authority_event_size, size_if, entities_size, receipts_size, payload_size,
}

-- A loop over elements of one size.
pub length-write_each :
    {A : Type 0} (write : A → Bytes) (n : ℕ)
    → ((x : A) → length (write x) ≡ n)
    → (xs : List A) → length (write_each write xs) ≡ length xs * n
length-write_each write n each [] = omega arith
length-write_each write n each (x ∷ xs) =
    length-append (write x) (write_each write xs)
    ∙ grind (arith, each x, length-write_each write n each xs)

pub length-write_some :
    {A : Type 0} (write : A → Bytes) (n : ℕ)
    → ((x : A) → length (write x) ≡ n)
    → (o : Option A) → length (write_some write o) ≡ size_if o n
length-write_some write n each none = refl
length-write_some write n each (some a) = each a

pub length-u32 : (v : ℕ) → length (write_u32 v) ≡ 4
unfolding write_u32
length-u32 v = refl

pub length-encode_absorption : (event : PlayerAbsorbed) → length (encode_absorption event) ≡ 40
unfolding encode_absorption write_u32 write_float
length-encode_absorption event = refl

length-encode_rules : (rules : WorldRules) → length (encode_rules rules) ≡ 42
unfolding encode_rules write_u16 write_u32 write_float
length-encode_rules rules = refl

pub length-encode_sample : (sample : InputSample) → length (encode_sample sample) ≡ 18
unfolding encode_sample write_u16 write_u32 write_float
length-encode_sample sample = refl

pub length-encode_owner : (owner : OwnerState) → length (encode_owner owner) ≡ 28
unfolding encode_owner write_u32 write_float
length-encode_owner owner = refl

length-encode_prediction_key : (key : PredictionKey) → length (encode_prediction_key key) ≡ 10
unfolding encode_prediction_key write_u16 write_u32
length-encode_prediction_key key = refl

length-encode_entity :
    (entity : EntityState) → length (encode_entity entity) ≡ 34 + size_if entity.prediction_key 10
unfolding encode_entity write_u8 write_u32 write_float
length-encode_entity entity = omega (
  arith,
  length-write_some encode_prediction_key 10 length-encode_prediction_key entity.prediction_key,
)

pub length-entities :
    (entities : List EntityState)
    → length (write_each encode_entity entities) ≡ entities_size entities
length-entities [] = refl
length-entities (entity ∷ entities) = omega (
  arith,
  length-append (encode_entity entity) (write_each encode_entity entities),
  length-encode_entity entity,
  length-entities entities,
)

length-encode_authority_event :
    (event : AuthorityEvent)
    → length (encode_authority_event event) ≡ 1 + authority_event_size event
unfolding encode_authority_event authority_event_size encode_food_consumed encode_absorption
    encode_player_split encode_pieces_merged write_u8 write_u16 write_u32 write_float
length-encode_authority_event (food_consumed event) = refl
length-encode_authority_event (player_absorbed event) = refl
length-encode_authority_event (player_split event) = refl
length-encode_authority_event (pieces_merged event) = refl

length-encode_receipt :
    (receipt : AuthorityReceipt)
    → length (encode_receipt receipt) ≡ 5 + authority_event_size receipt.event
unfolding encode_receipt write_u32
length-encode_receipt receipt = omega (arith, length-encode_authority_event receipt.event)

pub length-receipts :
    (receipts : List AuthorityReceipt)
    → length (write_each encode_receipt receipts) ≡ receipts_size receipts
length-receipts [] = refl
length-receipts (receipt ∷ receipts) = omega (
  arith,
  length-append (encode_receipt receipt) (write_each encode_receipt receipts),
  length-encode_receipt receipt,
  length-receipts receipts,
)

length-encode_snapshot_head : (message : FullSnapshot) → length (encode_snapshot_head message) ≡ 60
unfolding encode_snapshot_head write_u8 write_u16 write_u32 write_u64
length-encode_snapshot_head message = refl

-- What `payload_size` misses: the fixed fields of a snapshot have 65 bytes, and it counts 61.
abbrev pub uncounted : Message → ℕ
uncounted (client_hello message) = 0
uncounted (server_welcome message) = 0
uncounted (input_packet message) = 0
uncounted (full_snapshot message) = 4
uncounted (client_status message) = 0

-- The parts of a snapshot after the fixed one.
abbrev pub snapshot_tail : FullSnapshot → ℕ
snapshot_tail message =
    length message.recipient.owned_entity_ids * 4
    + size_if message.recipient.latest_absorption 40
    + length message.owners * 28
    + entities_size message.entities
    + receipts_size message.authority_receipts
    + 5

length-encode_full_snapshot :
    (message : FullSnapshot) → length (encode_full_snapshot message) ≡ 60 + snapshot_tail message
unfolding encode_full_snapshot write_u8 write_u16
length-encode_full_snapshot message =
    let recipient = message.recipient in
    let owned = write_each write_u32 recipient.owned_entity_ids in
    let absorption = write_some encode_absorption recipient.latest_absorption in
    let owners = write_each encode_owner message.owners in
    let entities = write_each encode_entity message.entities in
    omega (
      arith,
      length-append {0},
      length-encode_snapshot_head message,
      length-write_each write_u32 4 length-u32 recipient.owned_entity_ids,
      length-write_some encode_absorption 40 length-encode_absorption recipient.latest_absorption,
      length-write_each encode_owner 28 length-encode_owner message.owners,
      length-entities message.entities,
      length-receipts message.authority_receipts,
    )

-- `payload_size` is the number of bytes of the payload of every message but a snapshot, and four
-- less for a snapshot.
pub length-encode_payload :
    (message : Message) → length (encode_payload message) ≡ payload_size message + uncounted message
unfolding encode_payload payload_size encode_client_hello encode_server_welcome encode_input_packet
    encode_client_status write_u8 write_u32
length-encode_payload (client_hello message) = refl
length-encode_payload (server_welcome message) =
    omega (arith, length-encode_rules message.world_rules)
length-encode_payload (input_packet message) =
    omega (arith, length-write_each encode_sample 18 length-encode_sample message.samples)
length-encode_payload (full_snapshot message) = omega (arith, length-encode_full_snapshot message)
length-encode_payload (client_status message) = refl
