-- ===== src/Protocol/Codec/Snapshots.antt =====
-- A snapshot is read back as it was written.
use mycore.Base.{
  ℕ, ◌+◌, ◌*◌, ◌%◌, ◌<◌, ◌≤◌, ◌^◌, ◌≡◌, refl, ◌∙◌, Option, none, some, List, [], ◌∷◌, ◌++◌, length,
  length-append, arith, ltb, ◌==◌, if◌then◌else◌, false,
}
use mycore.Base.Results.{value}
use mycore.Protocol.Float32.{FloatUnit}
use mycore.Protocol.Messages.{
  OwnerState, EntityState, PlayerAbsorbed, AuthorityReceipt, FullSnapshot, full_snapshot,
}
use mycore.Protocol.Bytes.{
  Bytes, write_u8, write_u16, write_u32, read_u8, read_u16, read_u32, join_u16_lem, join_u32_lem,
}
use mycore.Protocol.Encode.{
  write_each, write_some, flag, encode_absorption, encode_owner, encode_entity, encode_receipt,
  encode_full_snapshot,
}
use mycore.Protocol.Fields.{decode_absorption, decode_owner}
use mycore.Protocol.Fields.RoundTrip.{
  PlayerAbsorbedFits, OwnerStateFits, decode_absorption-encode_absorption,
  decode_owner-encode_owner,
}
use mycore.Protocol.Validate.Session.{validate_message}
use mycore.Protocol.Decode.{need, repeat}
use mycore.Protocol.Decode.Steps.{need-some, bind-step, refuse-step, at_least-step, step-last}
use mycore.Protocol.Decode.Items.{
  Each, IfSome, EntityStateFits, AuthorityReceiptFits, repeat-write_each, when_flag-write_some,
  decode_entity-encode_entity, decode_receipt-encode_receipt,
}
use mycore.Protocol.Decode.Snapshot.{
  when_flag, decode_entity, decode_receipt, decode_snapshot_head, decode_owned, decode_owners,
  decode_entities, decode_receipts, decode_full_snapshot,
}
use mycore.Protocol.Codec.{size_if, entities_size}
use mycore.Protocol.Codec.Sizes.{
  length-write_each, length-write_some, length-u32, length-encode_absorption, length-encode_owner,
  length-entities,
}
use mycore.Protocol.Codec.Heads.{HeadFits, head_of, decode_snapshot_head-encode}
use mycore.Protocol.Codec.Payloads.{checked-valid}
use mycore.Protocol.Codec.Counts.{counted}

read_u32-write_u32 :
    (v : ℕ) (rest : Bytes) → v < 2 ^ 32 → need read_u32 (write_u32 v ++ rest) ≡ value (v, rest)
unfolding read_u32 write_u32 read_u8
read_u32-write_u32 v rest h = rw (join_u32_lem v h) refl

flag_size : {A : Type 0} (o : Option A) (n : ℕ) → (if flag o == 0 then 0 else n) ≡ size_if o n
flag_size none n = refl
flag_size (some a) n = refl

decode_owned-write :
    (ids : List ℕ) (event : Option PlayerAbsorbed) (rest : Bytes)
    → Each (λ id. id < 2 ^ 32) ids
    → IfSome PlayerAbsorbedFits event
    → 2 ≤ length rest
    → decode_owned
        (length ids)
        (flag event)
        (write_each write_u32 ids ++ (write_some encode_absorption event ++ rest))
      ≡ value ((ids, event), rest)
unfolding decode_owned
decode_owned-write ids event rest fits fit more =
    let absorption = write_some encode_absorption event in
    let enough : length ids * 4 + (if flag event == 0 then 0 else 40) + 2
        ≤ length (write_each write_u32 ids ++ (absorption ++ rest)) =
      omega (
        arith,
        length-append {0},
        flag_size event 40,
        length-write_each write_u32 4 length-u32 ids,
        length-write_some encode_absorption 40 length-encode_absorption event,
      ) in
    at_least-step _ _ _ enough
    ∙ bind-step (repeat (length ids) (need read_u32)) _ _ ids (absorption ++ rest) (
        repeat-write_each (need read_u32) write_u32 (λ id. id < 2 ^ 32) read_u32-write_u32 ids
          (absorption ++ rest) fits)
    ∙ bind-step (when_flag (flag event) decode_absorption) _ _ event rest (
        when_flag-write_some decode_absorption encode_absorption PlayerAbsorbedFits
          decode_absorption-encode_absorption event rest fit)

-- The number before a list.
count_u16 :
    (n : ℕ) (rest : Bytes)
    → n ≤ 65535
    → need read_u16 (write_u16 (n % 2 ^ 16) ++ rest) ≡ value (n, rest)
unfolding read_u16 write_u16 read_u8
count_u16 n rest h =
    let fits : n % 2 ^ 16 < 2 ^ 16 = omega arith in
    let same : n % 2 ^ 16 ≡ n = omega arith in rw (join_u16_lem (n % 2 ^ 16) fits, same) refl

decode_owners-write :
    (owners : List OwnerState) (rest : Bytes)
    → length owners ≤ 65535
    → Each OwnerStateFits owners
    → 2 ≤ length rest
    → decode_owners (write_u16 (length owners % 2 ^ 16) ++ (write_each encode_owner owners ++ rest))
      ≡ value (owners, rest)
unfolding decode_owners
decode_owners-write owners rest few fits more =
    let enough : length owners * 28 + 2 ≤ length (write_each encode_owner owners ++ rest) =
      omega
        (arith, length-append {0}, length-write_each encode_owner 28 length-encode_owner owners) in
    bind-step (need read_u16) _ _ (length owners) (write_each encode_owner owners ++ rest)
      (count_u16 (length owners) _ few)
    ∙ at_least-step _ _ _ enough
    ∙ repeat-write_each (need decode_owner) encode_owner OwnerStateFits
        (λ owner rest' fit. need-some decode_owner _ _ (decode_owner-encode_owner owner rest' fit))
        owners rest fits

at_least_34 : (entities : List EntityState) → length entities * 34 ≤ entities_size entities
at_least_34 [] = omega arith
at_least_34 (entity ∷ entities) = omega (arith, at_least_34 entities)

decode_entities-write :
    (entities : List EntityState) (rest : Bytes)
    → length entities ≤ 65535
    → Each EntityStateFits entities
    → 1 ≤ length rest
    → decode_entities
        (write_u16 (length entities % 2 ^ 16) ++ (write_each encode_entity entities ++ rest))
      ≡ value (entities, rest)
unfolding decode_entities
decode_entities-write entities rest few fits more =
    let enough : length entities * 34 + 1 ≤ length (write_each encode_entity entities ++ rest) =
      omega (arith, length-append {0}, length-entities entities, at_least_34 entities) in
    bind-step (need read_u16) _ _ (length entities) (write_each encode_entity entities ++ rest)
      (count_u16 (length entities) _ few)
    ∙ at_least-step _ _ _ enough
    ∙ repeat-write_each decode_entity encode_entity EntityStateFits decode_entity-encode_entity
        entities rest fits

not_many : (n : ℕ) → n ≤ 16 → ltb 16 n ≡ false
not_many n h = ground arith

decode_receipts-write :
    (receipts : List AuthorityReceipt) (rest : Bytes)
    → length receipts ≤ 16
    → Each AuthorityReceiptFits receipts
    → decode_receipts
        (write_u8 (length receipts % 2 ^ 8) ++ (write_each encode_receipt receipts ++ rest))
      ≡ value (receipts, rest)
unfolding decode_receipts write_u8 read_u8
decode_receipts-write receipts rest few fits =
    let same : length receipts % 2 ^ 8 ≡ length receipts = omega arith in
    rw (same) (
      refuse-step _ _ _ _ (not_many (length receipts) few)
      ∙ repeat-write_each decode_receipt encode_receipt AuthorityReceiptFits
          decode_receipt-encode_receipt receipts rest fits)

decode_receipts-last :
    (receipts : List AuthorityReceipt)
    → length receipts ≤ 16
    → Each AuthorityReceiptFits receipts
    → decode_receipts (write_u8 (length receipts % 2 ^ 8) ++ write_each encode_receipt receipts)
      ≡ value (receipts, [])
unfolding write_u8
decode_receipts-last receipts few fits =
    step-last decode_receipts
      (write_u8 (length receipts % 2 ^ 8) ++ write_each encode_receipt receipts) receipts
      (decode_receipts-write receipts [] few fits)

pub record FullSnapshotFits (message : FullSnapshot) : Type 0 where
  pub head : HeadFits message
  pub owned_entity_ids : Each (λ id. id < 2 ^ 32) message.recipient.owned_entity_ids
  pub latest_absorption : IfSome PlayerAbsorbedFits message.recipient.latest_absorption
  pub owners : Each OwnerStateFits message.owners
  pub entities : Each EntityStateFits message.entities
  pub authority_receipts : Each AuthorityReceiptFits message.authority_receipts

one_flag : {A : Type 0} (o : Option A) → ltb 1 (flag o) ≡ false
one_flag none = refl
one_flag (some a) = refl

two_more : (n : ℕ) (rest : Bytes) → 2 ≤ length (write_u16 (n % 2 ^ 16) ++ rest)
unfolding write_u16
two_more n rest = omega arith

one_more : (n : ℕ) (rest : Bytes) → 1 ≤ length (write_u8 (n % 2 ^ 8) ++ rest)
unfolding write_u8
one_more n rest = omega arith

module _ (unit : FloatUnit) where
  pub decode_full_snapshot-encode :
      (message : FullSnapshot)
      → FullSnapshotFits message
      → validate_message unit (full_snapshot message) ≡ value tt
      → decode_full_snapshot unit (encode_full_snapshot message) ≡ value (full_snapshot message, [])
  unfolding decode_full_snapshot encode_full_snapshot
  decode_full_snapshot-encode message h valid =
      let c = counted unit message valid in
      let recipient = message.recipient in
      let receipts : Bytes =
        write_u8 (length message.authority_receipts % 2 ^ 8)
        ++ write_each encode_receipt message.authority_receipts in
      let entities : Bytes =
        write_u16 (length message.entities % 2 ^ 16)
        ++ (write_each encode_entity message.entities ++ receipts) in
      let owners : Bytes =
        write_u16 (length message.owners % 2 ^ 16)
        ++ (write_each encode_owner message.owners ++ entities) in
      let owned : Bytes =
        write_each write_u32 recipient.owned_entity_ids
        ++ (write_some encode_absorption recipient.latest_absorption ++ owners) in
      bind-step decode_snapshot_head _ _ (head_of message) owned
        (decode_snapshot_head-encode message h.head c.owned c.defeat c.respawn owned)
      ∙ refuse-step owned _ _ _ (one_flag recipient.latest_absorption)
      ∙ bind-step
          (decode_owned (length recipient.owned_entity_ids) (flag recipient.latest_absorption)) _
          owned (recipient.owned_entity_ids, recipient.latest_absorption) owners
          (decode_owned-write recipient.owned_entity_ids recipient.latest_absorption owners
            h.owned_entity_ids h.latest_absorption (two_more (length message.owners) _))
      ∙ bind-step decode_owners _ owners message.owners entities (
          decode_owners-write message.owners entities c.owners h.owners
            (two_more (length message.entities) _))
      ∙ bind-step decode_entities _ entities message.entities receipts (
          decode_entities-write message.entities receipts c.entities h.entities
            (one_more (length message.authority_receipts) _))
      ∙ bind-step decode_receipts _ receipts message.authority_receipts []
          (decode_receipts-last message.authority_receipts c.receipts h.authority_receipts)
      ∙ checked-valid unit (full_snapshot message) [] valid
