-- ===== src/Protocol/Codec/Counts.antt =====
-- The numbers of a snapshot's parts that has passed the checks fit their fields.
use mycore.Base.{ℕ, ◌≤◌, ◌≡◌, length, arith, ltb, false}
use mycore.Base.Results.{value}
use mycore.Protocol.Float32.{FloatUnit}
use mycore.Protocol.Messages.{FullSnapshot, full_snapshot}
use mycore.Protocol.Validate.Snapshot.{validate_counts, validate_recipient, invalid_optional_tick}
use mycore.Protocol.Validate.Session.{validate_message, validate_full_snapshot}

-- What the checks of a snapshot say of its numbers.
pub record Counted (message : FullSnapshot) : Type 0 where
  pub owned : length message.recipient.owned_entity_ids ≤ 65535
  pub owners : length message.owners ≤ 65535
  pub entities : length message.entities ≤ 65535
  pub receipts : length message.authority_receipts ≤ 16
  pub defeat : invalid_optional_tick message.recipient.defeat_tick ≡ false
  pub respawn : invalid_optional_tick message.recipient.respawn_available_tick ≡ false

few_enough : (n limit : ℕ) → ltb limit n ≡ false → n ≤ limit
few_enough n limit h = ground arith

counts_passed :
    (message : FullSnapshot)
    → validate_counts message ≡ value tt
    → (ltb 65535 (length message.entities) ≡ false)
      × (ltb 65535 (length message.recipient.owned_entity_ids) ≡ false)
      × (ltb 65535 (length message.owners) ≡ false)
      × (ltb 16 (length message.authority_receipts) ≡ false)
unfolding validate_counts
counts_passed message h = (ground arith, ground arith, ground arith, ground arith)

recipient_passed :
    (message : FullSnapshot)
    → validate_recipient message ≡ value tt
    → (invalid_optional_tick message.recipient.defeat_tick ≡ false)
      × (invalid_optional_tick message.recipient.respawn_available_tick ≡ false)
unfolding validate_recipient
recipient_passed message h = (ground arith, ground arith)

parts_passed :
    (unit : FloatUnit) (message : FullSnapshot)
    → validate_message unit (full_snapshot message) ≡ value tt
    → (validate_counts message ≡ value tt) × (validate_recipient message ≡ value tt)
unfolding validate_message validate_full_snapshot
parts_passed unit message h = (ground arith, ground arith)

pub counted :
    (unit : FloatUnit) (message : FullSnapshot)
    → validate_message unit (full_snapshot message) ≡ value tt
    → Counted message
counted unit message valid =
    let (counts, recipient) = parts_passed unit message valid in
    let (entities, owned, owners, receipts) = counts_passed message counts in
    let (defeat, respawn) = recipient_passed message recipient in
    record {
      owned = few_enough _ 65535 owned;
      owners = few_enough _ 65535 owners;
      entities = few_enough _ 65535 entities;
      receipts = few_enough _ 16 receipts;
      defeat = defeat;
      respawn = respawn;
    }
