-- ===== src/Protocol/Validate/Session.antt =====
-- codec.cpp: `validate` of a snapshot, from the recipient's entities on, and the checks of a message.
use native.Mathlib.Decide.{ℕ_discrete}
use mycore.Base.{
  ℕ, ◌+◌, ◌-◌, ◌%◌, ◌^◌, min, max, Option, none, some, List, [], ◌∷◌, Bool, true, false, not, ◌&&◌,
  ◌||◌, ltb, ◌==◌, if◌then◌else◌, has_value,
}
use mycore.Base.Results.{Variant, value, error}
use mycore.Base.Chains.{◌>>=◌, ◌>>◌, refuse}
use mycore.Rollback.Keyed.{find}
use mycore.Rollback.Router.Sets.{contains, insert}
use mycore.Protocol.Float32.{FloatUnit}
use mycore.Protocol.Messages.{
  u32_max, valid_id, CodecError, EntityState, PlayerAbsorbed, RecipientSessionState, AuthorityEvent,
  food_consumed, player_absorbed, player_split, pieces_merged, AuthorityReceipt, FullSnapshot,
  Message, client_hello, server_welcome, input_packet, full_snapshot, client_status,
}
use mycore.Protocol.Validate.{
  Check, any_of, validate_event, validate_client_hello, validate_server_welcome,
  validate_input_packet, validate_client_status,
}
use mycore.Protocol.Validate.Snapshot.{
  is_strictly_sorted, check_some, EntityIndex, validate_counts, validate_recipient, validate_owners,
  validate_entities,
}

-- The entity under the id is a player's piece.
unfoldable pub find_piece : ℕ → EntityIndex → Variant CodecError EntityState
find_piece id index = elim (find ℕ_discrete id index.entities_by_id) [
  | none ↦ error CodecError.invalid_id
  | some entity ↦ do refuse (not (entity.kind == 1)) CodecError.invalid_id; value entity
]

-- The loop over the owned entities, with the owner of those before.
unfoldable pub check_owned : EntityIndex → ℕ → List ℕ → Check
check_owned index owned_owner [] = value tt
check_owned index owned_owner (entity_id ∷ entity_ids) = do
  refuse (not (valid_id entity_id)) CodecError.invalid_id
  entity ← find_piece entity_id index
  refuse (valid_id owned_owner && not (entity.owner_id == owned_owner)) CodecError.invalid_id
  check_owned index entity.owner_id entity_ids

unfoldable pub check_follow : EntityIndex → ℕ → Check
check_follow index follow_entity_id =
    if valid_id follow_entity_id
    then (do piece ← find_piece follow_entity_id index; value tt)
    else value tt

-- The absorber, if it is among the entities, is the piece that the event names.
abbrev pub mistaken_absorber : PlayerAbsorbed → Option EntityState → Bool
mistaken_absorber event none = false
mistaken_absorber event (some absorber) =
    not (absorber.kind == 1) || not (absorber.owner_id == event.absorber_owner_id)

unfoldable pub check_absorption : EntityIndex → PlayerAbsorbed → Check
check_absorption index event = do
  refuse (mistaken_absorber event (find ℕ_discrete event.absorber_entity_id index.entities_by_id))
      CodecError.invalid_id
  refuse (has_value (find ℕ_discrete event.victim_entity_id index.entities_by_id))
      CodecError.invalid_id

abbrev pub is_empty : {A : Type 0} → List A → Bool
is_empty [] = true
is_empty (x ∷ xs) = false

unfoldable pub check_playing : RecipientSessionState → Check
check_playing recipient =
    refuse
      (any_of (
        is_empty recipient.owned_entity_ids
        ∷ not (valid_id recipient.primary_entity_id)
        ∷ not (contains ℕ_discrete recipient.primary_entity_id recipient.owned_entity_ids)
        ∷ valid_id recipient.follow_entity_id
        ∷ has_value recipient.defeat_tick
        ∷ has_value recipient.respawn_available_tick
        ∷ []))
      CodecError.invalid_id

-- The defeat and the tick of the respawn, of which there are both or none.
abbrev pub mistimed : ℕ → Option ℕ → Option ℕ → Bool
mistimed server_tick (some defeat) (some respawn) = ltb server_tick defeat || ltb respawn defeat
mistimed server_tick none respawn = false
mistimed server_tick (some defeat) none = false

abbrev pub differ : Bool → Bool → Bool
differ true b = not b
differ false b = b

unfoldable pub check_spectating : ℕ → RecipientSessionState → Check
check_spectating server_tick recipient = do
  refuse
      (any_of (
        not (is_empty recipient.owned_entity_ids)
        ∷ valid_id recipient.primary_entity_id
        ∷ differ (has_value recipient.defeat_tick) (has_value recipient.respawn_available_tick)
        ∷ []))
      CodecError.invalid_id
  refuse (mistimed server_tick recipient.defeat_tick recipient.respawn_available_tick)
      CodecError.out_of_range
  refuse
      (not (has_value recipient.defeat_tick)
        && any_of (
            valid_id recipient.follow_entity_id
            ∷ valid_id recipient.latest_respawn_request_id
            ∷ not (recipient.latest_respawn_result == 0)
            ∷ []))
      CodecError.invalid_id

-- `owned_ids` has the owned entities.
unfoldable pub validate_session : FullSnapshot → EntityIndex → Check
validate_session message index =
    let recipient = message.recipient in
    do
      refuse (not (is_strictly_sorted (λ (id : ℕ). id) recipient.owned_entity_ids))
          CodecError.duplicate_entity
      check_owned index u32_max recipient.owned_entity_ids
      check_follow index recipient.follow_entity_id
      check_some (check_absorption index) recipient.latest_absorption
      if recipient.mode == 1
          then check_playing recipient
          else check_spectating message.server_tick recipient

-- What may not come twice: the kind of an event and the ids of what it is about.
abbrev pub event_key : AuthorityEvent → ℕ × List ℕ
event_key (food_consumed event) = (1, event.food_entity_id ∷ [])
event_key (player_absorbed event) = (2, event.victim_entity_id ∷ [])
event_key (player_split event) = (3, event.owner_id ∷ event.input_id ∷ event.child_ordinal ∷ [])
event_key (pieces_merged event) = (
  4,
  min event.survivor_entity_id event.consumed_entity_id
      ∷ max event.survivor_entity_id event.consumed_entity_id
      ∷ [],
)

unfoldable pub EventKey-discrete : Discrete (ℕ × List ℕ)
EventKey-discrete = hlevel ℕ_discrete

-- The receipt follows the one before it. The first one follows those that are retired.
unfoldable pub check_sequence : Option ℕ → ℕ → Check
check_sequence none sequence_id = value tt
check_sequence (some previous) sequence_id =
    refuse (previous == u32_max - 1 || not (sequence_id == (previous + 1) % 2 ^ 32))
      CodecError.invalid_receipt_ordering

unfoldable pub check_receipts : ℕ → Option ℕ → List (ℕ × List ℕ) → List AuthorityReceipt → Check
check_receipts server_tick previous event_keys [] = value tt
check_receipts server_tick previous event_keys (receipt ∷ receipts) =
    let (event_keys', is_new) = insert EventKey-discrete (event_key receipt.event) event_keys in
    do
      refuse (not (valid_id receipt.sequence_id)) CodecError.invalid_id
      check_sequence previous receipt.sequence_id
      validate_event receipt.event server_tick
      refuse (not is_new) CodecError.invalid_checkpoint
      check_receipts server_tick (some receipt.sequence_id) event_keys' receipts

-- Where the receipts start.
unfoldable pub check_first : ℕ → List AuthorityReceipt → Check
check_first retired_through [] = value tt
check_first retired_through (receipt ∷ receipts) =
    if valid_id retired_through
    then check_sequence (some retired_through) receipt.sequence_id
    else refuse (not (receipt.sequence_id == 0)) CodecError.invalid_receipt_ordering

unfoldable pub validate_receipts : FullSnapshot → Check
validate_receipts message = do
  check_first message.authority_receipts_retired_through message.authority_receipts
  check_receipts message.server_tick none [] message.authority_receipts

unfoldable pub validate_full_snapshot : FloatUnit → FullSnapshot → Check
validate_full_snapshot unit message = do
  validate_counts message
  validate_recipient message
  owners ← validate_owners unit message
  index ← validate_entities message owners
  validate_session message index
  validate_receipts message

unfoldable pub validate_message : FloatUnit → Message → Check
validate_message unit (client_hello message) = validate_client_hello message
validate_message unit (server_welcome message) = validate_server_welcome message
validate_message unit (input_packet message) = validate_input_packet unit message
validate_message unit (full_snapshot message) = validate_full_snapshot unit message
validate_message unit (client_status message) = validate_client_status message
