-- ===== src/Protocol/Decode/Items.antt =====
-- The elements of a snapshot's lists, and the lists, are read back as they were written.
use mathlib.Core.List.{append_assoc}
use mycore.Base.{◌<◌, ◌^◌, ◌≡◌, refl, Option, none, some, List, [], ◌∷◌, ◌++◌, length, ltb, false}
use mycore.Base.Results.{value}
use mycore.Protocol.Messages.{
  EntityState, AuthorityEvent, food_consumed, player_absorbed, player_split, pieces_merged,
  AuthorityReceipt,
}
use mycore.Protocol.Bytes.{
  Bytes, Reader, write_u8, write_u32, write_float, read_u8, read_u32, read_float, join_u32_lem,
}
use mycore.Protocol.Encode.{
  write_each, write_some, flag, encode_authority_event, encode_prediction_key, encode_entity,
  encode_receipt,
}
use mycore.Protocol.Fields.RoundTrip.{
  PredictionKeyFits, FoodConsumedFits, PlayerAbsorbedFits, PlayerSplitFits, PiecesMergedFits,
  decode_food_consumed-encode_food_consumed, decode_absorption-encode_absorption,
  decode_player_split-encode_player_split, decode_pieces_merged-encode_pieces_merged,
  decode_prediction_key-encode_prediction_key,
}
use mycore.Protocol.Validate.{known_authority_event_kind}
use mycore.Protocol.Decode.{Decoder, pure, need, repeat}
use mycore.Protocol.Fields.{
  decode_food_consumed, decode_absorption, decode_player_split, decode_pieces_merged,
  decode_prediction_key,
}
use mycore.Protocol.Decode.Steps.{need-some, bind-step}
use mycore.Protocol.Decode.Snapshot.{
  when_flag, decode_event_of, decode_authority_event, decode_receipt, decode_entity,
}

abbrev pub Each : {A : Type 0} → (A → Type 0) → List A → Type 0
Each P [] = Unit
Each P (x ∷ xs) = P x × Each P xs

abbrev pub IfSome : {A : Type 0} → (A → Type 0) → Option A → Type 0
IfSome P none = Unit
IfSome P (some a) = P a

-- A loop that reads what a loop has written.
pub repeat-write_each :
    {A : Type 0} (step : Decoder A) (write : A → Bytes) (P : A → Type 0)
    → ((x : A) (rest : Bytes) → P x → step (write x ++ rest) ≡ value (x, rest))
    → (xs : List A) (rest : Bytes) → Each P xs
    → repeat (length xs) step (write_each write xs ++ rest) ≡ value (xs, rest)
unfolding repeat
repeat-write_each step write P each [] rest h = refl
repeat-write_each step write P each (x ∷ xs) rest h =
    rw (append_assoc (write x) (write_each write xs) rest) (
      rw (each x (write_each write xs ++ rest) h.0)
        (rw (repeat-write_each step write P each xs rest h.1) refl))

pub when_flag-write_some :
    {A : Type 0} (read : Reader A) (write : A → Bytes) (P : A → Type 0)
    → ((x : A) (rest : Bytes) → P x → read (write x ++ rest) ≡ some (x, rest))
    → (o : Option A) (rest : Bytes) → IfSome P o
    → when_flag (flag o) read (write_some write o ++ rest) ≡ value (o, rest)
when_flag-write_some read write P each none rest h = refl
when_flag-write_some {A} read write P each (some a) rest h =
    bind-step (need read) (λ x. pure {A = Option A} (some x)) _ a rest
      (need-some read _ _ (each a rest h))

flag_ok : {A : Type 0} (o : Option A) → ltb 1 (flag o) ≡ false
flag_ok none = refl
flag_ok (some a) = refl

pub record EntityStateFits (entity : EntityState) : Type 0 where
  pub entity_id : entity.entity_id < 2 ^ 32
  pub owner_id : entity.owner_id < 2 ^ 32
  pub position_x : entity.position_x < 2 ^ 32
  pub position_y : entity.position_y < 2 ^ 32
  pub mass : entity.mass < 2 ^ 32
  pub launch_velocity_x : entity.launch_velocity_x < 2 ^ 32
  pub launch_velocity_y : entity.launch_velocity_y < 2 ^ 32
  pub merge_eligible_tick : entity.merge_eligible_tick < 2 ^ 32
  pub kind : entity.kind < 2 ^ 8
  pub prediction_key : IfSome PredictionKeyFits entity.prediction_key

pub decode_entity-encode_entity :
    (entity : EntityState) (rest : Bytes)
    → EntityStateFits entity
    → decode_entity (encode_entity entity ++ rest) ≡ value (entity, rest)
unfolding decode_entity encode_entity write_u8 read_u8 write_u32 read_u32 write_float read_float
decode_entity-encode_entity entity rest h =
    rw
      (
        join_u32_lem entity.entity_id h.entity_id,
        join_u32_lem entity.owner_id h.owner_id,
        join_u32_lem entity.position_x h.position_x,
        join_u32_lem entity.position_y h.position_y,
        join_u32_lem entity.mass h.mass,
        join_u32_lem entity.launch_velocity_x h.launch_velocity_x,
        join_u32_lem entity.launch_velocity_y h.launch_velocity_y,
        join_u32_lem entity.merge_eligible_tick h.merge_eligible_tick,
        flag_ok entity.prediction_key,
      )
      (bind-step (when_flag (flag entity.prediction_key) decode_prediction_key) _ _
        entity.prediction_key rest
        (when_flag-write_some decode_prediction_key encode_prediction_key PredictionKeyFits
          decode_prediction_key-encode_prediction_key entity.prediction_key rest h.prediction_key))

abbrev pub EventFits : AuthorityEvent → Type 0
EventFits (food_consumed event) = FoodConsumedFits event
EventFits (player_absorbed event) = PlayerAbsorbedFits event
EventFits (player_split event) = PlayerSplitFits event
EventFits (pieces_merged event) = PiecesMergedFits event

pub decode_event-encode_event :
    (event : AuthorityEvent) (rest : Bytes)
    → EventFits event
    → decode_authority_event (encode_authority_event event ++ rest) ≡ value (event, rest)
unfolding decode_authority_event decode_event_of encode_authority_event known_authority_event_kind
    write_u8 read_u8
decode_event-encode_event (food_consumed event) rest h =
    bind-step (need decode_food_consumed) (λ x. pure (food_consumed x)) _ event rest
      (need-some decode_food_consumed _ _ (decode_food_consumed-encode_food_consumed event rest h))
decode_event-encode_event (player_absorbed event) rest h =
    bind-step (need decode_absorption) (λ x. pure (player_absorbed x)) _ event rest
      (need-some decode_absorption _ _ (decode_absorption-encode_absorption event rest h))
decode_event-encode_event (player_split event) rest h =
    bind-step (need decode_player_split) (λ x. pure (player_split x)) _ event rest
      (need-some decode_player_split _ _ (decode_player_split-encode_player_split event rest h))
decode_event-encode_event (pieces_merged event) rest h =
    bind-step (need decode_pieces_merged) (λ x. pure (pieces_merged x)) _ event rest
      (need-some decode_pieces_merged _ _ (decode_pieces_merged-encode_pieces_merged event rest h))

pub record AuthorityReceiptFits (receipt : AuthorityReceipt) : Type 0 where
  pub sequence_id : receipt.sequence_id < 2 ^ 32
  pub event : EventFits receipt.event

pub decode_receipt-encode_receipt :
    (receipt : AuthorityReceipt) (rest : Bytes)
    → AuthorityReceiptFits receipt
    → decode_receipt (encode_receipt receipt ++ rest) ≡ value (receipt, rest)
unfolding decode_receipt encode_receipt write_u32 read_u32 read_u8
decode_receipt-encode_receipt receipt rest h = rw (join_u32_lem receipt.sequence_id h.sequence_id) (
    bind-step decode_authority_event _ _ receipt.event rest
      (decode_event-encode_event receipt.event rest h.event))
