-- ===== src/Rollback/Journal.antt =====
-- timeline.hpp: the event journals of the predicted frames (`EventIndex`, `append_events`,
-- `build_event_map`), and the check of the events of an authority frame.
pub mod Order
pub mod Shape
use mathlib.Core.Logic.{ite, dite}
use mycore.Base.{
  Option, none, some, List, [], ◌∷◌, ◌++◌, Bool, true, false, not, ◌&&◌, if◌then◌else◌, has_value,
}
use mycore.Rollback.Types.{
  RollbackModel, AuthorityEvent, AuthorityEventDisposition, FrameRecord, TimelineErrorCode,
  duplicate_event_key, conflicting_authority_event, Variant, value, error,
}
use mycore.Rollback.Types.AuthorityEventDisposition.{confirmed, rejected}
use mycore.Rollback.Keyed.{find, emplace}

module _ (m : RollbackModel) where
  open m use {Event, EventKey, event_key, key_discrete, event_discrete}

  pub record EventIndex : Type 0 where
    pub by_key : List (EventKey × Event)
    pub journal_order : List EventKey

abbrev same_disposition : AuthorityEventDisposition → AuthorityEventDisposition → Bool
same_disposition confirmed confirmed = true
same_disposition rejected rejected = true
same_disposition _ _ = false

abbrev pub empty_index : (m : RollbackModel) → EventIndex m
empty_index m = record { by_key = []; journal_order = [] }

module _ (m : RollbackModel) where
  open m use {Event, EventKey, event_key, key_discrete, event_discrete}

  unfoldable pub append_events :
      EventIndex m → List Event → Variant TimelineErrorCode (EventIndex m)
  unfolding emplace
  append_events result [] = value result
  append_events result (event ∷ events) =
      let key = event_key event in
      let (by_key, inserted) = emplace key_discrete key event result.by_key in
      let rest =
        append_events (record { by_key = by_key; journal_order = result.journal_order ++ key ∷ [] })
          events in
      elim inserted [ true ↦ rest | false ↦ error duplicate_event_key ]

  unfoldable pub build_event_map :
      List (FrameRecord m) → EventIndex m → Variant TimelineErrorCode (EventIndex m)
  unfolding append_events
  build_event_map [] result = value result
  build_event_map (frame ∷ frames) result = elim (append_events result frame.events) [
    | value result' ↦ build_event_map frames result'
    | error code ↦ error code
  ]

  -- The shape that a disposition asks of the event: a confirmed one holds an event with its key, and
  -- a rejected one holds none.
  unfoldable pub has_shape : AuthorityEvent m → Bool
  has_shape a = elim a.disposition [
    | confirmed ↦ elim a.event [
      | none ↦ false
      | some event ↦ ite (key_discrete (event_key event) a.key) true false
    ]
    | rejected ↦ not (has_value a.event)
  ]

  unfoldable pub event_equal : Option Event → Option Event → Bool
  event_equal none none = true
  event_equal (some a) (some b) = ite (event_discrete a b) true false
  event_equal _ _ = false

  -- Whether two entries with one key say the same.
  unfoldable pub same_outcome : AuthorityEvent m → AuthorityEvent m → Bool
  unfolding event_equal
  same_outcome a b = same_disposition a.disposition b.disposition && event_equal a.event b.event

  unfoldable pub validate_from :
      List (EventKey × AuthorityEvent m) → List (AuthorityEvent m) → Option TimelineErrorCode
  unfolding emplace find has_shape same_outcome
  validate_from keys [] = none
  validate_from keys (event ∷ events) =
      let (keys', inserted) = emplace key_discrete event.key event keys in
      let rest = validate_from keys' events in
      let again : Option TimelineErrorCode = elim (find key_discrete event.key keys) [
        | none ↦ rest
        | some previous ↦
            if same_outcome previous event then rest else some conflicting_authority_event
      ] in
      if has_shape event
      then (elim inserted [ true ↦ rest | false ↦ again ])
      else some conflicting_authority_event

  unfoldable pub validate_authority_events : List (AuthorityEvent m) → Option TimelineErrorCode
  unfolding validate_from
  validate_authority_events events = validate_from [] events
