-- ===== src/Rollback/AuthorityOnly.antt =====
-- timeline.hpp: the batches of event changes that are handed out, from a commit and, where nothing is
-- predicted, from the authority's events alone.
pub mod Batch
pub mod Receipts
use mycore.Base.{Option, none, some, List, [], ◌∷◌, ◌++◌, true, false, if◌then◌else◌}
use mycore.Rollback.Types.{
  RollbackModel, AuthorityEvent, Commit, CommitKind, EventBatch, EventChange, EventTransition,
  TimelineErrorCode, Variant, value, error, conflicting_authority_event,
}
use mycore.Rollback.Types.AuthorityEventDisposition.{confirmed, rejected}
use mycore.Rollback.Keyed.{find, emplace}
use mycore.Rollback.Journal.{has_shape, same_outcome}

module _ (m : RollbackModel) where
  open m use {Event, EventKey, key_discrete}

  unfoldable pub event_batch_from_commit : Commit m → EventBatch m
  event_batch_from_commit commit = record {
    kind = commit.kind;
    changes = commit.event_changes;
    retired_keys = commit.retired_event_keys;
    externally_retired_keys = [];
  }

  -- The change that announces a confirmed event that was not predicted.
  abbrev pub announce : AuthorityEvent m → EventChange m
  announce event = record {
    transition = EventTransition.authority_only;
    key = event.key;
    previous = none;
    current = event.event;
  }

  -- What the first event under a key adds to the batch.
  unfoldable pub receive : EventBatch m → AuthorityEvent m → EventBatch m
  receive result event = elim event.disposition [
    | rejected ↦ record result { retired_keys = result.retired_keys ++ event.key ∷ [] }
    | confirmed ↦ record result {
      changes = result.changes ++ announce event ∷ [];
      retired_keys = result.retired_keys ++ event.key ∷ [];
    }
  ]

  unfoldable pub resolve_from :
      List (EventKey × AuthorityEvent m)
      → List (AuthorityEvent m)
      → EventBatch m
      → Variant TimelineErrorCode (EventBatch m)
  unfolding emplace find has_shape same_outcome receive
  resolve_from by_key [] result = value result
  resolve_from by_key (event ∷ events) result =
      let (by_key', inserted) = emplace key_discrete event.key event by_key in
      let skipped = resolve_from by_key' events result in
      let received = resolve_from by_key' events (receive result event) in
      let again : Variant TimelineErrorCode (EventBatch m) =
        elim (find key_discrete event.key by_key) [
          | none ↦ skipped
          | some previous ↦
              if same_outcome m previous event then skipped else error conflicting_authority_event
        ] in
      if has_shape m event
      then (elim inserted [ true ↦ received | false ↦ again ])
      else error conflicting_authority_event

  unfoldable pub resolve_authority_only_events :
      List (AuthorityEvent m) → Variant TimelineErrorCode (EventBatch m)
  unfolding resolve_from
  resolve_authority_only_events events = resolve_from [] events (record {
    kind = CommitKind.authority_only;
    changes = [];
    retired_keys = [];
    externally_retired_keys = [];
  })
