-- ===== src/Rollback/Tests/Receiving.antt =====
-- Authority events on their own: a confirmed one, the same again, and a rejected one.
use native.Mathlib.Decide.{ℕ_discrete}
use mycore.Base.{ℕ, ◌≡◌, ◌↔◌, refl, none, some, List, [], ◌∷◌}
use mycore.Rollback.Types.{
  AuthorityEvent, AuthorityEventDisposition, CommitKind, EventBatch, EventTransition, value, error,
  conflicting_authority_event,
}
use mycore.Rollback.Keyed.{In, Distinct, find, emplace}
use mycore.Rollback.Journal.{has_shape, event_equal, same_outcome, validate_authority_events}
use mycore.Rollback.Resolve.Authority.{authority_keys}
use mycore.Rollback.Resolve.Effect.{change_keys, AllShaped}
use mycore.Rollback.AuthorityOnly.{receive, resolve_from, resolve_authority_only_events}
use mycore.Rollback.AuthorityOnly.Batch.{firsts, announced, judged, resolve_authority_only-judged}
use mycore.Rollback.AuthorityOnly.Receipts.{resolve_authority_only_events_lem}
use mycore.Rollback.Tests.{counter}

abbrev confirmed_five : AuthorityEvent counter
confirmed_five = record {
  disposition = AuthorityEventDisposition.confirmed;
  key = 5;
  event = some 501;
}

abbrev rejected_seven : AuthorityEvent counter
rejected_seven = record { disposition = AuthorityEventDisposition.rejected; key = 7; event = none }

abbrev answered : List (AuthorityEvent counter)
answered = confirmed_five ∷ confirmed_five ∷ rejected_seven ∷ []

abbrev answered_batch : EventBatch counter
answered_batch = record {
  kind = CommitKind.authority_only;
  changes =
      record {
        transition = EventTransition.authority_only;
        key = 5;
        previous = none;
        current = some 501;
      }
      ∷ [];
  retired_keys = 5 ∷ 7 ∷ [];
  externally_retired_keys = [];
}

answered_run : resolve_authority_only_events counter answered ≡ value answered_batch
unfolding resolve_authority_only_events resolve_from receive emplace find has_shape same_outcome
    event_equal ℕ_discrete
answered_run = refl

-- A second answer that differs from the first is refused.
contradiction_run :
    resolve_authority_only_events counter (confirmed_five ∷ record rejected_seven { key = 5 } ∷ [])
    ≡ error conflicting_authority_event
unfolding resolve_authority_only_events resolve_from receive emplace find has_shape same_outcome
    event_equal ℕ_discrete
contradiction_run = refl

resolve_authority_only-judged_example :
    resolve_authority_only_events counter answered
    ≡ judged counter (validate_authority_events counter answered) (record {
      kind = CommitKind.authority_only;
      changes = announced counter (firsts counter [] answered);
      retired_keys = authority_keys counter (firsts counter [] answered);
      externally_retired_keys = [];
    })
resolve_authority_only-judged_example = resolve_authority_only-judged counter answered

resolve_authority_only_events_example :
    Distinct (change_keys counter answered_batch.changes)
    × AllShaped counter answered_batch.changes
    × Distinct answered_batch.retired_keys
    × ((k : ℕ) → In k answered_batch.retired_keys ↔ In k (authority_keys counter answered))
resolve_authority_only_events_example =
    resolve_authority_only_events_lem counter answered answered_batch answered_run
