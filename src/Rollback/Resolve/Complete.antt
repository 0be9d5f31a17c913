-- ===== src/Rollback/Resolve/Complete.antt =====
-- `resolve_event_changes` as a whole: it makes the changes that are due, and no other.
use mycore.Base.{◌≡◌, sym, ◌∙◌, ◌↔◌, inl, inr, List, []}
use mycore.Rollback.Types.{RollbackModel, AuthorityEvent}
use mycore.Rollback.Keyed.{In, Distinct, find_of_not_in, dec_in}
use mycore.Rollback.Journal.{EventIndex}
use mycore.Rollback.Journal.Order.{keys, keyed}
use mycore.Rollback.Resolve.{EventResolution, resolve_event_changes}
use mycore.Rollback.Resolve.Authority.{authority_keys, first_at_found}
use mycore.Rollback.Resolve.Effect.{Known, apply_changes, change_keys, AllShaped, old_at, new_at}
use mycore.Rollback.Resolve.Due.{change_at, change_at_absent, due_at, due_at_absent}
use mycore.Rollback.Resolve.Rounds.{Ends, Conflict, Setting}
use mycore.Rollback.Resolve.Rounds.Old.{old_loop}
use mycore.Rollback.Resolve.Rounds.New.{NewLoop, new_loop}
use mycore.Rollback.Resolve.Rounds.Receipts.{ReceiptLoop, receipt_loop}

module _ (m : RollbackModel) (olds news : List m.Event) (authority : List (AuthorityEvent m)) where
  open m use {Event, EventKey, key_discrete}

  -- The resolution explains how the old predictions became the new ones: applied in order, its
  -- changes turn the old prediction under each key into the new one; the change of each key, its
  -- transition and its events, is the one that it is due, and none where none is due; no key has two
  -- changes; and the retired keys are those that were predicted or are confirmed, and are no longer
  -- predicted.
  pub record Explains (r : EventResolution m) : Type 0 where
    pub explained :
        (k : EventKey)
        → apply_changes m k r.changes (old_at m olds news authority k)
          ≡ new_at m olds news authority k
    pub told : (k : EventKey) → change_at m k r.changes ≡ due_at m olds news authority k
    pub once : Distinct (change_keys m r.changes)
    pub shaped : AllShaped m r.changes
    pub retired :
        (k : EventKey)
        → In k r.retired_keys ↔ (Known m olds news authority k × ¬ In k (keys m news))
    pub clear : (k : EventKey) → ¬ (In k (keys m news) × In k (authority_keys m authority))

module _ (m : RollbackModel) (olds news : List m.Event) (authority : List (AuthorityEvent m))
    (old_events new_events : EventIndex m)
    (setting : Setting m olds news authority old_events new_events) where
  open m use {Event, EventKey, key_discrete}

  finish :
      (r : EventResolution m)
      → ReceiptLoop m olds news authority old_events new_events setting authority r
      → Explains m olds news authority r
  finish r loop = record {
    explained = λ k. elim (dec_in key_discrete k loop.done) [
      | yes d ↦ loop.progress.settled k d
      | no n ↦
          loop.progress.pending k n
          ∙ find_of_not_in key_discrete k (keyed m olds) (λ i. n (loop.olds_done k i))
          ∙ sym (find_of_not_in key_discrete k (keyed m news) (λ i. n (loop.news_done k i)))
    ];
    told = λ k. elim (dec_in key_discrete k loop.done) [
      | yes d ↦ loop.progress.told k d
      | no n ↦
          change_at_absent m k r.changes (λ i. n (loop.progress.changed k i))
          ∙ sym (
              due_at_absent m olds news authority k (λ i. n (loop.olds_done k i))
                (λ i. n (loop.handled k i)) (λ i. n (loop.news_done k i)))
    ];
    once = loop.progress.distinct;
    shaped = loop.progress.shaped;
    retired = λ k. (
      λ i. (let (_, known, gone) = loop.progress.retired k i in (known, gone)),
      λ (known, gone).
          loop.progress.retires k
            (elim known [
              | inl o ↦ loop.olds_done k o
              | inr (i, a, at, _) ↦ loop.handled k (first_at_found m k 0 authority i a at).0
            ])
            known gone,
    );
    clear = λ k (i, a). loop.progress.clear k (loop.news_done k i) i a;
  }

  start :
      (r : EventResolution m)
      → NewLoop m olds news authority old_events new_events setting [] r
      → ReceiptLoop m olds news authority old_events new_events setting [] r
  start r loop = record {
    done = loop.done;
    progress = loop.progress;
    olds_done = loop.olds_done;
    news_done = λ k i. elim (loop.all k i) [ inl n ↦ absurd n | inr d ↦ d ];
    handled = λ k i. absurd i;
    only = λ k d. inl (loop.predicted k d);
  }

  -- On indexes of the old and of the new events, and on answers of the authority whose shapes are
  -- valid, the resolution ends in one of two ways: it succeeds, and each key has the one change, with
  -- its transition and events, that its old prediction, the authority's first answer and its new
  -- prediction make due, or none where none is due, and the retired keys are those that were
  -- predicted or are confirmed, and are no longer predicted; or it refuses the answers as
  -- conflicting, and then some key that they answer is predicted anew. It never reads past the end of
  -- a map.
  pub resolve-Ends :
      Ends
        (Explains m olds news authority)
        (Conflict m news authority)
        (resolve_event_changes m old_events new_events authority)
  unfolding resolve_event_changes
  resolve-Ends = elim (old_loop m olds news authority old_events new_events setting) [
    | inr (c, e) ↦ inr (c, rw (e, resolve_event_changes))
    | inl (r₁, e₁, p₁) ↦ elim (new_loop m olds news authority old_events new_events setting r₁ p₁) [
      | inr (c, e) ↦ inr (c, rw (e₁, e, resolve_event_changes))
      | inl (r₂, e₂, p₂) ↦
          elim (receipt_loop m olds news authority old_events new_events setting r₂ (start r₂ p₂)) [
            | inr (c, e) ↦ inr (c, rw (e₁, e₂, e, resolve_event_changes))
            | inl (r, e, p) ↦ inl (r, rw (e₁, e₂, e, resolve_event_changes), finish r p)
          ]
    ]
  ]
