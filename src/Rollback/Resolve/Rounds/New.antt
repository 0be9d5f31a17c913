-- ===== src/Rollback/Resolve/Rounds/New.antt =====
-- The loop over the new events.
use mathlib.Core.Path.{subst}
use mycore.Base.{◌≡◌, refl, sym, ◌∙◌, ◌⊎◌, inl, inr, none, some, List, [], ◌∷◌, Option-cases}
use mycore.Rollback.Types.{RollbackModel, AuthorityEvent, EventTransition}
use mycore.Rollback.Keyed.{In, Distinct, find}
use mycore.Rollback.Journal.{EventIndex}
use mycore.Rollback.Journal.Order.{keys}
use mycore.Rollback.Resolve.{for_each, EventResolution, push_change, introduce, resolve_new}
use mycore.Rollback.Resolve.Progress.{Progress, skip-Progress, keep-Progress}
use mycore.Rollback.Resolve.Rounds.{
  Ends, Conflict, Setting, for_each-Ends, receipts, indexed_in, indexed_out, indexed_found,
  receipt_in, receipt_out, due_indexed,
}
use mycore.Rollback.Resolve.Rounds.Old.{OldLoop}

module _ (m : RollbackModel) (olds news : List m.Event) (authority : List (AuthorityEvent m))
    (old_events new_events : EventIndex m)
    (setting : Setting m olds news authority old_events new_events) where
  open m use {Event, EventKey, key_discrete}

  -- The keys in `ks` are left of the new ones.
  pub record NewLoop (ks : List EventKey) (r : EventResolution m) : Type 0 where
    pub done : List EventKey
    pub progress : Progress m olds news authority done r
    pub left : Distinct ks
    pub fresh : (k : EventKey) → In k ks → In k (keys m news) × (In k done → In k (keys m olds))
    pub all : (k : EventKey) → In k (keys m news) → In k ks ⊎ In k done
    pub olds_done : (k : EventKey) → In k (keys m olds) → In k done
    pub predicted : (k : EventKey) → In k done → In k (keys m olds) ⊎ In k (keys m news)

  next :
      (key : EventKey) (ks : List EventKey) (r r' : EventResolution m)
      → (loop : NewLoop (key ∷ ks) r) → Progress m olds news authority (key ∷ loop.done) r'
      → NewLoop ks r'
  next key ks r r' loop p = record {
    done = key ∷ loop.done;
    progress = p;
    left = loop.left.1;
    fresh = λ k i. (
      (loop.fresh k (inr i)).0,
      λ d. elim d [
        | inl e ↦ absurd (loop.left.0 (subst (λ z. In z ks) e i))
        | inr d' ↦ (loop.fresh k (inr i)).1 d'
      ],
    );
    all = λ k o. elim (loop.all k o) [
      | inl i ↦ elim i [ inl e ↦ inr (inl e) | inr i' ↦ inl i' ]
      | inr d ↦ inr (inr d)
    ];
    olds_done = λ k o. inr (loop.olds_done k o);
    predicted =
        λ k d. elim d [ inl e ↦ inr (loop.fresh k (inl e)).0 | inr d' ↦ loop.predicted k d' ];
  }

  -- A key that was predicted before is done.
  known_before :
      (key : EventKey) (ks : List EventKey) (r : EventResolution m) (old : Event)
      → NewLoop (key ∷ ks) r
      → find key_discrete key old_events.by_key ≡ some old
      → Ends
          (NewLoop ks)
          (Conflict m news authority)
          (resolve_new m old_events new_events (receipts m authority) key r)
  unfolding resolve_new
  known_before key ks r old loop at_old =
      let done =
        loop.olds_done key (indexed_in m olds old_events setting.old_index key old at_old) in
      let skipped =
        skip-Progress m olds news authority loop.done r key loop.progress (λ n. absurd (n done))
          (λ n. absurd (n done)) (λ _ out. absurd (out (loop.fresh key (inl refl)).0))
          (loop.progress.clear key done) in
      inl (r, rw (at_old, resolve_new), next key ks r r loop skipped)

  first_time :
      (key : EventKey) (ks : List EventKey) (r : EventResolution m) (new : Event)
      → NewLoop (key ∷ ks) r
      → find key_discrete key old_events.by_key ≡ none
      → find key_discrete key new_events.by_key ≡ some new
      → Ends
          (NewLoop ks)
          (Conflict m news authority)
          (resolve_new m old_events new_events (receipts m authority) key r)
  unfolding resolve_new
  first_time key ks r new loop not_old at_new =
      let (present, before) = loop.fresh key (inl refl) in
      let unknown = indexed_out m olds old_events setting.old_index key not_old in
      elim (Option-cases (find key_discrete key (receipts m authority))) [
        | inr ((i, a), at_receipt) ↦ inr (
          (key, present, (receipt_in m authority key i a at_receipt).0),
          rw (not_old, at_receipt, resolve_new),
        )
        | inl no_receipt ↦
            let c = introduce m EventTransition.first_predicted key (some new) in
            inl (
              push_change m r c,
              rw (not_old, no_receipt, at_new, resolve_new),
              next key ks r _ loop (
                  keep-Progress m olds news authority loop.done r c loop.progress
                    (λ d. unknown (before d)) (sym (sym (setting.new_index.finds key) ∙ at_new))
                    (due_indexed m olds news authority old_events new_events setting key none none
                      (some new) not_old no_receipt at_new)
                    refl present (receipt_out m authority key no_receipt)),
            )
      ]

  round :
      (key : EventKey) (ks : List EventKey) (r : EventResolution m)
      → NewLoop (key ∷ ks) r
      → Ends
          (NewLoop ks)
          (Conflict m news authority)
          (resolve_new m old_events new_events (receipts m authority) key r)
  round key ks r loop =
      let (new, at_new) =
        indexed_found m news new_events setting.new_index key (loop.fresh key (inl refl)).0 in
      elim (Option-cases (find key_discrete key old_events.by_key)) [
        | inl not_old ↦ first_time key ks r new loop not_old at_new
        | inr (old, at_old) ↦ known_before key ks r old loop at_old
      ]

  start :
      (r : EventResolution m)
      → OldLoop m olds news authority old_events new_events setting [] r
      → NewLoop new_events.journal_order r
  start r loop = record {
    done = loop.done;
    progress = loop.progress;
    left = rw setting.new_index.order setting.new_index.distinct;
    fresh = λ k i. (rw setting.new_index.order at i, loop.old_only k);
    all = λ k o. inl (rw setting.new_index.order o);
    olds_done = λ k o. elim (loop.all k o) [ inl i ↦ absurd i | inr d ↦ d ];
    predicted = λ k d. inl (loop.old_only k d);
  }

  -- The loop over the new events, from where the one over the old events has ended.
  pub new_loop :
      (r : EventResolution m)
      → OldLoop m olds news authority old_events new_events setting [] r
      → Ends (NewLoop []) (Conflict m news authority) (
          for_each
            (resolve_new m old_events new_events (receipts m authority))
            new_events.journal_order
            r)
  new_loop r loop =
      for_each-Ends NewLoop (Conflict m news authority) _ round new_events.journal_order r
        (start r loop)
