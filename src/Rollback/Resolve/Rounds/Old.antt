-- ===== src/Rollback/Resolve/Rounds/Old.antt =====
-- The loop over the old events.
use mathlib.Core.Logic.{if_pos, if_neg}
use mathlib.Core.Path.{subst}
use mycore.Base.{
  ℕ, ◌≡◌, refl, sym, ap, ◌∙◌, ◌⊎◌, inl, inr, Option, none, some, List, [], ◌∷◌, true, Option-cases,
}
use mycore.Rollback.Types.{RollbackModel, AuthorityEvent, EventChange, EventTransition}
use mycore.Rollback.Keyed.{In, Distinct, find, find_of_not_in}
use mycore.Rollback.Journal.{EventIndex}
use mycore.Rollback.Journal.Order.{keys, keyed}
use mycore.Rollback.Resolve.{
  resolved, for_each, EventResolution, push_change, retire, settle, resolve_old, no_changes,
}
use mycore.Rollback.Resolve.Effect.{predicted_after, valid_shape}
use mycore.Rollback.Resolve.Progress.{
  empty-Progress, Progress, skip-Progress, keep-Progress, retire-Progress,
}
use mycore.Rollback.Resolve.Rounds.{
  Ends, Conflict, Setting, for_each-Ends, receipts, indexed_in, indexed_out, indexed_found,
  receipt_in, receipt_out, due_indexed,
}
use mycore.Rollback.Resolve.Due.{due, due_at}
use mycore.Rollback.Journal.Shape.{Disposition-cases, confirmed_event}

module _ (m : RollbackModel) (olds news : List m.Event) (authority : List (AuthorityEvent m))
    (old_events new_events : EventIndex m)
    (setting : Setting m olds news authority old_events new_events) where
  open m use {Event, EventKey, key_discrete, event_discrete}

  abbrev owes :
      (key : EventKey) (old : Option Event) (answer : Option (ℕ × AuthorityEvent m))
      (new : Option Event)
      → find key_discrete key old_events.by_key ≡ old
      → find key_discrete key (receipts m authority) ≡ answer
      → find key_discrete key new_events.by_key ≡ new
      → due_at m olds news authority key ≡ due m key old answer new
  owes = due_indexed m olds news authority old_events new_events setting

  -- The keys in `ks` are left of the old ones.
  pub record OldLoop (ks : List EventKey) (r : EventResolution m) : Type 0 where
    pub done : List EventKey
    pub progress : Progress m olds news authority done r
    pub left : Distinct ks
    pub fresh : (k : EventKey) → In k ks → In k (keys m olds) × ¬ In k done
    pub all : (k : EventKey) → In k (keys m olds) → In k ks ⊎ In k done
    pub old_only : (k : EventKey) → In k done → In k (keys m olds)

  next :
      (key : EventKey) (ks : List EventKey) (r r' : EventResolution m)
      → (loop : OldLoop (key ∷ ks) r) → Progress m olds news authority (key ∷ loop.done) r'
      → OldLoop ks r'
  next key ks r r' loop p = record {
    done = key ∷ loop.done;
    progress = p;
    left = loop.left.1;
    fresh = λ k i. (
      (loop.fresh k (inr i)).0,
      λ d. elim d [
        | inl e ↦ loop.left.0 (subst (λ z. In z ks) e i)
        | inr d' ↦ (loop.fresh k (inr i)).1 d'
      ],
    );
    all = λ k o. elim (loop.all k o) [
      | inl i ↦ elim i [ inl e ↦ inr (inl e) | inr i' ↦ inl i' ]
      | inr d ↦ inr (inr d)
    ];
    old_only = λ k d. elim d [ inl e ↦ (loop.fresh k (inl e)).0 | inr d' ↦ loop.old_only k d' ];
  }

  end :
      (ks : List EventKey) (r : EventResolution m) (c : EventChange m)
      → OldLoop (c.key ∷ ks) r
      → predicted_after m c ≡ none
      → due_at m olds news authority c.key ≡ some c
      → valid_shape m c ≡ true
      → find key_discrete c.key new_events.by_key ≡ none
      → OldLoop ks (retire m (push_change m r c) c.key)
  end ks r c loop over due shape gone =
      let out = indexed_out m news new_events setting.new_index c.key gone in
      let (old, fresh) = loop.fresh c.key (inl refl) in
      let outcome = over ∙ sym (find_of_not_in key_discrete c.key (keyed m news) out) in
      next c.key ks r _ loop (
        retire-Progress m olds news authority loop.done r c loop.progress fresh outcome due shape
          (inl old) out)

  -- An answered key.
  answered :
      (key : EventKey) (ks : List EventKey) (r : EventResolution m) (old : Event) (i : ℕ)
      (a : AuthorityEvent m)
      → OldLoop (key ∷ ks) r
      → find key_discrete key old_events.by_key ≡ some old
      → find key_discrete key (receipts m authority) ≡ some (i, a)
      → Ends
          (OldLoop ks)
          (Conflict m news authority)
          (resolve_old m old_events new_events (receipts m authority) key r)
  unfolding resolve_old
  answered key ks r old i a loop at_old at_receipt =
      elim (Option-cases (find key_discrete key new_events.by_key)) [
        | inr (new, at_new) ↦ inr (
          (
            key,
            indexed_in m news new_events setting.new_index key new at_new,
            (receipt_in m authority key i a at_receipt).0,
          ),
          rw (at_old, at_receipt, at_new, resolve_old),
        )
        | inl gone ↦
            let owed = owes key (some old) (some (i, a)) none at_old at_receipt gone in
            elim (Disposition-cases a.disposition) [
              | inl c ↦ inl (
                retire m (push_change m r (settle m EventTransition.confirmed key old a.event)) key,
                rw (at_old, at_receipt, gone, c, resolve_old),
                end ks r _ loop refl (owed ∙ (rw (c) refl))
                    (confirmed_event m a
                      (setting.shapes a (receipt_in m authority key i a at_receipt).2) c)
                    gone,
              )
              | inr c ↦ inl (
                retire m (push_change m r (settle m EventTransition.retracted key old none)) key,
                rw (at_old, at_receipt, gone, c, resolve_old),
                end ks r _ loop refl (owed ∙ (rw (c) refl)) refl gone,
              )
            ]
      ]

  -- A key without a receipt.
  unanswered :
      (key : EventKey) (ks : List EventKey) (r : EventResolution m) (old : Event)
      → OldLoop (key ∷ ks) r
      → find key_discrete key old_events.by_key ≡ some old
      → find key_discrete key (receipts m authority) ≡ none
      → Ends
          (OldLoop ks)
          (Conflict m news authority)
          (resolve_old m old_events new_events (receipts m authority) key r)
  unfolding resolve_old
  unanswered key ks r old loop at_old no_receipt =
      elim (Option-cases (find key_discrete key new_events.by_key)) [
        | inl gone ↦ inl (
          retire m (push_change m r (settle m EventTransition.retracted key old none)) key,
          rw (at_old, no_receipt, gone, resolve_old),
          end ks r _ loop refl (owes key (some old) none none at_old no_receipt gone) refl gone,
        )
        | inr (new, at_new) ↦
            let revised = settle m EventTransition.revised key old (some new) in
            let present = indexed_in m news new_events setting.new_index key new at_new in
            let clear = receipt_out m authority key no_receipt in
            let new_is = sym (setting.new_index.finds key) ∙ at_new in
            let old_is = sym (setting.old_index.finds key) ∙ at_old in
            let owed = owes key (some old) none (some new) at_old no_receipt at_new in
            elim (event_discrete old new) [
              | yes same ↦ inl (
                r,
                rw (at_old, no_receipt, at_new, resolve_old)
                    (ap resolved (if_pos (event_discrete old new) same _ _)),
                next key ks r r loop (
                    skip-Progress m olds news authority loop.done r key loop.progress
                      (λ _. old_is ∙ ap some same ∙ sym new_is)
                      (λ _. owed ∙ if_pos (event_discrete old new) same _ _)
                      (λ _ out. absurd (out present)) (λ _. clear)),
              )
              | no differs ↦ inl (
                push_change m r revised,
                rw (at_old, no_receipt, at_new, resolve_old)
                    (ap resolved (if_neg (event_discrete old new) differs _ _)),
                next key ks r _ loop (
                    keep-Progress m olds news authority loop.done r revised loop.progress
                      (loop.fresh key (inl refl)).1 (sym new_is)
                      (owed ∙ if_neg (event_discrete old new) differs _ _) refl present clear),
              )
            ]
      ]

  round :
      (key : EventKey) (ks : List EventKey) (r : EventResolution m)
      → OldLoop (key ∷ ks) r
      → Ends
          (OldLoop ks)
          (Conflict m news authority)
          (resolve_old m old_events new_events (receipts m authority) key r)
  round key ks r loop =
      let (old, at_old) =
        indexed_found m olds old_events setting.old_index key (loop.fresh key (inl refl)).0 in
      elim (Option-cases (find key_discrete key (receipts m authority))) [
        | inl none_there ↦ unanswered key ks r old loop at_old none_there
        | inr ((i, a), at_receipt) ↦ answered key ks r old i a loop at_old at_receipt
      ]

  start : OldLoop old_events.journal_order (no_changes m)
  start = record {
    done = [];
    progress = empty-Progress m olds news authority;
    left = rw setting.old_index.order setting.old_index.distinct;
    fresh = λ k i. (rw setting.old_index.order at i, λ d. d);
    all = λ k o. inl (rw setting.old_index.order o);
    old_only = λ k d. absurd d;
  }

  pub old_loop : Ends (OldLoop []) (Conflict m news authority) (
      for_each
        (resolve_old m old_events new_events (receipts m authority))
        old_events.journal_order
        (no_changes m))
  old_loop =
      for_each-Ends OldLoop (Conflict m news authority) _ round old_events.journal_order
        (no_changes m) start
