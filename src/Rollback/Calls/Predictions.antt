-- ===== src/Rollback/Calls/Predictions.antt =====
-- The event changes of `Timeline::advance`.
use mathlib.Core.Logic.{ite, if_pos, if_neg}
use mathlib.Core.List.{append-nil, append_assoc}
use mathlib.Core.Path.{subst}
use mycore.Base.{
  ℕ, ◌≡◌, refl, sym, ap, ◌∙◌, inl, inr, none, some, List, [], ◌∷◌, ◌++◌, Option-cases,
}
use mycore.Rollback.Types.{RollbackModel, Commit, EventTransition}
use mycore.Rollback.Keyed.{
  In, Distinct, find, find-append, or_else, in_of_find, find-snoc, Distinct-disjoint,
  Distinct-append_right, in-append_left,
}
use mycore.Rollback.Journal.Order.{
  keys, keyed, keyed-append, keys-append, journal, journal-append, build_event_map-value,
  append_events-Indexes,
}
use mycore.Rollback.Resolve.Due.{change_of, due, change_at, change_at_absent, due_at}
use mycore.Rollback.Resolve.Effect.{apply_changes, change_keys, AllShaped}
use mycore.Rollback.Resolve.Complete.{Explains}
use mycore.Rollback.Timeline.{Timeline}
use mycore.Rollback.Timeline.Operations.{first_predictions}
use mycore.Rollback.Timeline.Operations.Advance.{Advances, next_frame}
use mycore.Rollback.Calls.Replays.{resolution_of}

module _ (m : RollbackModel) where
  open m use {Event, EventKey, event_key, key_discrete, event_discrete, Stimulus}

  predicted-keys : (fs : List Event) → change_keys m (first_predictions m fs) ≡ keys m fs
  predicted-keys [] = refl
  predicted-keys (f ∷ fs) = ap (λ l. event_key f ∷ l) (predicted-keys fs)

  predicted-shaped : (fs : List Event) → AllShaped m (first_predictions m fs)
  predicted-shaped [] = tt
  predicted-shaped (f ∷ fs) = (refl, predicted-shaped fs)

  -- A first prediction finds the event under its key, and leaves the other keys.
  predicted-snoc :
      (k : EventKey) (es : List Event) (f : Event)
      → ¬ In (event_key f) (keys m es)
      → ite (key_discrete (event_key f) k) (some f) (find key_discrete k (keyed m es))
        ≡ find key_discrete k (keyed m (es ++ f ∷ []))
  unfolding find
  predicted-snoc k es f new =
      find-snoc key_discrete k (event_key f) f (keyed m es) (keyed m es) refl new
      ∙ ap (find key_discrete k) (sym (keyed-append m es (f ∷ [])))

  predictions-found :
      (k : EventKey) (es fs : List Event)
      → Distinct (keys m (es ++ fs))
      → apply_changes m k (first_predictions m fs) (find key_discrete k (keyed m es))
        ≡ find key_discrete k (keyed m (es ++ fs))
  predictions-found k es [] d = ap (λ l. find key_discrete k (keyed m l)) (sym (append-nil es))
  predictions-found k es (f ∷ fs) d =
      let split : Distinct (keys m es ++ event_key f ∷ keys m fs) =
        subst Distinct (keys-append m es (f ∷ fs)) d in
      let new : ¬ In (event_key f) (keys m es) = λ i.
        Distinct-disjoint (event_key f) (keys m es) (event_key f ∷ keys m fs) split i (inl refl) in
      ap (apply_changes m k (first_predictions m fs)) (predicted-snoc k es f new)
      ∙ predictions-found k (es ++ f ∷ []) fs
          (subst (λ l. Distinct (keys m l)) (sym (append_assoc es (f ∷ []) fs)) d)
      ∙ ap (λ l. find key_discrete k (keyed m l)) (append_assoc es (f ∷ []) fs)

  predicted-at :
      (k : EventKey) (fs : List Event)
      → change_at m k (first_predictions m fs)
        ≡ due m k none none (find key_discrete k (keyed m fs))
  unfolding find
  predicted-at k [] = refl
  predicted-at k (f ∷ fs) = elim (key_discrete (event_key f) k) [
    | yes e ↦
        if_pos (key_discrete (event_key f) k) e _ _
        ∙ ap (λ z. some (change_of m EventTransition.first_predicted z none (some f))) e
        ∙ sym (ap (due m k none none) (if_pos (key_discrete (event_key f) k) e _ _))
    | no ne ↦
        if_neg (key_discrete (event_key f) k) ne _ _
        ∙ predicted-at k fs
        ∙ sym (ap (due m k none none) (if_neg (key_discrete (event_key f) k) ne _ _))
  ]

  -- A key that was predicted before is due no change, and any other its first prediction.
  predictions-told :
      (k : EventKey) (es fs : List Event)
      → Distinct (keys m (es ++ fs))
      → change_at m k (first_predictions m fs) ≡ due_at m es (es ++ fs) [] k
  predictions-told k es fs d =
      let both : find key_discrete k (keyed m (es ++ fs))
          ≡ or_else (find key_discrete k (keyed m es)) (find key_discrete k (keyed m fs)) =
        ap (find key_discrete k) (keyed-append m es fs)
        ∙ find-append key_discrete k (keyed m es) (keyed m fs) in
      elim (Option-cases (find key_discrete k (keyed m es))) [
        | inl new ↦ predicted-at k fs ∙ (rw (both, new) refl)
        | inr (old, at) ↦
            let split = subst Distinct (keys-append m es fs) d in
            let (before, _) = in_of_find key_discrete k old (keyed m es) at in
            let absent : ¬ In k (change_keys m (first_predictions m fs)) =
              rw (predicted-keys fs)
                (λ i. Distinct-disjoint k (keys m es) (keys m fs) split before i) in
            change_at_absent m k (first_predictions m fs) absent
            ∙ sym (
                (rw (both, at) refl)
                ∙ if_pos (event_discrete old old) refl none
                    (some (change_of m EventTransition.revised k (some old) (some old))))
      ]

  predictions-Explains :
      (es fs : List Event)
      → Distinct (keys m (es ++ fs))
      → Explains m es (es ++ fs) [] (record { changes = first_predictions m fs; retired_keys = [] })
  predictions-Explains es fs d = record {
    explained = λ k. predictions-found k es fs d;
    told = λ k. predictions-told k es fs d;
    once =
        rw (predicted-keys fs)
          (Distinct-append_right (keys m es) (keys m fs) (subst Distinct (keys-append m es fs) d));
    shaped = predicted-shaped fs;
    retired = λ k. (
      λ i. absurd i,
      λ (known, gone). elim known [
        | inl old ↦ gone (
            subst (In k) (sym (keys-append m es fs)) (in-append_left k (keys m es) (keys m fs) old))
        | inr (i, a, at, _) ↦ absurd (cc at)
      ],
    );
    clear = λ k (_, answered). answered;
  }

  -- The keys of the history and of the new frame's events are distinct.
  pub advanced-Distinct :
      (t : Timeline m) (sequence_number : ℕ) (stimulus : Stimulus) (t' : Timeline m) (c : Commit m)
      (a : Advances m t sequence_number stimulus t' c)
      → Distinct (keys m (journal m t.history ++ a.events))
  advanced-Distinct t sequence_number stimulus t' c a =
      let old = build_event_map-value m t.history a.existing a.indexes in
      let new =
        append_events-Indexes m (journal m t.history) a.events a.existing a.extended old
          a.appends in
      new.distinct

  pub Advances-Explains :
      (t : Timeline m) (sequence_number : ℕ) (stimulus : Stimulus) (t' : Timeline m) (c : Commit m)
      → Advances m t sequence_number stimulus t' c
      → Explains m (journal m t.history) (journal m t'.history) [] (resolution_of m c)
  Advances-Explains t sequence_number stimulus t' c a =
      let frame = next_frame m t sequence_number stimulus a.scope a.scratch a.events in
      let grown : journal m t'.history ≡ journal m t.history ++ a.events =
        ap (λ z. journal m z.history) a.after
        ∙ journal-append m t.history (frame ∷ [])
        ∙ ap (λ l. journal m t.history ++ l) (append-nil a.events) in
      let resolution : resolution_of m c
          ≡ record { changes = first_predictions m a.events; retired_keys = [] } =
        (let changes = a.changes in let retired = a.retired in cc (changes, retired)) in
      rw (grown, resolution)
        (predictions-Explains (journal m t.history) a.events
          (advanced-Distinct t sequence_number stimulus t' c a))
