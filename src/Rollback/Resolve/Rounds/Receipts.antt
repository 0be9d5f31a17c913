-- ===== src/Rollback/Resolve/Rounds/Receipts.antt =====
-- The loop over the authority's events, of which the first one under each key counts.
use mathlib.Core.List.{append-nil, append_assoc}
use mathlib.Core.Path.{subst}
use mycore.Base.{
  ℕ, ◌+◌, ◌≡◌, refl, sym, ◌∙◌, ◌⊎◌, inl, inr, none, some, List, [], ◌∷◌, ◌++◌, true, false, ◌==◌,
  ==_iff, arith, length, length-append, Option-cases, has_value,
}
use mycore.Rollback.Types.{RollbackModel, AuthorityEvent, EventTransition}
use mycore.Rollback.Types.AuthorityEventDisposition.{confirmed, rejected}
use mycore.Rollback.Keyed.{
  In, find, find_of_not_in, dec_in, in-append, in-append_left, in-append_right,
}
use mycore.Rollback.Journal.{EventIndex}
use mycore.Rollback.Journal.Order.{keys, keyed}
use mycore.Rollback.Journal.Shape.{Disposition-cases, confirmed_event}
use mycore.Rollback.Resolve.{
  Resolved, for_each, enumerate, EventResolution, push_change, retire, introduce, resolve_authority,
}
use mycore.Rollback.Resolve.Authority.{
  authority_keys, first_at, first_at_earlier, first_at_here, lookup_authority,
  authority_keys-append,
}
use mycore.Rollback.Resolve.Effect.{Confirms}
use mycore.Rollback.Resolve.Progress.{Progress, skip-Progress, retire-Progress}
use mycore.Rollback.Resolve.Rounds.{
  Ends, Conflict, Setting, receipts, indexed_in, indexed_out, receipt_in,
}

module _ (m : RollbackModel) (olds news : List m.Event) (authority : List (AuthorityEvent m))
    (old_events new_events : EventIndex m)
    (setting : Setting m olds news authority old_events new_events) where
  open m use {Event, EventKey, key_discrete}

  -- The events in `pre` are dealt with.
  pub record ReceiptLoop (pre : List (AuthorityEvent m)) (r : EventResolution m) : Type 0 where
    pub done : List EventKey
    pub progress : Progress m olds news authority done r
    pub olds_done : (k : EventKey) → In k (keys m olds) → In k done
    pub news_done : (k : EventKey) → In k (keys m news) → In k done
    pub handled : (k : EventKey) → In k (authority_keys m pre) → In k done
    pub only :
        (k : EventKey)
        → In k done
        → (In k (keys m olds) ⊎ In k (keys m news)) ⊎ In k (authority_keys m pre)

  next :
      (pre : List (AuthorityEvent m)) (a : AuthorityEvent m) (r r' : EventResolution m)
      → (loop : ReceiptLoop pre r) → Progress m olds news authority (a.key ∷ loop.done) r'
      → ReceiptLoop (pre ++ a ∷ []) r'
  next pre a r r' loop p = record {
    done = a.key ∷ loop.done;
    progress = p;
    olds_done = λ k i. inr (loop.olds_done k i);
    news_done = λ k i. inr (loop.news_done k i);
    handled = λ k i.
        elim (in-append k (authority_keys m pre) (a.key ∷ [])
          (rw (authority_keys-append m pre (a ∷ [])) at i)) [
            | inl old ↦ inr (loop.handled k old)
            | inr new ↦ elim new [ inl e ↦ inl e | inr n ↦ absurd n ]
          ];
    only = λ k d. elim d [
      | inl e ↦ inr (
          rw (authority_keys-append m pre (a ∷ []))
            (in-append_right k (authority_keys m pre) (a.key ∷ []) (inl e)))
      | inr d' ↦ elim (loop.only k d') [
        | inl i ↦ inl i
        | inr i ↦ inr (
            rw (authority_keys-append m pre (a ∷ []))
              (in-append_left k (authority_keys m pre) (a.key ∷ []) i))
      ]
    ];
  }

  -- A key that is done already.
  again :
      (pre : List (AuthorityEvent m)) (a : AuthorityEvent m) (r : EventResolution m)
      → (loop : ReceiptLoop pre r) → In a.key loop.done
      → ReceiptLoop (pre ++ a ∷ []) r
  again pre a r loop d = next pre a r r loop (
      skip-Progress m olds news authority loop.done r a.key loop.progress (λ n. absurd (n d))
        (λ n. absurd (n d)) (loop.progress.retires a.key d) (loop.progress.clear a.key d))

  -- A rejected key that was never predicted.
  refuse :
      (pre : List (AuthorityEvent m)) (a : AuthorityEvent m) (r : EventResolution m)
      → (loop : ReceiptLoop pre r) → first_at m a.key 0 authority ≡ some (length pre, a)
      → a.disposition ≡ rejected
      → ¬ In a.key (keys m olds)
      → ReceiptLoop (pre ++ a ∷ []) r
  refuse pre a r loop own d unknown =
      let absent = find_of_not_in key_discrete a.key (keyed m olds) unknown in
      let unconfirmed : ¬ Confirms m olds news authority a.key =
        λ (i, b, at, c). cc (own, at, c, d) in
      next pre a r r loop (
        skip-Progress m olds news authority loop.done r a.key loop.progress
          (λ n.
            absent
            ∙ sym (
                find_of_not_in key_discrete a.key (keyed m news) (λ i. n (loop.news_done a.key i))))
          (λ _. rw (absent, own, d) refl)
          (λ known. elim known [ inl o ↦ absurd (unknown o) | inr c ↦ absurd (unconfirmed c) ])
          (λ i. loop.progress.clear a.key (loop.news_done a.key i) i))

  -- A confirmed key that was never predicted.
  confirm :
      (pre : List (AuthorityEvent m)) (a : AuthorityEvent m) (r : EventResolution m)
      → (loop : ReceiptLoop pre r) → first_at m a.key 0 authority ≡ some (length pre, a)
      → a.disposition ≡ confirmed
      → has_value a.event ≡ true
      → ¬ In a.key (authority_keys m pre)
      → ¬ In a.key (keys m olds)
      → ¬ In a.key (keys m news)
      → ReceiptLoop (pre ++ a ∷ []) (
          retire m
            (push_change m r (introduce m EventTransition.authority_only a.key a.event))
            a.key)
  confirm pre a r loop own d there first unknown gone =
      let fresh : ¬ In a.key loop.done = λ i. elim (loop.only a.key i) [
        | inl predicted ↦ elim predicted [ inl o ↦ unknown o | inr n ↦ gone n ]
        | inr earlier ↦ first earlier
      ] in
      next pre a r _ loop (
        retire-Progress m olds news authority loop.done r
          (introduce m EventTransition.authority_only a.key a.event) loop.progress fresh
          (sym (find_of_not_in key_discrete a.key (keyed m news) gone))
          (rw (find_of_not_in key_discrete a.key (keyed m olds) unknown, own, d) refl) there
          (inr (length pre, a, own, d)) gone)

  abbrev body : ℕ × AuthorityEvent m → EventResolution m → Resolved (EventResolution m)
  body = resolve_authority m old_events new_events (receipts m authority)

  -- The event is the first under its key, and the key was not predicted before.
  first_round :
      (pre post : List (AuthorityEvent m)) (a : AuthorityEvent m) (r : EventResolution m)
      → pre ++ a ∷ post ≡ authority
      → (loop : ReceiptLoop pre r) → ¬ In a.key (authority_keys m pre)
      → find key_discrete a.key (receipts m authority) ≡ some (length pre, a)
      → find key_discrete a.key old_events.by_key ≡ none
      → Ends (ReceiptLoop (pre ++ a ∷ [])) (Conflict m news authority) (body (length pre, a) r)
  unfolding resolve_authority
  first_round pre post a r split loop first at_receipt not_old =
      let here : (length pre == length pre) ≡ true = (==_iff (length pre) (length pre)).1 refl in
      let own = sym (lookup_authority m a.key authority) ∙ at_receipt in
      let unknown = indexed_out m olds old_events setting.old_index a.key not_old in
      let (present, _, member) = receipt_in m authority a.key (length pre) a at_receipt in
      elim (Disposition-cases a.disposition) [
        | inr d ↦ inl (
          r,
          rw (at_receipt, here, not_old, d, resolve_authority),
          refuse pre a r loop own d unknown,
        )
        | inl d ↦ elim (Option-cases (find key_discrete a.key new_events.by_key)) [
          | inr (new, at_new) ↦ inr (
            (a.key, indexed_in m news new_events setting.new_index a.key new at_new, present),
            rw (at_receipt, here, not_old, d, at_new, resolve_authority),
          )
          | inl not_new ↦ inl (
            retire m (push_change m r (introduce m EventTransition.authority_only a.key a.event))
                a.key,
            rw (at_receipt, here, not_old, d, not_new, resolve_authority),
            confirm pre a r loop own d (confirmed_event m a (setting.shapes a member) d) first
                unknown (indexed_out m news new_events setting.new_index a.key not_new),
          )
        ]
      ]

  round :
      (pre post : List (AuthorityEvent m)) (a : AuthorityEvent m) (r : EventResolution m)
      → pre ++ a ∷ post ≡ authority
      → (loop : ReceiptLoop pre r)
      → Ends (ReceiptLoop (pre ++ a ∷ [])) (Conflict m news authority) (body (length pre, a) r)
  unfolding resolve_authority
  round pre post a r split loop = elim (dec_in key_discrete a.key (authority_keys m pre)) [
    | yes earlier ↦
        let (j, b, at, low) = first_at_earlier m a.key pre (a ∷ post) earlier in
        let at_receipt = lookup_authority m a.key authority ∙ rw split at at in
        let other : (j == length pre) ≡ false = ground arith in
        inl (
          r,
          rw (at_receipt, other, resolve_authority),
          again pre a r loop (loop.handled a.key earlier),
        )
    | no first ↦
        let own = first_at_here m pre post a first in
        let at_receipt = lookup_authority m a.key authority ∙ rw split at own in
        let here : (length pre == length pre) ≡ true = (==_iff (length pre) (length pre)).1 refl in
        elim (Option-cases (find key_discrete a.key old_events.by_key)) [
          | inl not_old ↦ first_round pre post a r split loop first at_receipt not_old
          | inr (old, at_old) ↦ inl (
            r,
            rw (at_receipt, here, at_old, resolve_authority),
            again pre a r loop (
                loop.olds_done a.key
                  (indexed_in m olds old_events setting.old_index a.key old at_old)),
          )
        ]
  ]

  receipt_loop_from :
      (pre post : List (AuthorityEvent m)) (r : EventResolution m)
      → pre ++ post ≡ authority
      → ReceiptLoop pre r
      → Ends
          (ReceiptLoop authority)
          (Conflict m news authority)
          (for_each body (enumerate (length pre) post) r)
  unfolding for_each enumerate
  receipt_loop_from pre [] r split loop =
      inl (r, refl, subst (λ l. ReceiptLoop l r) (sym (append-nil pre) ∙ split) loop)
  receipt_loop_from pre (a ∷ post) r split loop = elim (round pre post a r split loop) [
    | inr (c, e) ↦ inr (c, rw (e, for_each))
    | inl (s, e, p) ↦
        let place : length (pre ++ a ∷ []) ≡ length pre + 1 =
          omega (arith, length-append pre (a ∷ [])) in
        let rest : Ends (ReceiptLoop authority) (Conflict m news authority)
            (for_each body (enumerate (length pre + 1) post) s) =
          rw place at
            (receipt_loop_from (pre ++ a ∷ []) post s (append_assoc pre (a ∷ []) post ∙ split) p) in
        elim rest [
          | inl (t, run, q) ↦ inl (t, rw (e, for_each) run, q)
          | inr (c, run) ↦ inr (c, rw (e, for_each) run)
        ]
  ]

  pub receipt_loop :
      (r : EventResolution m)
      → ReceiptLoop [] r
      → Ends
          (ReceiptLoop authority)
          (Conflict m news authority)
          (for_each body (enumerate 0 authority) r)
  receipt_loop r loop = receipt_loop_from [] authority r refl loop
