-- ===== src/Rollback/Resolve/Progress.antt =====
-- How far a resolution has come: what the loops of `resolve_event_changes` keep.
use mathlib.Core.Logic.{if_pos, if_neg}
use mathlib.Core.Path.{subst}
use mycore.Base.{◌≡◌, refl, sym, ap, ◌∙◌, inl, inr, none, some, List, [], ◌∷◌, ◌++◌, true}
use mycore.Rollback.Types.{RollbackModel, AuthorityEvent, EventChange}
use mycore.Rollback.Keyed.{
  In, Distinct, in-append, in-append_left, in-append_right, Distinct-snoc, dec_in,
}
use mycore.Rollback.Journal.Order.{keys}
use mycore.Rollback.Resolve.{EventResolution, push_change, retire, no_changes}
use mycore.Rollback.Resolve.Authority.{authority_keys}
use mycore.Rollback.Resolve.Due.{
  change_at, change_at_absent, change_at-snoc_new, change_at-snoc_other, due_at,
}
use mycore.Rollback.Resolve.Effect.{
  predicted_after, apply_changes, change_keys, valid_shape, AllShaped, apply_changes-snoc,
  change_keys-snoc, AllShaped-snoc, old_at, new_at, Known,
}

module _ (m : RollbackModel) (olds news : List m.Event) (authority : List (AuthorityEvent m)) where
  open m use {Event, EventKey, key_discrete}

  -- The resolution has dealt with the keys in `done`, and with no other.
  pub record Progress (done : List EventKey) (r : EventResolution m) : Type 0 where
    pub settled :
        (k : EventKey)
        → In k done
        → apply_changes m k r.changes (old_at m olds news authority k)
          ≡ new_at m olds news authority k
    pub pending :
        (k : EventKey)
        → ¬ In k done
        → apply_changes m k r.changes (old_at m olds news authority k)
          ≡ old_at m olds news authority k
    pub changed : (k : EventKey) → In k (change_keys m r.changes) → In k done
    pub told : (k : EventKey) → In k done → change_at m k r.changes ≡ due_at m olds news authority k
    pub distinct : Distinct (change_keys m r.changes)
    pub shaped : AllShaped m r.changes
    pub retired :
        (k : EventKey)
        → In k r.retired_keys
        → In k done × Known m olds news authority k × ¬ In k (keys m news)
    pub retires :
        (k : EventKey)
        → In k done
        → Known m olds news authority k
        → ¬ In k (keys m news)
        → In k r.retired_keys
    pub clear :
        (k : EventKey) → In k done → In k (keys m news) → ¬ In k (authority_keys m authority)

  pub empty-Progress : Progress [] (no_changes m)
  empty-Progress = record {
    settled = λ k i. absurd i;
    pending = λ k n. refl;
    changed = λ k i. i;
    told = λ k i. absurd i;
    distinct = tt;
    shaped = tt;
    retired = λ k i. absurd i;
    retires = λ k i. absurd i;
    clear = λ k i. absurd i;
  }

  -- A key that needs no change.
  pub skip-Progress :
      (done : List EventKey) (r : EventResolution m) (key : EventKey)
      → Progress done r
      → (¬ In key done → old_at m olds news authority key ≡ new_at m olds news authority key)
      → (¬ In key done → due_at m olds news authority key ≡ none)
      → (Known m olds news authority key → ¬ In key (keys m news) → In key r.retired_keys)
      → (In key (keys m news) → ¬ In key (authority_keys m authority))
      → Progress (key ∷ done) r
  skip-Progress done r key p same silent kept clears = record {
    settled = λ k i. elim i [
      | inr d ↦ p.settled k d
      | inl e ↦
          subst
            (λ z.
              apply_changes m z r.changes (old_at m olds news authority z)
              ≡ new_at m olds news authority z)
            (sym e)
            (elim (dec_in key_discrete key done) [
              | yes d ↦ p.settled key d
              | no n ↦ p.pending key n ∙ same n
            ])
    ];
    pending = λ k n. p.pending k (λ i. n (inr i));
    changed = λ k i. inr (p.changed k i);
    told = λ k i. elim i [
      | inr d ↦ p.told k d
      | inl e ↦
          subst (λ z. change_at m z r.changes ≡ due_at m olds news authority z) (sym e)
            (elim (dec_in key_discrete key done) [
              | yes d ↦ p.told key d
              | no n ↦ change_at_absent m key r.changes (λ c. n (p.changed key c)) ∙ sym (silent n)
            ])
    ];
    distinct = p.distinct;
    shaped = p.shaped;
    retired = λ k i. (let (d, s, n) = p.retired k i in (inr d, s, n));
    retires = λ k i. elim i [
      | inr d ↦ p.retires k d
      | inl e ↦
          subst (λ z. Known m olds news authority z → ¬ In z (keys m news) → In z r.retired_keys)
            (sym e) kept
    ];
    clear = λ k i. elim i [
      | inr d ↦ p.clear k d
      | inl e ↦ subst (λ z. In z (keys m news) → ¬ In z (authority_keys m authority)) (sym e) clears
    ];
  }

  push-settled :
      (done : List EventKey) (r : EventResolution m) (c : EventChange m) (k : EventKey)
      → Progress done r
      → ¬ In c.key done
      → predicted_after m c ≡ new_at m olds news authority c.key
      → In k (c.key ∷ done)
      → apply_changes m k (r.changes ++ c ∷ []) (old_at m olds news authority k)
        ≡ new_at m olds news authority k
  push-settled done r c k p fresh outcome i =
      apply_changes-snoc m k r.changes c (old_at m olds news authority k) ∙ elim i [
        | inl e ↦
            if_pos (key_discrete c.key k) (sym e) _ _
            ∙ outcome
            ∙ ap (new_at m olds news authority) (sym e)
        | inr d ↦
            if_neg (key_discrete c.key k) (λ e. fresh (subst (λ z. In z done) (sym e) d)) _ _
            ∙ p.settled k d
      ]

  push-pending :
      (done : List EventKey) (r : EventResolution m) (c : EventChange m) (k : EventKey)
      → Progress done r
      → ¬ In k (c.key ∷ done)
      → apply_changes m k (r.changes ++ c ∷ []) (old_at m olds news authority k)
        ≡ old_at m olds news authority k
  push-pending done r c k p n =
      apply_changes-snoc m k r.changes c (old_at m olds news authority k)
      ∙ if_neg (key_discrete c.key k) (λ e. n (inl (sym e))) _ _
      ∙ p.pending k (λ i. n (inr i))

  push-changed :
      (done : List EventKey) (r : EventResolution m) (c : EventChange m) (k : EventKey)
      → Progress done r
      → In k (change_keys m (r.changes ++ c ∷ []))
      → In k (c.key ∷ done)
  push-changed done r c k p i =
      elim (in-append k (change_keys m r.changes) (c.key ∷ [])
        (rw (change_keys-snoc m r.changes c) at i)) [
          | inl old ↦ inr (p.changed k old)
          | inr new ↦ elim new [ inl e ↦ inl e | inr n ↦ absurd n ]
        ]

  push-told :
      (done : List EventKey) (r : EventResolution m) (c : EventChange m) (k : EventKey)
      → Progress done r
      → ¬ In c.key done
      → due_at m olds news authority c.key ≡ some c
      → In k (c.key ∷ done)
      → change_at m k (r.changes ++ c ∷ []) ≡ due_at m olds news authority k
  push-told done r c k p fresh due i = elim i [
    | inl e ↦
        subst (λ z. change_at m z (r.changes ++ c ∷ []) ≡ due_at m olds news authority z) (sym e)
          (change_at-snoc_new m r.changes c (λ j. fresh (p.changed c.key j)) ∙ sym due)
    | inr d ↦
        change_at-snoc_other m k r.changes c (λ e. fresh (subst (λ z. In z done) (sym e) d))
        ∙ p.told k d
  ]

  push-Distinct :
      (done : List EventKey) (r : EventResolution m) (c : EventChange m)
      → Progress done r
      → ¬ In c.key done
      → Distinct (change_keys m (r.changes ++ c ∷ []))
  push-Distinct done r c p fresh =
      rw (change_keys-snoc m r.changes c)
        (Distinct-snoc (change_keys m r.changes) c.key p.distinct (λ i. fresh (p.changed c.key i)))

  -- A change under a new key that is predicted from now on.
  pub keep-Progress :
      (done : List EventKey) (r : EventResolution m) (c : EventChange m)
      → Progress done r
      → ¬ In c.key done
      → predicted_after m c ≡ new_at m olds news authority c.key
      → due_at m olds news authority c.key ≡ some c
      → valid_shape m c ≡ true
      → In c.key (keys m news)
      → ¬ In c.key (authority_keys m authority)
      → Progress (c.key ∷ done) (push_change m r c)
  keep-Progress done r c p fresh outcome due shape new clears = record {
    settled = λ k. push-settled done r c k p fresh outcome;
    pending = λ k. push-pending done r c k p;
    changed = λ k. push-changed done r c k p;
    told = λ k. push-told done r c k p fresh due;
    distinct = push-Distinct done r c p fresh;
    shaped = AllShaped-snoc m r.changes c p.shaped shape;
    retired = λ k i. (let (d, s, n) = p.retired k i in (inr d, s, n));
    retires = λ k i known gone. elim i [
      | inl e ↦ absurd (gone (subst (λ z. In z (keys m news)) (sym e) new))
      | inr d ↦ p.retires k d known gone
    ];
    clear = λ k i. elim i [
      | inl e ↦ λ _ a. clears (subst (λ z. In z (authority_keys m authority)) e a)
      | inr d ↦ p.clear k d
    ];
  }

  -- A change under a new key that ends its prediction.
  pub retire-Progress :
      (done : List EventKey) (r : EventResolution m) (c : EventChange m)
      → Progress done r
      → ¬ In c.key done
      → predicted_after m c ≡ new_at m olds news authority c.key
      → due_at m olds news authority c.key ≡ some c
      → valid_shape m c ≡ true
      → Known m olds news authority c.key
      → ¬ In c.key (keys m news)
      → Progress (c.key ∷ done) (retire m (push_change m r c) c.key)
  retire-Progress done r c p fresh outcome due shape known gone = record {
    settled = λ k. push-settled done r c k p fresh outcome;
    pending = λ k. push-pending done r c k p;
    changed = λ k. push-changed done r c k p;
    told = λ k. push-told done r c k p fresh due;
    distinct = push-Distinct done r c p fresh;
    shaped = AllShaped-snoc m r.changes c p.shaped shape;
    retired = λ k i. elim (in-append k r.retired_keys (c.key ∷ []) i) [
      | inl old ↦ (let (d, s, n) = p.retired k old in (inr d, s, n))
      | inr new ↦ elim new [
        | inl e ↦
            subst (λ z. In z (c.key ∷ done) × Known m olds news authority z × ¬ In z (keys m news))
              (sym e) (inl refl, known, gone)
        | inr n ↦ absurd n
      ]
    ];
    retires = λ k i known' gone'. elim i [
      | inl e ↦ in-append_right k r.retired_keys (c.key ∷ []) (inl e)
      | inr d ↦ in-append_left k r.retired_keys (c.key ∷ []) (p.retires k d known' gone')
    ];
    clear = λ k i. elim i [
      | inl e ↦ λ new _. gone (subst (λ z. In z (keys m news)) e new)
      | inr d ↦ p.clear k d
    ];
  }
