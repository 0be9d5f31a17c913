-- ===== src/Rollback/Router/Cancelables/Steps.antt =====
-- Each branch of `process_predict_cancelable` keeps the account of the tokens.
use mathlib.Core.Logic.{if_pos}
use mathlib.Core.Path.{subst}
use mycore.Base.{
  ℕ, ◌≡◌, ◌≢◌, refl, sym, ap, ◌∙◌, inl, inr, Option, none, some, List, ◌∷◌, true, if◌then◌else◌,
  has_value, arith, Bool-cases, Option-cases,
}
use mycore.Rollback.Types.{RollbackModel, EventTransition}
use mycore.Rollback.Keyed.{
  In, Distinct, find, find-hit, find-miss, find_of_in, first_keys, emplace-new,
}
use mycore.Rollback.Router.{ConsequenceDispatchReport, Subscriptions, Cancelable}
use mycore.Rollback.Router.Sets.{erase_key, assign}
use mycore.Rollback.Router.Sets.Contents.{
  first_keys-assign, find-assign_self, find-assign_other, Distinct-erase_key, find-erase_key_self,
  find-erase_key_other,
}
use mycore.Rollback.Router.Changes.{valid_shape}
use mycore.Rollback.Router.Once.Calls.{more}
use mycore.Rollback.Router.Cancelables.{
  Dealt, activate, confirm_found, confirm, revise_found, cancel_found, process_predict_cancelable,
}
use mycore.Rollback.Router.Cancelables.Tokens.{
  held, Accounts, Balanced, Fair, open_lem, close_lem, keep_lem,
}

module _ (m : RollbackModel) (s : Subscriptions m) (opened closed : s.Handler → m.EventKey → ℕ)
    (k : m.EventKey) (index : ℕ) (c : Cancelable m s) (a : Accounts m s opened closed c)
    (key : m.EventKey) where
  open m use {Event, EventKey, key_discrete}
  open s use {Handler, Token}

  abbrev pub FairDeal : Dealt m s → Type 0
  FairDeal d = Fair m s opened closed k d.0 d.1

  -- The call returns, and the account is kept.
  abbrev pub Returns : Option (Dealt m s) → Type 0
  Returns r = (d : Dealt m s) × (r ≡ some d) × FairDeal d

  module _ (h : Handler) (active : List (EventKey × Option Token))
      (report : ConsequenceDispatchReport) (f : Fair m s opened closed k h active) where
    Fair-assign :
        (h' : Handler) (v old : Option Token)
        → find key_discrete key active ≡ some old
        → (held (find key_discrete key (assign key_discrete key v active)) ≡ held (some v)
            → Balanced m s opened closed k h' (assign key_discrete key v active))
        → Fair m s opened closed k h' (assign key_discrete key v active)
    Fair-assign h' v old at balance = record {
      distinct = subst Distinct (sym (first_keys-assign key_discrete key v active)) f.distinct;
      balanced = balance (ap held (find-assign_self key_discrete key v old active at));
    }

    not_active : find key_discrete key active ≡ none → ¬ In key (first_keys active)
    not_active absent i = let (v, at) = find_of_in key_discrete key active i in cc (at, absent)

    grown-rest :
        (v : Option Token)
        → key ≢ k
        → find key_discrete k ((key, v) ∷ active) ≡ find key_discrete k active
    grown-rest v ne = find-miss key_discrete key k v active ne

    assign-grown :
        (v : Option Token) → assign key_discrete key v ((key, none) ∷ active) ≡ (key, v) ∷ active
    unfolding assign
    assign-grown v = if_pos (key_discrete key key) refl _ _

    grown-Fair :
        (h' : Handler) (v : Option Token)
        → find key_discrete key active ≡ none
        → (held (find key_discrete key ((key, v) ∷ active)) ≡ held (some v)
            → Balanced m s opened closed k h' ((key, v) ∷ active))
        → Fair m s opened closed k h' ((key, v) ∷ active)
    grown-Fair h' v absent balance = record {
      distinct = (not_active absent, f.distinct);
      balanced = balance (ap held (find-hit key_discrete key key v active refl));
    }

    pub activate-FairDeal :
        (event : Event)
        → find key_discrete key active ≡ none
        → FairDeal (activate m s index c key event h active report)
    unfolding activate
    activate-FairDeal event absent =
        let h' = (c.on_predict h key event).0 in
        let fresh = emplace-new key_discrete key none active absent in
        let opens = λ (o : Option Token).
          opened h' k
          ≡ (if has_value o then more (key_discrete key k) (opened h k) else opened h k) in
        elim (Option-cases (c.on_predict h key event).1) [
          | inl refused ↦ rw (fresh) (
              rw (refused) (
                rw (fresh) (
                  grown-Fair h' none absent λ now.
                    keep_lem m s opened closed k key h h' active _ (grown-rest none) f.balanced
                      (subst opens refused (a.predict_opens h key event k))
                      (a.predict_closes h key event k) (now ∙ sym (ap held absent)))))
          | inr (t, at) ↦ rw (fresh) (
              rw (at) (
                rw (fresh, assign-grown (some t))
                  (grown-Fair h' (some t) absent λ now.
                    open_lem m s opened closed k key h h' active _ (grown-rest (some t)) f.balanced
                      (subst opens at (a.predict_opens h key event k))
                      (a.predict_closes h key event k) (ap held absent) now)))
        ]

    pub confirm_found-Returns :
        (event : Event) (found : Option (Option Token))
        → find key_discrete key active ≡ found
        → Returns (confirm_found m s index c key (some event) found h active report)
    unfolding confirm_found
    confirm_found-Returns event none at = (_, refl, f)
    confirm_found-Returns event (some none) at = (_, refl, f)
    confirm_found-Returns event (some (some t)) at =
        let f' = Fair-assign (c.on_confirm h t key event).0 none (some t) at (λ now.
          close_lem m s opened closed k key h _ active _
            (λ ne. find-assign_other key_discrete k key none active ne) f.balanced
            (a.confirm_opens h t key event k) (a.confirm_closes h t key event k) (ap held at)
            now) in
        elim (Bool-cases (c.on_confirm h t key event).1) [
          | inl done ↦ (_, refl, rw (done) f')
          | inr failed ↦ (_, refl, rw (failed) f')
        ]

    pub revise_found-Returns :
        (event : Event) (found : Option (Option Token))
        → find key_discrete key active ≡ found
        → Returns (revise_found m s index c key (some event) found h active report)
    unfolding revise_found
    revise_found-Returns event none at = (_, refl, f)
    revise_found-Returns event (some none) at = (_, refl, f)
    revise_found-Returns event (some (some t)) at =
        let t' = (c.on_revise h t key event).1 in
        let f' = Fair-assign (c.on_revise h t key event).0 (some t') (some t) at (λ now.
          keep_lem m s opened closed k key h _ active _
            (λ ne. find-assign_other key_discrete k key (some t') active ne) f.balanced
            (a.revise_opens h t key event k) (a.revise_closes h t key event k)
            (now ∙ sym (ap held at))) in
        elim (Bool-cases (c.on_revise h t key event).2) [
          | inl done ↦ (_, refl, rw (done) f')
          | inr failed ↦ (_, refl, rw (failed) f')
        ]

    Fair-erase :
        (h' : Handler)
        → (held (find key_discrete key (erase_key key_discrete key active)) ≡ 0
            → Balanced m s opened closed k h' (erase_key key_discrete key active))
        → Fair m s opened closed k h' (erase_key key_discrete key active)
    Fair-erase h' balance = record {
      distinct = Distinct-erase_key key_discrete key active f.distinct;
      balanced = balance (ap held (find-erase_key_self key_discrete key active f.distinct));
    }

    pub cancel_found-Returns :
        (event : Event) (found : Option (Option Token))
        → find key_discrete key active ≡ found
        → Returns (cancel_found m s index c key (some event) found h active report)
    unfolding cancel_found
    cancel_found-Returns event none at = (_, refl, f)
    cancel_found-Returns event (some none) at = (
      _,
      refl,
      Fair-erase h (λ now.
          keep_lem m s opened closed k key h h active _
            (λ ne. find-erase_key_other key_discrete k key active ne) f.balanced refl refl
            (now ∙ sym (ap held at))),
    )
    cancel_found-Returns event (some (some t)) at =
        let f' = Fair-erase (c.on_cancel h t key event).0 (λ now.
          close_lem m s opened closed k key h _ active _
            (λ ne. find-erase_key_other key_discrete k key active ne) f.balanced
            (a.cancel_opens h t key event k) (a.cancel_closes h t key event k) (ap held at) now) in
        elim (Bool-cases (c.on_cancel h t key event).1) [
          | inl done ↦ (_, refl, rw (done) f')
          | inr failed ↦ (_, refl, rw (failed) f')
        ]

  confirm-Returns :
      (event : Event) (h : Handler) (active : List (EventKey × Option Token))
      (report : ConsequenceDispatchReport)
      → Fair m s opened closed k h active
      → Returns (confirm m s index c key (some event) h active report)
  unfolding confirm
  confirm-Returns event h active report f = elim (Option-cases (find key_discrete key active)) [
    | inr (entry, at) ↦ rw (at) (confirm_found-Returns h active report f event (some entry) at)
    | inl absent ↦
        let d = activate m s index c key event h active report in
        rw (absent) (
          confirm_found-Returns d.0 d.1 d.2 (activate-FairDeal h active report f event absent) event
            (find key_discrete key d.1) refl)
  ]

  -- Whatever the transition, if the events that it needs are there.
  pub process-Returns :
      (t : EventTransition) (current previous : Option Event) (h : Handler)
      (active : List (EventKey × Option Token)) (report : ConsequenceDispatchReport)
      → valid_shape t (has_value previous) (has_value current) ≡ true
      → Fair m s opened closed k h active
      → Returns (process_predict_cancelable m s index c t key current previous h active report)
  unfolding process_predict_cancelable
  process-Returns EventTransition.first_predicted (some current) previous h active report shape f =
      elim (Option-cases (find key_discrete key active)) [
        | inr (entry, at) ↦ rw (at) (_, refl, f)
        | inl absent ↦ rw (absent) (_, refl, activate-FairDeal h active report f current absent)
      ]
  process-Returns EventTransition.revised (some current) previous h active report shape f =
      revise_found-Returns h active report f current (find key_discrete key active) refl
  process-Returns EventTransition.retracted current (some previous) h active report shape f =
      cancel_found-Returns h active report f previous (find key_discrete key active) refl
  process-Returns EventTransition.confirmed (some current) previous h active report shape f =
      confirm-Returns current h active report f
  process-Returns EventTransition.authority_only (some current) previous h active report shape f =
      confirm-Returns current h active report f
  process-Returns EventTransition.first_predicted none previous h active report shape f =
      absurd (ground arith)
  process-Returns EventTransition.revised none previous h active report shape f =
      absurd (ground arith)
  process-Returns EventTransition.retracted current none h active report shape f = absurd (cc shape)
  process-Returns EventTransition.confirmed none previous h active report shape f =
      absurd (ground arith)
  process-Returns EventTransition.authority_only none previous h active report shape f =
      absurd (ground arith)
