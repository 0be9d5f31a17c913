-- ===== src/Rollback/Router/Handlers/Dispatched.antt =====
-- What a dispatch returns, and keeps: it is total, it calls a handler once for an occurrence, and it
-- keeps account of the tokens.
use mycore.Base.{ℕ, ◌≡◌, ◌≢◌, refl, sym, ap, ◌∙◌, Option, none, some, List, true, has_value, arith}
use mycore.Rollback.Types.{RollbackModel, EventChange, EventTransition}
use mycore.Rollback.Keyed.{or_else, find}
use mycore.Rollback.Router.{
  ConsequenceDispatchReport, Subscriptions, OnEvent, Subscription, predict_once, confirm_once,
  predict_cancelable,
}
use mycore.Rollback.Router.Sets.Contents.{
  contains-erase_other, Distinct-erase_key, find-erase_key_self, find-erase_key_other,
}
use mycore.Rollback.Router.Changes.{valid_shape}
use mycore.Rollback.Router.Once.{process_predict_once, process_confirm_once}
use mycore.Rollback.Router.Once.Calls.{once, Counts, Tells, predict_once-Tells, confirm_once-Tells}
use mycore.Rollback.Router.Cancelables.Tokens.{held, Accounts, Fair, keep_lem}
use mycore.Rollback.Router.Cancelables.Steps.{process-Returns}
use mycore.Rollback.Router.Cancelables.Total.{process-IsSome}
use mycore.Rollback.Router.Handlers.{dispatch, can_prune_handler, prune_handler, settled}

module _ (m : RollbackModel) (s : Subscriptions m) where
  open m use {Event, EventKey, key_discrete}
  open s use {Handler, Token}

  -- A well-shaped change has an event.
  an_event :
      (t : EventTransition) (current previous : Option Event)
      → valid_shape t (has_value previous) (has_value current) ≡ true
      → (e : Event) × (or_else current previous ≡ some e)
  an_event t (some current) previous shape = (current, refl)
  an_event t none (some previous) shape = (previous, refl)
  an_event t none none shape = absurd (ground arith)

  -- A dispatch that returns such that `P` holds.
  abbrev pub Dispatched :
      (Handler → Subscription m s → Type 0)
      → Option (Handler × Subscription m s × ConsequenceDispatchReport)
      → Type 0
  Dispatched P r =
      (h : Handler) × (sub : Subscription m s) × (report : ConsequenceDispatchReport) × (r
        ≡ some (h, sub, report))
      × P h sub

  module _ (calls : Handler → EventKey → ℕ) (k : EventKey) where
    -- A handler that is told once counts its calls, and has been called for `k` once if `k` is
    -- delivered, else never.
    abbrev pub ToldOnce : Handler → Subscription m s → Type 0
    ToldOnce h (predict_once on delivered) = Counts m s calls on × Tells m s calls k h delivered
    ToldOnce h (confirm_once on delivered) = Counts m s calls on × Tells m s calls k h delivered
    ToldOnce h (predict_cancelable c active) = Unit

  module _ (opened closed : Handler → EventKey → ℕ) (k : EventKey) where
    -- A handler that can take its effects back counts its tokens, and those of `k` are active unless
    -- it has taken them back.
    abbrev pub KeepsTokens : Handler → Subscription m s → Type 0
    KeepsTokens h (predict_once on delivered) = Unit
    KeepsTokens h (confirm_once on delivered) = Unit
    KeepsTokens h (predict_cancelable c active) =
        Accounts m s opened closed c × Fair m s opened closed k h active

  module _ (index : ℕ) (change : EventChange m) (current previous : Option Event) (h : Handler)
      (report : ConsequenceDispatchReport)
      (shape : valid_shape change.transition (has_value previous) (has_value current) ≡ true) where
    predict_once_dispatched :
        (on : OnEvent m s) (delivered : List EventKey)
        → (e : Event) × (let d = process_predict_once m s index on change e h delivered report in
            dispatch m s index change current previous h (predict_once on delivered) report
            ≡ some (d.0, predict_once on d.1, d.2))
    unfolding dispatch
    predict_once_dispatched on delivered =
        let (e, at) = an_event change.transition current previous shape in
        (e, rw (at, dispatch) refl)

    confirm_once_dispatched :
        (on : OnEvent m s) (delivered : List EventKey)
        → (e : Event) × (let d = process_confirm_once m s index on change e h delivered report in
            dispatch m s index change current previous h (confirm_once on delivered) report
            ≡ some (d.0, confirm_once on d.1, d.2))
    unfolding dispatch
    confirm_once_dispatched on delivered =
        let (e, at) = an_event change.transition current previous shape in
        (e, rw (at, dispatch) refl)

    -- Each dispatch of a well-shaped change returns.
    pub dispatch-some :
        (sub : Subscription m s)
        → Dispatched (λ h' sub'. Unit) (dispatch m s index change current previous h sub report)
    unfolding dispatch
    dispatch-some (predict_once on delivered) =
        let (e, at) = predict_once_dispatched on delivered in (_, _, _, at, tt)
    dispatch-some (confirm_once on delivered) =
        let (e, at) = confirm_once_dispatched on delivered in (_, _, _, at, tt)
    dispatch-some (predict_cancelable c active) =
        let (d, at) =
          process-IsSome m s index c change.key h active report change.transition current previous
            shape in
        (d.0, predict_cancelable c d.1, d.2, rw (at, dispatch) refl, tt)

    module _ (calls : Handler → EventKey → ℕ) (k : EventKey) where
      pub dispatch-ToldOnce :
          (sub : Subscription m s)
          → ToldOnce calls k h sub
          → Dispatched (ToldOnce calls k) (dispatch m s index change current previous h sub report)
      unfolding dispatch
      dispatch-ToldOnce (predict_once on delivered) (counts, tells) =
          let (e, at) = predict_once_dispatched on delivered in
          (
            _,
            _,
            _,
            at,
            (
              counts,
              predict_once-Tells m s calls k index on change e h delivered report counts tells,
            ),
          )
      dispatch-ToldOnce (confirm_once on delivered) (counts, tells) =
          let (e, at) = confirm_once_dispatched on delivered in
          (
            _,
            _,
            _,
            at,
            (
              counts,
              confirm_once-Tells m s calls k index on change e h delivered report counts tells,
            ),
          )
      dispatch-ToldOnce (predict_cancelable c active) p =
          let (d, at) =
            process-IsSome m s index c change.key h active report change.transition current previous
              shape in
          (d.0, predict_cancelable c d.1, d.2, rw (at, dispatch) refl, tt)

    module _ (opened closed : Handler → EventKey → ℕ) (k : EventKey) where
      pub dispatch-KeepsTokens :
          (sub : Subscription m s)
          → KeepsTokens opened closed k h sub
          → Dispatched
              (KeepsTokens opened closed k)
              (dispatch m s index change current previous h sub report)
      unfolding dispatch
      dispatch-KeepsTokens (predict_once on delivered) p =
          let (e, at) = predict_once_dispatched on delivered in (_, _, _, at, tt)
      dispatch-KeepsTokens (confirm_once on delivered) p =
          let (e, at) = confirm_once_dispatched on delivered in (_, _, _, at, tt)
      dispatch-KeepsTokens (predict_cancelable c active) (accounts, fair) =
          let (d, at, f) =
            process-Returns m s opened closed k index c accounts change.key change.transition
              current previous h active report shape fair in
          (d.0, predict_cancelable c d.1, d.2, rw (at, dispatch) refl, (accounts, f))

  module _ (calls : Handler → EventKey → ℕ) (k key : EventKey) (h : Handler) where
    pub prune-ToldOnce :
        (sub : Subscription m s)
        → key ≢ k
        → ToldOnce calls k h sub
        → ToldOnce calls k h (prune_handler m s key sub)
    unfolding prune_handler
    prune-ToldOnce (predict_once on delivered) ne (counts, tells) =
        (counts, tells ∙ ap once (sym (contains-erase_other key_discrete k key delivered ne)))
    prune-ToldOnce (confirm_once on delivered) ne (counts, tells) =
        (counts, tells ∙ ap once (sym (contains-erase_other key_discrete k key delivered ne)))
    prune-ToldOnce (predict_cancelable c active) ne p = tt

  settled_held : (o : Option (Option Token)) → settled m s o ≡ true → held o ≡ 0
  settled_held none e = refl
  settled_held (some none) e = refl
  settled_held (some (some t)) e = absurd (cc e)

  module _ (opened closed : Handler → EventKey → ℕ) (k key : EventKey) (h : Handler) where
    pub prune-KeepsTokens :
        (sub : Subscription m s)
        → can_prune_handler m s key sub ≡ true
        → KeepsTokens opened closed k h sub
        → KeepsTokens opened closed k h (prune_handler m s key sub)
    unfolding prune_handler can_prune_handler
    prune-KeepsTokens (predict_once on delivered) can p = tt
    prune-KeepsTokens (confirm_once on delivered) can p = tt
    prune-KeepsTokens (predict_cancelable c active) can (accounts, fair) = (
      accounts,
      record {
        distinct = Distinct-erase_key key_discrete key active fair.distinct;
        balanced =
            keep_lem m s opened closed k key h h active _
              (λ ne. find-erase_key_other key_discrete k key active ne) fair.balanced refl refl
              (ap held (find-erase_key_self key_discrete key active fair.distinct)
                ∙ sym (settled_held (find key_discrete key active) can));
      },
    )
