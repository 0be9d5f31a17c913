-- ===== src/Rollback/Router/Cancelables/Tokens.antt =====
-- The handlers that can take an effect back: each token that they have given out, and that has not
-- been canceled or confirmed, is active.
use mathlib.Core.Path.{subst}
use mycore.Base.{ℕ, ◌+◌, ◌≡◌, ◌≢◌, ap, Option, none, some, List, if◌then◌else◌, has_value, arith}
use mycore.Rollback.Types.{RollbackModel}
use mycore.Rollback.Keyed.{Distinct, find, first_keys}
use mycore.Rollback.Router.{Subscriptions, Cancelable}
use mycore.Rollback.Router.Once.Calls.{more, more_same, more_other}

-- The tokens that an entry holds.
abbrev pub held : {A : Type 0} → Option (Option A) → ℕ
held none = 0
held (some none) = 0
held (some (some t)) = 1

module _ (m : RollbackModel) (s : Subscriptions m)
    (opened closed : s.Handler → m.EventKey → ℕ) where
  open m use {Event, EventKey, key_discrete}
  open s use {Handler, Token}

  -- The callbacks count the tokens that they give out and those that they take back.
  pub record Accounts (c : Cancelable m s) : Type 0 where
    pub predict_opens :
        (h : Handler) (key : EventKey) (event : Event) (j : EventKey)
        → opened (c.on_predict h key event).0 j ≡ (
            if has_value (c.on_predict h key event).1
            then more (key_discrete key j) (opened h j)
            else opened h j)
    pub predict_closes :
        (h : Handler) (key : EventKey) (event : Event) (j : EventKey)
        → closed (c.on_predict h key event).0 j ≡ closed h j
    pub revise_opens :
        (h : Handler) (t : Token) (key : EventKey) (event : Event) (j : EventKey)
        → opened (c.on_revise h t key event).0 j ≡ opened h j
    pub revise_closes :
        (h : Handler) (t : Token) (key : EventKey) (event : Event) (j : EventKey)
        → closed (c.on_revise h t key event).0 j ≡ closed h j
    pub cancel_opens :
        (h : Handler) (t : Token) (key : EventKey) (event : Event) (j : EventKey)
        → opened (c.on_cancel h t key event).0 j ≡ opened h j
    pub cancel_closes :
        (h : Handler) (t : Token) (key : EventKey) (event : Event) (j : EventKey)
        → closed (c.on_cancel h t key event).0 j ≡ more (key_discrete key j) (closed h j)
    pub confirm_opens :
        (h : Handler) (t : Token) (key : EventKey) (event : Event) (j : EventKey)
        → opened (c.on_confirm h t key event).0 j ≡ opened h j
    pub confirm_closes :
        (h : Handler) (t : Token) (key : EventKey) (event : Event) (j : EventKey)
        → closed (c.on_confirm h t key event).0 j ≡ more (key_discrete key j) (closed h j)

  module _ (k : EventKey) where
    abbrev pub Balanced : Handler → List (EventKey × Option Token) → Type 0
    Balanced h active = opened h k ≡ closed h k + held (find key_discrete k active)

    -- No key is twice among the active ones, and the tokens of `k` are accounted for.
    pub record Fair (h : Handler) (active : List (EventKey × Option Token)) : Type 0 where
      pub distinct : Distinct (first_keys active)
      pub balanced : Balanced h active

    module _ (key : EventKey) (h h' : Handler) (active active' : List (EventKey × Option Token))
        (rest : key ≢ k → find key_discrete k active' ≡ find key_discrete k active)
        (b : Balanced h active) where
      pub open_lem :
          opened h' k ≡ more (key_discrete key k) (opened h k)
          → closed h' k ≡ closed h k
          → held (find key_discrete key active) ≡ 0
          → held (find key_discrete key active') ≡ 1
          → Balanced h' active'
      open_lem o c before after = elim (key_discrete key k) [
        | yes e ↦
            let o' = more_same (key_discrete key k) e (opened h k) in
            let before' = subst (λ z. held (find key_discrete z active) ≡ 0) e before in
            let after' = subst (λ z. held (find key_discrete z active') ≡ 1) e after in omega arith
        | no ne ↦
            let o' = more_other (key_discrete key k) ne (opened h k) in
            let same = ap held (rest ne) in omega arith
      ]

      pub close_lem :
          opened h' k ≡ opened h k
          → closed h' k ≡ more (key_discrete key k) (closed h k)
          → held (find key_discrete key active) ≡ 1
          → held (find key_discrete key active') ≡ 0
          → Balanced h' active'
      close_lem o c before after = elim (key_discrete key k) [
        | yes e ↦
            let c' = more_same (key_discrete key k) e (closed h k) in
            let before' = subst (λ z. held (find key_discrete z active) ≡ 1) e before in
            let after' = subst (λ z. held (find key_discrete z active') ≡ 0) e after in omega arith
        | no ne ↦
            let c' = more_other (key_discrete key k) ne (closed h k) in
            let same = ap held (rest ne) in omega arith
      ]

      pub keep_lem :
          opened h' k ≡ opened h k
          → closed h' k ≡ closed h k
          → held (find key_discrete key active') ≡ held (find key_discrete key active)
          → Balanced h' active'
      keep_lem o c alike = elim (key_discrete key k) [
        | yes e ↦
            let alike' =
              subst (λ z. held (find key_discrete z active') ≡ held (find key_discrete z active)) e
                alike in
            omega arith
        | no ne ↦ let same = ap held (rest ne) in omega arith
      ]
