-- ===== src/Rollback/AuthorityOnly/Receipts.antt =====
-- What a consumer may rely on in a batch of authority events.
use mathlib.Core.Path.{subst}
use mycore.Base.{◌≡◌, ◌↔◌, refl, sym, ◌∙◌, inl, inr, none, List, [], ◌∷◌, Option-cases, arith}
use mycore.Rollback.Types.{RollbackModel, AuthorityEvent, EventBatch, value}
use mycore.Rollback.Types.AuthorityEventDisposition.{confirmed, rejected}
use mycore.Rollback.Keyed.{In, Distinct, dec_in}
use mycore.Rollback.Journal.{validate_authority_events}
use mycore.Rollback.Journal.Shape.{Disposition-cases, confirmed_event, validate-shape}
use mycore.Rollback.Resolve.Authority.{authority_keys}
use mycore.Rollback.Resolve.Effect.{change_keys, AllShaped}
use mycore.Rollback.AuthorityOnly.{announce, resolve_authority_only_events}
use mycore.Rollback.AuthorityOnly.Batch.{
  firsts, announced, judged, firsts-new, firsts-again, resolve_authority_only-judged,
}

module _ (m : RollbackModel) where
  open m use {EventKey, key_discrete}

  firsts-keys :
      (k : EventKey) (seen : List EventKey) (es : List (AuthorityEvent m))
      → In k (authority_keys m (firsts m seen es)) ↔ (In k (authority_keys m es) × ¬ In k seen)
  firsts-keys k seen [] = (λ i. absurd i, λ (i, _). i)
  firsts-keys k seen (e ∷ es) = elim (dec_in key_discrete e.key seen) [
    | yes old ↦
        let (to, from) = firsts-keys k seen es in
        rw (firsts-again m seen e es old) (
          λ i. (let (j, n) = to i in (inr j, n)),
          λ (i, n). elim i [
            | inl same ↦ absurd (n (subst (λ z. In z seen) (sym same) old))
            | inr j ↦ from (j, n)
          ],
        )
    | no new ↦
        let (to, from) = firsts-keys k (e.key ∷ seen) es in
        rw (firsts-new m seen e es new) (
          λ i. elim i [
            | inl same ↦ (inl same, λ s. new (subst (λ z. In z seen) same s))
            | inr j ↦ (let (j', n) = to j in (inr j', λ s. n (inr s)))
          ],
          λ (i, n). elim i [
            | inl same ↦ inl same
            | inr j ↦ elim (key_discrete k e.key) [
              | yes same ↦ inl same
              | no other ↦ inr (from (j, λ s. elim s [ inl same ↦ other same | inr s' ↦ n s' ]))
            ]
          ],
        )
  ]

  Distinct-firsts :
      (seen : List EventKey) (es : List (AuthorityEvent m))
      → Distinct (authority_keys m (firsts m seen es))
  Distinct-firsts seen [] = tt
  Distinct-firsts seen (e ∷ es) = elim (dec_in key_discrete e.key seen) [
    | yes old ↦ rw (firsts-again m seen e es old) (Distinct-firsts seen es)
    | no new ↦ rw (firsts-new m seen e es new) (
      λ i. (let (_, n) = (firsts-keys e.key (e.key ∷ seen) es).0 i in n (inl refl)),
      Distinct-firsts (e.key ∷ seen) es,
    )
  ]

  in-firsts :
      (a : AuthorityEvent m) (seen : List EventKey) (es : List (AuthorityEvent m))
      → In a (firsts m seen es)
      → In a es
  in-firsts a seen [] i = i
  in-firsts a seen (e ∷ es) i = elim (dec_in key_discrete e.key seen) [
    | yes old ↦ inr (in-firsts a seen es (subst (In a) (firsts-again m seen e es old) i))
    | no new ↦ elim (subst (In a) (firsts-new m seen e es new) i) [
      | inl same ↦ inl same
      | inr j ↦ inr (in-firsts a (e.key ∷ seen) es j)
    ]
  ]

  announced-confirmed :
      (e : AuthorityEvent m) (es : List (AuthorityEvent m))
      → e.disposition ≡ confirmed
      → announced m (e ∷ es) ≡ announce m e ∷ announced m es
  announced-confirmed e es c = ground arith

  announced-rejected :
      (e : AuthorityEvent m) (es : List (AuthorityEvent m))
      → e.disposition ≡ rejected
      → announced m (e ∷ es) ≡ announced m es
  announced-rejected e es r = ground arith

  announced-keys :
      (k : EventKey) (es : List (AuthorityEvent m))
      → In k (change_keys m (announced m es))
      → In k (authority_keys m es)
  announced-keys k [] i = i
  announced-keys k (e ∷ es) i = elim (Disposition-cases e.disposition) [
    | inl c ↦ elim (subst (λ l. In k (change_keys m l)) (announced-confirmed e es c) i) [
      | inl same ↦ inl same
      | inr j ↦ inr (announced-keys k es j)
    ]
    | inr r ↦
        inr
          (announced-keys k es (subst (λ l. In k (change_keys m l)) (announced-rejected e es r) i))
  ]

  Distinct-announced :
      (es : List (AuthorityEvent m))
      → Distinct (authority_keys m es)
      → Distinct (change_keys m (announced m es))
  Distinct-announced [] d = tt
  Distinct-announced (e ∷ es) (new, d) = elim (Disposition-cases e.disposition) [
    | inl c ↦
        rw (announced-confirmed e es c)
          (λ i. new (announced-keys e.key es i), Distinct-announced es d)
    | inr r ↦ rw (announced-rejected e es r) (Distinct-announced es d)
  ]

  announced-AllShaped :
      (es all : List (AuthorityEvent m))
      → validate_authority_events m all ≡ none
      → ((a : AuthorityEvent m) → In a es → In a all)
      → AllShaped m (announced m es)
  announced-AllShaped [] all valid inside = tt
  announced-AllShaped (e ∷ es) all valid inside =
      let rest = announced-AllShaped es all valid (λ a i. inside a (inr i)) in
      elim (Disposition-cases e.disposition) [
        | inl c ↦
            rw (announced-confirmed e es c)
              (confirmed_event m e (validate-shape m all e valid (inside e (inl refl))) c, rest)
        | inr r ↦ rw (announced-rejected e es r) rest
      ]

  judged-value :
      (events : List (AuthorityEvent m)) (c b : EventBatch m)
      → judged m (validate_authority_events m events) c ≡ value b
      → (validate_authority_events m events ≡ none) × (c ≡ b)
  judged-value events c b h = elim (Option-cases (validate_authority_events m events)) [
    | inl valid ↦ (valid, cc (rw valid at h))
    | inr (code, fault) ↦ absurd (cc (rw fault at h))
  ]

  -- A batch of authority events announces no key twice, and every change has a previous and a
  -- current event just where its transition asks for one; the batch retires every key that the
  -- authority has answered, and no other, once each.
  pub resolve_authority_only_events_lem :
      (events : List (AuthorityEvent m)) (b : EventBatch m)
      → resolve_authority_only_events m events ≡ value b
      → Distinct (change_keys m b.changes)
        × AllShaped m b.changes
        × Distinct b.retired_keys
        × ((k : EventKey) → In k b.retired_keys ↔ In k (authority_keys m events))
  resolve_authority_only_events_lem events b h =
      let (valid, same) =
        judged-value events _ b (sym (resolve_authority_only-judged m events) ∙ h) in
      let taken = firsts m [] events in
      rw (← same) (
        Distinct-announced taken (Distinct-firsts [] events),
        announced-AllShaped taken events valid (λ a i. in-firsts a [] events i),
        Distinct-firsts [] events,
        λ k. (λ i. ((firsts-keys k [] events).0 i).0, λ i. (firsts-keys k [] events).1 (i, λ n. n)),
      )
