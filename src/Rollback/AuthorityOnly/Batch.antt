-- ===== src/Rollback/AuthorityOnly/Batch.antt =====
-- What `resolve_authority_only_events` makes of the authority's events.
use mathlib.Core.List.{append-nil, append_assoc}
use mycore.Base.{
  ◌≡◌, refl, sym, ap, ◌∙◌, inl, inr, Option, none, some, List, [], ◌∷◌, ◌++◌, Bool, true, false,
  if◌then◌else◌, arith, Bool-cases, Option-cases,
}
use mycore.Rollback.Types.{
  RollbackModel, AuthorityEvent, CommitKind, EventBatch, EventChange, TimelineErrorCode, Variant,
  value, error, conflicting_authority_event,
}
use mycore.Rollback.Types.AuthorityEventDisposition.{confirmed, rejected}
use mycore.Rollback.Keyed.{
  In, find, first_keys, dec_in, emplace-new, emplace-old, find_of_in, in_of_find,
}
use mycore.Rollback.Journal.{has_shape, same_outcome, validate_from, validate_authority_events}
use mycore.Rollback.Resolve.Authority.{authority_keys}
use mycore.Rollback.AuthorityOnly.{announce, receive, resolve_from, resolve_authority_only_events}

module _ (m : RollbackModel) where
  open m use {Event, EventKey, key_discrete}

  -- The first event under each key that has not been seen, in order.
  abbrev pub firsts : List EventKey → List (AuthorityEvent m) → List (AuthorityEvent m)
  firsts seen [] = []
  firsts seen (e ∷ es) = elim (dec_in key_discrete e.key seen) [
    | yes _ ↦ firsts seen es
    | no _ ↦ e ∷ firsts (e.key ∷ seen) es
  ]

  -- The announcements of the confirmed events.
  abbrev pub announced : List (AuthorityEvent m) → List (EventChange m)
  announced [] = []
  announced (e ∷ es) = elim e.disposition [
    | confirmed ↦ announce m e ∷ announced es
    | rejected ↦ announced es
  ]

  -- The batch, to which the events have been added.
  abbrev extended : EventBatch m → List (AuthorityEvent m) → EventBatch m
  extended b es = record b {
    changes = b.changes ++ announced es;
    retired_keys = b.retired_keys ++ authority_keys m es;
  }

  -- The batch, where validation finds no fault.
  abbrev pub judged :
      Option TimelineErrorCode → EventBatch m → Variant TimelineErrorCode (EventBatch m)
  judged none b = value b
  judged (some code) b = error code

  receive-extended :
      (b : EventBatch m) (e : AuthorityEvent m) (es : List (AuthorityEvent m))
      → extended (receive m b e) es ≡ extended b (e ∷ es)
  unfolding receive
  receive-extended b e es = ground (
    arith,
    append_assoc b.changes (announce m e ∷ []) (announced es),
    append_assoc b.retired_keys (e.key ∷ []) (authority_keys m es),
  )

  module _ (seen : List EventKey) (e : AuthorityEvent m) (es : List (AuthorityEvent m)) where
    pub firsts-new : ¬ In e.key seen → firsts seen (e ∷ es) ≡ e ∷ firsts (e.key ∷ seen) es
    firsts-new new = ground arith

    pub firsts-again : In e.key seen → firsts seen (e ∷ es) ≡ firsts seen es
    firsts-again old = ground arith

  module _ (entries : List (EventKey × AuthorityEvent m)) (e : AuthorityEvent m)
      (es : List (AuthorityEvent m)) where
    resolve-new :
        (b : EventBatch m)
        → has_shape m e ≡ true
        → find key_discrete e.key entries ≡ none
        → resolve_from m entries (e ∷ es) b
          ≡ resolve_from m ((e.key, e) ∷ entries) es (receive m b e)
    unfolding resolve_from
    resolve-new b good new =
        rw (good, emplace-new key_discrete e.key e entries new, resolve_from)
          (ap (λ z. resolve_from m z.0 es (receive m b e))
            (emplace-new key_discrete e.key e entries new))

    validate-new :
        has_shape m e ≡ true
        → find key_discrete e.key entries ≡ none
        → validate_from m entries (e ∷ es) ≡ validate_from m ((e.key, e) ∷ entries) es
    unfolding validate_from
    validate-new good new =
        rw (good, emplace-new key_discrete e.key e entries new, validate_from)
          (ap (λ z. validate_from m z.0 es) (emplace-new key_discrete e.key e entries new))

    resolve-again :
        (b : EventBatch m) (previous : AuthorityEvent m)
        → has_shape m e ≡ true
        → find key_discrete e.key entries ≡ some previous
        → resolve_from m entries (e ∷ es) b ≡ (
            if same_outcome m previous e
            then resolve_from m entries es b
            else error conflicting_authority_event)
    unfolding resolve_from
    resolve-again b previous good old =
        rw (good, emplace-old key_discrete e.key e previous entries old, old, resolve_from)
          (ap
            (λ z.
              if same_outcome m previous e
              then resolve_from m z.0 es b
              else error conflicting_authority_event)
            (emplace-old key_discrete e.key e previous entries old))

    validate-again :
        (previous : AuthorityEvent m)
        → has_shape m e ≡ true
        → find key_discrete e.key entries ≡ some previous
        → validate_from m entries (e ∷ es) ≡ (
            if same_outcome m previous e
            then validate_from m entries es
            else some conflicting_authority_event)
    unfolding validate_from
    validate-again previous good old =
        rw (good, emplace-old key_discrete e.key e previous entries old, old, validate_from)
          (ap
            (λ z.
              if same_outcome m previous e
              then validate_from m z.0 es
              else some conflicting_authority_event)
            (emplace-old key_discrete e.key e previous entries old))

    resolve-bad :
        (b : EventBatch m)
        → has_shape m e ≡ false
        → resolve_from m entries (e ∷ es) b ≡ error conflicting_authority_event
    unfolding resolve_from
    resolve-bad b bad = rw (bad, resolve_from) refl

    validate-bad :
        has_shape m e ≡ false → validate_from m entries (e ∷ es) ≡ some conflicting_authority_event
    unfolding validate_from
    validate-bad bad = rw (bad, validate_from) refl

  -- A repeated key is judged by the two outcomes.
  judged-again :
      (same : Bool) (v : Option TimelineErrorCode) (b : EventBatch m)
      (r : Variant TimelineErrorCode (EventBatch m))
      → r ≡ judged v b
      → (if same then r else error conflicting_authority_event)
        ≡ judged (if same then v else some conflicting_authority_event) b
  judged-again true v b r h = h
  judged-again false v b r h = refl

  resolve-nil :
      (entries : List (EventKey × AuthorityEvent m)) (b : EventBatch m)
      → resolve_from m entries [] b ≡ judged (validate_from m entries []) (extended b [])
  unfolding resolve_from validate_from
  resolve-nil entries b = rw (append-nil b.changes, append-nil b.retired_keys) refl

  resolve-judged :
      (entries : List (EventKey × AuthorityEvent m)) (events : List (AuthorityEvent m))
      (b : EventBatch m)
      → resolve_from m entries events b
        ≡ judged (validate_from m entries events) (extended b (firsts (first_keys entries) events))
  resolve-judged entries [] b = resolve-nil entries b
  resolve-judged entries (e ∷ es) b =
      let all = extended b (firsts (first_keys entries) (e ∷ es)) in
      elim (Bool-cases (has_shape m e)) [
        | inr bad ↦
            resolve-bad entries e es b bad
            ∙ ap (λ v. judged v all) (sym (validate-bad entries e es bad))
        | inl good ↦ elim (Option-cases (find key_discrete e.key entries)) [
          | inl new ↦
              let fresh : ¬ In e.key (first_keys entries) = λ i.
                (let (v, found) = find_of_in key_discrete e.key entries i in cc (new, found)) in
              resolve-new entries e es b good new
              ∙ resolve-judged ((e.key, e) ∷ entries) es (receive m b e)
              ∙ ap (judged (validate_from m ((e.key, e) ∷ entries) es)) (
                  receive-extended b e (firsts (e.key ∷ first_keys entries) es)
                  ∙ ap (extended b) (sym (firsts-new (first_keys entries) e es fresh)))
              ∙ ap (λ v. judged v all) (sym (validate-new entries e es good new))
          | inr (previous, old) ↦
              let seen = (in_of_find key_discrete e.key previous entries old).0 in
              resolve-again entries e es b previous good old
              ∙ judged-again (same_outcome m previous e) (validate_from m entries es)
                  (extended b (firsts (first_keys entries) es)) (resolve_from m entries es b)
                  (resolve-judged entries es b)
              ∙ ap (λ v. judged v (extended b (firsts (first_keys entries) es)))
                  (sym (validate-again entries e es previous good old))
              ∙ ap (λ l. judged (validate_from m entries (e ∷ es)) (extended b l))
                  (sym (firsts-again (first_keys entries) e es seen))
        ]
      ]

  -- Authority events on their own give a batch exactly when validation finds no fault with them,
  -- and otherwise the code of the fault. The batch takes the first event under each key, in order:
  -- it announces the confirmed ones and retires the keys of all.
  pub resolve_authority_only-judged :
      (events : List (AuthorityEvent m))
      → resolve_authority_only_events m events
        ≡ judged (validate_authority_events m events) (record {
          kind = CommitKind.authority_only;
          changes = announced (firsts [] events);
          retired_keys = authority_keys m (firsts [] events);
          externally_retired_keys = [];
        })
  unfolding resolve_authority_only_events validate_authority_events
  resolve_authority_only-judged events = resolve-judged [] events _
