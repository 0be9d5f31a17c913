-- ===== src/Rollback/Tests/Reconciling.antt =====
-- The reconciliation of the counter that is two commands ahead commits.
use native.Mathlib.Decide.{ℕ_discrete}
use mycore.Base.{ℕ, ◌≡◌, refl, inl, inr, none, some, [], ◌∷◌, false, length, arith}
use mycore.Time.{tick_plus}
use mycore.Rollback.Types.{Commit, CommitKind, is_valid}
use mycore.Rollback.Keyed.{In, find, emplace}
use mycore.Rollback.Journal.{
  has_shape, event_equal, same_outcome, validate_from, validate_authority_events,
}
use mycore.Rollback.Journal.Order.{keys, journal}
use mycore.Rollback.Resolve.Authority.{authority_keys}
use mycore.Rollback.Timeline.{
  Timeline, committed, strictly_newer, must_match, retain_stimulus, validate_authority,
  valid_optional_sequence, is_stale, regresses, acknowledges_unsent,
}
use mycore.Rollback.Timeline.Operations.{reconcile_with_scope}
use mycore.Rollback.Timeline.Operations.Frames.{Replayed, unacknowledged}
use mycore.Rollback.Invariant.{Running}
use mycore.Rollback.Invariant.Reconciling.{reconcile_commits}
use mycore.Rollback.Tests.{counter, second_authority}
use mycore.Rollback.Tests.Replaying.{frame, ahead}

abbrev in_order : Running counter ahead
unfolding tick_plus acknowledges_unsent
in_order = record {
  state = 12;
  base = 0;
  scope = 0;
  holds = record { state = refl; base = refl; scope = refl };
  bounded = omega arith;
  commands = (refl, (refl, refl));
  start = 0;
  restores = refl;
  traced = (
    0,
    5,
    inl refl,
    record { steps = refl; tick = refl; checkpoint = refl; digests = refl; epoch_of = refl },
    (
      5,
      12,
      inl refl,
      record { steps = refl; tick = refl; checkpoint = refl; digests = refl; epoch_of = refl },
      (refl, refl),
    ),
  );
  unique = (λ i. elim i [ inl e ↦ omega arith | inr n ↦ n ], (λ i. i, tt));
}

accepted : validate_authority counter ahead second_authority strictly_newer must_match false ≡ none
unfolding validate_authority valid_optional_sequence is_valid is_stale regresses acknowledges_unsent
    validate_authority_events validate_from has_shape same_outcome event_equal emplace find
    ℕ_discrete
accepted = refl

second_again :
    Replayed counter
      (retain_stimulus counter)
      0
      1
      6
      11
      (unacknowledged counter (some 1) ahead.history)
      (frame 12 2 7 13 706 ∷ [])
      13
      12
unfolding tick_plus retain_stimulus
second_again = (
  13,
  refl,
  refl,
  record { steps = refl; tick = refl; checkpoint = refl; digests = refl; epoch_of = refl },
  (refl, refl),
)

unanswered :
    (k : ℕ)
    → In k (keys counter (journal counter (frame 12 2 7 13 706 ∷ [])))
    → ¬ In k (authority_keys counter second_authority.events)
unanswered k i j = elim i [ inl seven ↦ elim j [ inl five ↦ omega arith | inr n ↦ n ] | inr n ↦ n ]

reconcile_commits_example :
    (t' : Timeline counter) × (c : Commit counter) × (reconcile_with_scope counter second_authority
        0 CommitKind.reconcile strictly_newer
        (retain_stimulus counter)
        ahead
      ≡ (t', committed c))
    × (t'.state ≡ some 13)
    × (t'.history ≡ frame 12 2 7 13 706 ∷ [])
    × (t'.predicted_tick ≡ 12)
    × (t'.authoritative_tick ≡ 11)
    × (c.replayed_frame_count ≡ length (frame 12 2 7 13 706 ∷ []))
reconcile_commits_example =
    reconcile_commits counter second_authority 0 CommitKind.reconcile strictly_newer
      (retain_stimulus counter) ahead in_order 6 (frame 12 2 7 13 706 ∷ []) 13 12 accepted refl
      second_again (λ i. i, tt) unanswered
