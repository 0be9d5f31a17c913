-- ===== src/Rollback/Tests/Advancing.antt =====
-- A counter that is one command ahead of the authority, and an advance of it.
use mycore.Base.{◌≡◌, refl, inl, inr, none, some, [], ◌∷◌, ◌++◌, arith}
use mycore.Rollback.Types.{FrameRecord, Commit, is_valid}
use mycore.Rollback.Keyed.{Distinct}
use mycore.Rollback.Journal.Order.{keys, journal}
use mycore.Rollback.Timeline.{Timeline, committed, no_statistics, acknowledges_unsent}
use mycore.Rollback.Timeline.Operations.{advance, first_predictions}
use mycore.Rollback.Timeline.Operations.Advance.{next_frame, advanced}
use mycore.Rollback.Invariant.{Running}
use mycore.Rollback.Invariant.Advancing.{advance_commits}
use mycore.Time.{tick_plus}
use mycore.Rollback.Tests.{counter}

abbrev first_frame : FrameRecord counter
first_frame = record {
  tick = 11;
  command_sequence = 1;
  stimulus = 5;
  checkpoint = 5;
  digest = 5;
  events = 500 ∷ [];
  scope_epoch = 1;
}

abbrev running : Timeline counter
running = record {
  capacity = 3;
  state = some 5;
  base_checkpoint = some 0;
  scope = some 0;
  history = first_frame ∷ [];
  authoritative_tick = 10;
  predicted_tick = 11;
  scope_epoch = 1;
  acknowledged_through = none;
  last_submitted_sequence = some 1;
  statistics = no_statistics;
}

abbrev in_order : Running counter running
unfolding tick_plus acknowledges_unsent
in_order = record {
  state = 5;
  base = 0;
  scope = 0;
  holds = record { state = refl; base = refl; scope = refl };
  bounded = omega arith;
  commands = (refl, refl);
  start = 0;
  restores = refl;
  traced = (
    0,
    5,
    inl refl,
    record { steps = refl; tick = refl; checkpoint = refl; digests = refl; epoch_of = refl },
    (refl, refl),
  );
  unique = (λ i. i, tt);
}

new_keys : Distinct (keys counter (journal counter running.history ++ 705 ∷ []))
new_keys = (λ i. elim i [ inl e ↦ omega arith | inr n ↦ n ], (λ i. i, tt))

advance_commits_example :
    (t' : Timeline counter) × (c : Commit counter) × (advance counter 2 7 running
      ≡ (t', committed c))
    × (t' ≡ advanced counter running 2 12 (next_frame counter running 2 7 0 12 (705 ∷ [])))
    × (c.event_changes ≡ first_predictions counter (705 ∷ []))
unfolding is_valid tick_plus acknowledges_unsent
advance_commits_example =
    advance_commits counter running in_order 2 7 5 5 12 (705 ∷ []) (inl (first_frame, refl, refl))
      refl refl refl (omega arith) refl new_keys
