-- ===== src/Rollback/Tests/Resolving.antt =====
-- A resolution that revises one prediction and confirms another.
use native.Mathlib.Decide.{ℕ_discrete}
use mycore.Base.{refl, inl, inr, [], ◌∷◌, arith}
use mycore.Rollback.Keyed.{find}
use mycore.Rollback.Journal.{EventIndex, has_shape}
use mycore.Rollback.Resolve.{resolve_event_changes}
use mycore.Rollback.Resolve.Rounds.{Ends, Conflict, Setting}
use mycore.Rollback.Resolve.Complete.{Explains, resolve-Ends}
use mycore.Rollback.Tests.{counter, second_authority}

abbrev old_events : EventIndex counter
old_events = record { by_key = (5, 500) ∷ (7, 705) ∷ []; journal_order = 5 ∷ 7 ∷ [] }

abbrev new_events : EventIndex counter
new_events = record { by_key = (7, 706) ∷ []; journal_order = 7 ∷ [] }

abbrev setting :
    Setting counter (500 ∷ 705 ∷ []) (706 ∷ []) second_authority.events old_events new_events
unfolding find has_shape ℕ_discrete
setting = record {
  old_index = record {
    order = refl;
    finds = λ k. refl;
    distinct = (λ i. elim i [ inl e ↦ omega arith | inr n ↦ n ], (λ i. i, tt));
  };
  new_index = record { order = refl; finds = λ k. refl; distinct = (λ i. i, tt) };
  shapes = λ a i. elim i [ inl e ↦ rw e refl | inr n ↦ absurd n ];
}

resolve-Ends_example :
    Ends
      (Explains counter (500 ∷ 705 ∷ []) (706 ∷ []) second_authority.events)
      (Conflict counter (706 ∷ []) second_authority.events)
      (resolve_event_changes counter old_events new_events second_authority.events)
resolve-Ends_example =
    resolve-Ends counter (500 ∷ 705 ∷ []) (706 ∷ []) second_authority.events old_events new_events
      setting
