-- ===== src/Rollback/Timeline/Accepted.antt =====
-- What `validate_authority` has checked of an authority frame that it accepts.
use mycore.Base.{◌≡◌, ◌⊎◌, none, Bool, true, false, arith}
use mycore.Rollback.Types.{RollbackModel, AuthorityFrame, is_valid}
use mycore.Rollback.Journal.{validate_authority_events}
use mycore.Rollback.Timeline.{
  Timeline, AuthorityTickRule, SameTickCheckpointRule, validate_authority, valid_optional_sequence,
  is_stale, regresses, acknowledges_unsent,
}

module _ (m : RollbackModel) where
  -- The facts behind an accepted frame.
  pub record Accepted (t : Timeline m) (authority : AuthorityFrame m)
      (tick_rule : AuthorityTickRule) (checkpoint_rule : SameTickCheckpointRule)
      (may_advance : Bool) : Type 0 where
    pub epoch : is_valid authority.scope_epoch ≡ true
    pub sequence : valid_optional_sequence authority.acknowledged_through ≡ true
    pub fresh : is_stale tick_rule authority.tick t.authoritative_tick ≡ false
    pub progress : regresses t.acknowledged_through authority.acknowledged_through ≡ false
    pub sent :
        (may_advance ≡ true)
        ⊎ (acknowledges_unsent authority.acknowledged_through t.last_submitted_sequence ≡ false)
    pub events : validate_authority_events m authority.events ≡ none

  pub validate_authority-Accepted :
      (t : Timeline m) (authority : AuthorityFrame m) (tick_rule : AuthorityTickRule)
      (checkpoint_rule : SameTickCheckpointRule) (may_advance : Bool)
      → validate_authority m t authority tick_rule checkpoint_rule may_advance ≡ none
      → Accepted t authority tick_rule checkpoint_rule may_advance
  unfolding validate_authority
  validate_authority-Accepted t authority tick_rule checkpoint_rule may_advance h = record {
    epoch = ground arith;
    sequence = ground arith;
    fresh = ground arith;
    progress = ground arith;
    sent = ground arith;
    events = ground arith;
  }
