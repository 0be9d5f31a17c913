-- ===== src/Rollback/Router/Count.antt =====
-- The counters of a dispatch report: `++report.statistics.suppressed_count` and so on,
-- `record_failure`, and the sums per handler.
use mycore.Base.{ℕ, zero, suc, List, [], ◌∷◌, ◌++◌}
use mycore.Base.Word.{add_u64}
use mycore.Rollback.Router.{
  ConsequenceOperation, ConsequenceDispatchStatistics, ConsequenceHandlerDispatchStatistics,
  ConsequenceDispatchReport, add_statistics,
}

abbrev pub suppressed : ConsequenceDispatchReport → ConsequenceDispatchReport
suppressed report = record report {
  statistics = record report.statistics {
    suppressed_count = add_u64 report.statistics.suppressed_count 1;
  };
}

abbrev pub delivered : ConsequenceDispatchReport → ConsequenceDispatchReport
delivered report = record report {
  statistics = record report.statistics {
    delivered_count = add_u64 report.statistics.delivered_count 1;
  };
}

abbrev pub revised : ConsequenceDispatchReport → ConsequenceDispatchReport
revised report = record report {
  statistics = record report.statistics {
    revised_count = add_u64 report.statistics.revised_count 1;
  };
}

abbrev pub canceled : ConsequenceDispatchReport → ConsequenceDispatchReport
canceled report = record report {
  statistics = record report.statistics {
    canceled_count = add_u64 report.statistics.canceled_count 1;
  };
}

abbrev pub confirmed : ConsequenceDispatchReport → ConsequenceDispatchReport
confirmed report = record report {
  statistics = record report.statistics {
    confirmed_count = add_u64 report.statistics.confirmed_count 1;
  };
}

abbrev pub record_failure :
    ℕ → ConsequenceOperation → ConsequenceDispatchReport → ConsequenceDispatchReport
record_failure index operation report = record report {
  statistics = record report.statistics {
    failure_count = add_u64 report.statistics.failure_count 1;
  };
  failures = report.failures ++ record { handler_index = index; operation = operation } ∷ [];
}

-- `add_statistics(report.handlers[Index].statistics, delta)`.
abbrev pub add_at :
    ℕ
    → ConsequenceDispatchStatistics
    → List ConsequenceHandlerDispatchStatistics
    → List ConsequenceHandlerDispatchStatistics
add_at n delta [] = []
add_at zero delta (h ∷ hs) = record h { statistics = add_statistics h.statistics delta } ∷ hs
add_at (suc n) delta (h ∷ hs) = h ∷ add_at n delta hs
