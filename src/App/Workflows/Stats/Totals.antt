-- ===== src/App/Workflows/Stats/Totals.antt =====
-- The counts of `Stats`: internal/app/workflows.go.
use tuskbase.Common.{
  ℕ, suc, ◌+◌, ◌≤◌, ◌≡◌, refl, arith, ◌==◌, inl, inr, Bool-cases, if◌then◌else◌, List, [], ◌∷◌,
  length, Float64, lt, add, hundredths, ◌&&◌,
}
use tuskbase.Domain.Parse.{
  decision_superseded, decision_deprecated, conflict_resolved, conflict_dismissed,
  conflict_deferred,
}
use tuskbase.Domain.Types.{Decision, Conflict, is_active}
use tuskbase.App.Workflows.Stats.{
  DecisionStats, ConflictStats, count_conflict, count_conflicts, conflict_stats, count_status,
  count_decision, count_decisions, decision_stats,
}

abbrev states : ConflictStats → ℕ
states s = s.opened + s.resolved + s.dismissed + s.deferred

module _ {F : Type 0} where
  count_conflict-states :
      (c : Conflict F) (s : ConflictStats)
      → ((count_conflict c s).total ≡ suc s.total) × (states (count_conflict c s) ≡ suc (states s))
  unfolding count_conflict
  count_conflict-states c s = elim (Bool-cases (c.status == conflict_resolved)) [
    | inl r ↦ rw r (refl, omega arith)
    | inr r ↦ elim (Bool-cases (c.status == conflict_dismissed)) [
      | inl d ↦ rw (r, d) (refl, omega arith)
      | inr d ↦ elim (Bool-cases (c.status == conflict_deferred)) [
        | inl f ↦ rw (r, d, f) (refl, omega arith)
        | inr f ↦ rw (r, d, f) (refl, omega arith)
      ]
    ]
  ]

  count_conflicts-states :
      (cs : List (Conflict F)) (s : ConflictStats)
      → ((count_conflicts cs s).total ≡ s.total + length cs)
        × (states (count_conflicts cs s) ≡ states s + length cs)
  unfolding count_conflicts
  count_conflicts-states [] s = (omega arith, omega arith)
  count_conflicts-states (c ∷ cs) s =
      let (one, ones) = count_conflict-states c s in
      let (all, alls) = count_conflicts-states cs (count_conflict c s) in
      (omega (arith, one, all), omega (arith, ones, alls))

module _ {F : Type 0} ⦃fl : Float64 F⦄ where
  -- The statistics count every conflict once, and under exactly one of open, resolved, dismissed
  -- and deferred.
  pub conflict_stats-total :
      (cs : List (Conflict F))
      → ((conflict_stats cs).total ≡ length cs)
        × ((conflict_stats cs).opened
              + (conflict_stats cs).resolved
              + (conflict_stats cs).dismissed
              + (conflict_stats cs).deferred
            ≡ (conflict_stats cs).total)
  unfolding conflict_stats
  conflict_stats-total cs =
      let (all, alls) =
        count_conflicts-states cs
          (record { total = 0; opened = 0; resolved = 0; dismissed = 0; deferred = 0 }) in
      (omega (arith, all), omega (arith, all, alls))

  abbrev counted : DecisionStats F → ℕ
  counted s = s.active + s.superseded + s.deprecated

  count_status-counted :
      (d : Decision F) (s : DecisionStats F)
      → ((count_status d s).total ≡ s.total)
        × ((count_status d s).low_completeness ≡ s.low_completeness)
        × (counted (count_status d s) ≤ suc (counted s))
  unfolding count_status
  count_status-counted d s = elim (Bool-cases (d.status == decision_superseded)) [
    | inl p ↦ rw p (refl, refl, omega arith)
    | inr p ↦ elim (Bool-cases (d.status == decision_deprecated)) [
      | inl q ↦ rw (p, q) (refl, refl, omega arith)
      | inr q ↦ elim (Bool-cases (is_active d)) [
        | inl a ↦ rw (p, q, a) (refl, refl, omega arith)
        | inr a ↦ rw (p, q, a) (refl, refl, omega arith)
      ]
    ]
  ]

  count_decision-counted :
      (d : Decision F) (s : DecisionStats F)
      → ((count_decision d s).total ≡ suc s.total)
        × ((count_decision d s).low_completeness ≤ suc s.low_completeness)
        × (counted (count_decision d s) ≤ suc (counted s))
  unfolding count_decision
  count_decision-counted d s =
      let low = lt (hundredths 0) d.completeness_score && lt d.completeness_score (hundredths 55) in
      let next : DecisionStats F = record s {
        total = suc s.total;
        average_completeness = add s.average_completeness d.completeness_score;
        low_completeness = (if low then 1 else 0) + s.low_completeness;
      } in
      let (all, lows, some_) = count_status-counted d next in (all, ground arith, some_)

  count_decisions-counted :
      (ds : List (Decision F)) (s : DecisionStats F)
      → ((count_decisions ds s).total ≡ s.total + length ds)
        × ((count_decisions ds s).low_completeness ≤ s.low_completeness + length ds)
        × (counted (count_decisions ds s) ≤ counted s + length ds)
  unfolding count_decisions
  count_decisions-counted [] s = (omega arith, omega arith, omega arith)
  count_decisions-counted (d ∷ ds) s =
      let (one, low, status) = count_decision-counted d s in
      let (all, lows, statuses) = count_decisions-counted ds (count_decision d s) in
      (omega (arith, one, all), omega (arith, low, lows), omega (arith, status, statuses))

  -- The statistics count every decision once in the total, and at most once as active, superseded
  -- or deprecated; no more than all are of low completeness.
  pub decision_stats-total :
      (ds : List (Decision F))
      → ((decision_stats ds).total ≡ length ds)
        × ((decision_stats ds).active
              + (decision_stats ds).superseded
              + (decision_stats ds).deprecated
            ≤ (decision_stats ds).total)
        × ((decision_stats ds).low_completeness ≤ (decision_stats ds).total)
  unfolding decision_stats
  decision_stats-total ds =
      let (all, lows, statuses) = count_decisions-counted ds (record {
        total = 0;
        active = 0;
        superseded = 0;
        deprecated = 0;
        low_completeness = 0;
        average_completeness = hundredths 0;
      }) in
      (omega (arith, all), omega (arith, all, statuses), omega (arith, all, lows))
