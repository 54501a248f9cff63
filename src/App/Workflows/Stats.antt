-- ===== src/App/Workflows/Stats.antt =====
-- `Stats` of internal/app/workflows.go.
pub mod Totals
use tuskbase.Common.{
  ℕ, suc, ◌+◌, String, ℤ, pos, negsuc, ◌==◌, ◌&&◌, ltb, if◌then◌else◌, List, [], ◌∷◌, trim_space,
  Exec, pure, lift, call, ◌>>=◌, ◌>>◌, Float64, lt, add, sub, mul, div, hundredths, of_nat,
}
use tuskbase.Domain.Parse.{
  DecisionStatus, ConflictStatus, decision_superseded, decision_deprecated, conflict_resolved,
  conflict_dismissed, conflict_deferred,
}
use tuskbase.Domain.Types.{Time, Decision, Conflict, Assessment, is_active}
use tuskbase.App.Auth.{Context, require_read}
use tuskbase.App.Service.{Service, stats_scan_limit, clamp, round2}
use tuskbase.App.Lookup.{required}

pub record StatsInput : Type 0 where
  pub workspace_id : String

pub record DecisionStats (F : Type 0) : Type 0 where
  pub total : ℕ
  pub active : ℕ
  pub superseded : ℕ
  pub deprecated : ℕ
  pub low_completeness : ℕ
  pub average_completeness : F

pub record ConflictStats : Type 0 where
  pub total : ℕ
  pub opened : ℕ
  pub resolved : ℕ
  pub dismissed : ℕ
  pub deferred : ℕ

pub record AssessmentStats (F : Type 0) : Type 0 where
  pub total : ℕ
  pub average_score : F

pub record StatsOutput (F : Type 0) : Type 0 where
  pub workspace_id : String
  pub decision_stats : DecisionStats F
  pub conflict_stats : ConflictStats
  pub assessment_stats : AssessmentStats F
  pub trail_health_score : F
  pub generated_at : Time

unfoldable pub count_conflict : {F : Type 0} → Conflict F → ConflictStats → ConflictStats
count_conflict c stats =
    let next = record stats { total = suc stats.total } in
    if c.status == conflict_resolved
    then record next { resolved = suc stats.resolved }
    else if c.status == conflict_dismissed
    then record next { dismissed = suc stats.dismissed }
    else if c.status == conflict_deferred
    then record next { deferred = suc stats.deferred }
    else record next { opened = suc stats.opened }

unfoldable pub count_conflicts : {F : Type 0} → List (Conflict F) → ConflictStats → ConflictStats
unfolding count_conflict
count_conflicts [] stats = stats
count_conflicts (c ∷ cs) stats = count_conflicts cs (count_conflict c stats)

-- The variables `out.AssessmentStats.Total`, `scoreTotal` and `scored`.
pub record Scores : Type 0 where
  pub total : ℕ
  pub score_total : ℕ
  pub scored : ℕ

unfoldable pub count_score : ℤ → Scores → Scores
count_score (pos score) scores =
    let next = record scores { total = suc scores.total } in
    if ltb 0 score
    then record next { score_total = scores.score_total + score; scored = suc scores.scored }
    else next
count_score (negsuc n) scores = record scores { total = suc scores.total }

unfoldable pub count_scores : List Assessment → Scores → Scores
unfolding count_score
count_scores [] scores = scores
count_scores (a ∷ rest) scores = count_scores rest (count_score a.score scores)

module _ {F : Type 0} ⦃fl : Float64 F⦄ where
  unfoldable pub count_status : Decision F → DecisionStats F → DecisionStats F
  count_status d stats =
      if d.status == decision_superseded
      then record stats { superseded = suc stats.superseded }
      else if d.status == decision_deprecated
      then record stats { deprecated = suc stats.deprecated }
      else if is_active d
      then record stats { active = suc stats.active }
      else stats

  -- Until the loop ends, `average_completeness` holds the variable `completenessTotal`.
  unfoldable pub count_decision : Decision F → DecisionStats F → DecisionStats F
  unfolding count_status
  count_decision d stats =
      let score = d.completeness_score in
      let low = lt (hundredths 0) score && lt score (hundredths 55) in
      count_status d (record stats {
        total = suc stats.total;
        average_completeness = add stats.average_completeness score;
        low_completeness = (if low then 1 else 0) + stats.low_completeness;
      })

  unfoldable pub count_decisions : List (Decision F) → DecisionStats F → DecisionStats F
  unfolding count_decision
  count_decisions [] stats = stats
  count_decisions (d ∷ ds) stats = count_decisions ds (count_decision d stats)

  -- The zero value that each loop starts from.
  unfoldable pub decision_stats : List (Decision F) → DecisionStats F
  unfolding count_decisions
  decision_stats ds =
      let stats = count_decisions ds (record {
        total = 0;
        active = 0;
        superseded = 0;
        deprecated = 0;
        low_completeness = 0;
        average_completeness = hundredths 0;
      }) in
      record stats {
        average_completeness =
            if ltb 0 stats.total
            then round2 (div stats.average_completeness (of_nat stats.total))
            else hundredths 0;
      }

  unfoldable pub conflict_stats : List (Conflict F) → ConflictStats
  unfolding count_conflicts
  conflict_stats cs =
      count_conflicts cs
        (record { total = 0; opened = 0; resolved = 0; dismissed = 0; deferred = 0 })

  unfoldable pub assessment_stats : List Assessment → AssessmentStats F
  unfolding count_scores
  assessment_stats assessments =
      let scores = count_scores assessments (record { total = 0; score_total = 0; scored = 0 }) in
      record {
        total = scores.total;
        average_score =
            if ltb 0 scores.scored
            then round2 (div (of_nat scores.score_total) (of_nat scores.scored))
            else hundredths 0;
      }

  unfoldable pub trail_health : DecisionStats F → ConflictStats → AssessmentStats F → F
  trail_health ds cs ys =
      let decision_score = if ltb 0 ds.total then ds.average_completeness else hundredths 100 in
      let conflict_score =
        if ltb 0 cs.total
        then sub (hundredths 100) (div (of_nat cs.opened) (of_nat cs.total))
        else hundredths 100 in
      let assessment_score = if ltb 0 ys.total then hundredths 100 else hundredths 50 in
      round2 (
        clamp (
          add (add (mul decision_score (hundredths 50)) (mul conflict_score (hundredths 35)))
            (mul assessment_score (hundredths 15))))

module _ {F S : Type 0} ⦃fl : Float64 F⦄ (svc : Service F S) where
  unfoldable pub stats : Context → StatsInput → Exec S (StatsOutput F)
  unfolding decision_stats conflict_stats assessment_stats trail_health
  stats ctx input = do
    lift (require_read ctx)
    let id = trim_space input.workspace_id
    lift (required id "workspace_id is required")
    svc.store.get_workspace id
    decisions ← svc.store.query_decisions (record {
      workspace_id = id;
      text = "";
      type = "";
      status = "";
      relationship_to = "";
      relationship_type = "";
      min_confidence = hundredths 0;
      limit = stats_scan_limit;
    })
    conflicts ←
        svc.store.list_conflicts
          (record { workspace_id = id; status = ""; limit = stats_scan_limit })
    assessments ←
        svc.store.list_assessments
          (record { workspace_id = id; decision_id = ""; limit = stats_scan_limit })
    now ← call svc.clock
    let ds = decision_stats decisions
    let cs = conflict_stats conflicts
    let ys = assessment_stats assessments
    pure (record {
      workspace_id = id;
      decision_stats = ds;
      conflict_stats = cs;
      assessment_stats = ys;
      trail_health_score = trail_health ds cs ys;
      generated_at = now;
    })
