-- ===== src/App/Remember/Drafted.antt =====
-- The decision that `Remember` of internal/app/service.go builds from its input.
use tuskbase.Common.{
  String, ◌≡◌, ◌≢◌, refl, ap, none, ok, arith, eq_iff, eqb, if◌then◌else◌, List, [], ◌∷◌, ◌++◌, map,
  All, trim_space, lift-eq-ok, pure-eq-ok, Float64, same, hundredths,
}
use mathlib.Core.Path.{subst}
use tuskbase.Domain.Parse.{parse_decision_status}
use tuskbase.Domain.Types.{Time, Alternative, Claim, Evidence, Decision}
use tuskbase.App.Auth.{Context, require_write, apply_principal_actor}
use tuskbase.App.Service.{Service}
use tuskbase.App.Remember.Draft.{
  RememberInput, draft, complete_draft, stamp_all, fill_id, stamp_alternative, stamp_claim,
  stamp_evidence,
}
use tuskbase.App.Remember.Links.{Owned, target, added, normalize_remember_relationships-Owned}
use tuskbase.App.Remember.{build_decision}

-- Identifiers that were given are kept.
abbrev pub Filled : List String → List String → Type 0
Filled [] [] = Unit
Filled [] (i ∷ is) = ⊥
Filled (g ∷ gs) [] = ⊥
Filled (g ∷ gs) (i ∷ is) = (g ≢ "" → i ≡ g) × Filled gs is

-- The rows below a decision, but for their own identifiers, as the input gives them.
abbrev pub trimmed_alternative : String → Alternative → Alternative
trimmed_alternative decision_id a = record {
  id = "";
  decision_id = decision_id;
  title = trim_space a.title;
  outcome = trim_space a.outcome;
  reason = trim_space a.reason;
}

abbrev pub trimmed_claim : String → Claim → Claim
trimmed_claim decision_id c = record {
  id = "";
  decision_id = decision_id;
  text = trim_space c.text;
}

abbrev pub trimmed_evidence : String → Evidence → Evidence
trimmed_evidence decision_id e = record {
  id = "";
  decision_id = decision_id;
  kind = trim_space e.kind;
  uri = trim_space e.uri;
  title = trim_space e.title;
  snippet = trim_space e.snippet;
  metadata = e.metadata;
}

abbrev pub nameless_alternative : Alternative → Alternative
nameless_alternative a = record a { id = "" }

abbrev pub nameless_claim : Claim → Claim
nameless_claim c = record c { id = "" }

abbrev pub nameless_evidence : Evidence → Evidence
nameless_evidence e = record e { id = "" }

module _ {A B S : Type 0} (stamp : A → S → A × S) (f g : A → B)
    (h : (x : A) (s : S) → f (stamp x s).0 ≡ g x) where
  stamp_all-same : (xs : List A) (s : S) → map f (stamp_all stamp xs s).0 ≡ map g xs
  unfolding stamp_all
  stamp_all-same [] s = refl
  stamp_all-same (x ∷ xs) s = rw (h x s) (ap (λ l. g x ∷ l) (stamp_all-same xs (stamp x s).1))

module _ {A S : Type 0} (stamp : A → S → A × S) (id : A → String)
    (h : (x : A) (s : S) → id x ≢ "" → id (stamp x s).0 ≡ id x) where
  stamp_all-Filled : (xs : List A) (s : S) → Filled (map id xs) (map id (stamp_all stamp xs s).0)
  unfolding stamp_all
  stamp_all-Filled [] s = tt
  stamp_all-Filled (x ∷ xs) s = (h x s, stamp_all-Filled xs (stamp x s).1)

fill_id-given :
    {S : Type 0} (ids : S → String × S) (id : String) (s : S) → id ≢ "" → (fill_id ids id s).0 ≡ id
unfolding fill_id
fill_id-given ids id s n = ground (arith, eq_iff id "")

module _ {F S : Type 0} ⦃fl : Float64 F⦄ (svc : Service F S) where
  -- The decision that was built: its texts are those of the input without the space around them, its
  -- status is the parsed one, it acts for the principal, and it is active.
  pub record Built (ctx : Context) (input : RememberInput F) (now : Time) (d : Decision F)
      : Type 0 where
    pub writer : require_write ctx ≡ ok tt
    pub actor : apply_principal_actor ctx input.actor ≡ ok d.actor
    pub status : parse_decision_status input.status ≡ ok d.status
    pub workspace_id : d.workspace_id ≡ trim_space input.workspace_id
    pub type : d.type ≡ trim_space input.type
    pub title : d.title ≡ trim_space input.title
    pub outcome : d.outcome ≡ trim_space input.outcome
    pub rationale : d.rationale ≡ trim_space input.rationale
    pub precedent_ref : d.precedent_ref ≡ trim_space input.precedent_ref
    pub supersedes_id : d.supersedes_id ≡ trim_space input.supersedes_id
    pub confidence :
        d.confidence
        ≡ (if same input.confidence (hundredths 0) then hundredths 70 else input.confidence)
    pub metadata : d.metadata ≡ input.metadata
    pub valid_from : d.valid_from ≡ (if eqb input.valid_from 0 then now else input.valid_from)
    pub transaction_time : d.transaction_time ≡ now
    pub created_at : d.created_at ≡ now
    pub updated_at : d.updated_at ≡ now
    pub active : d.valid_to ≡ none
    pub alternatives :
        map nameless_alternative d.alternatives ≡ map (trimmed_alternative d.id) input.alternatives
    pub claims : map nameless_claim d.claims ≡ map (trimmed_claim d.id) input.claims
    pub evidence : map nameless_evidence d.evidence ≡ map (trimmed_evidence d.id) input.evidence
    pub alternative_ids :
        Filled
          (map (λ (a : Alternative). a.id) input.alternatives)
          (map (λ (a : Alternative). a.id) d.alternatives)
    pub claim_ids :
        Filled (map (λ (c : Claim). c.id) input.claims) (map (λ (c : Claim). c.id) d.claims)
    pub evidence_ids :
        Filled
          (map (λ (e : Evidence). e.id) input.evidence)
          (map (λ (e : Evidence). e.id) d.evidence)
    pub owned : All (Owned d) d.relationships
    pub targets :
        map target d.relationships ≡ map target input.relationships ++ added d input.relationships

  pub build_decision-Built :
      (ctx : Context) (input : RememberInput F) (s : S) (now : Time) (d : Decision F)
      (warnings : List String) (t : S)
      → build_decision svc ctx input s ≡ (ok (now, d, warnings), t)
      → Built ctx input now d
  unfolding build_decision draft complete_draft stamp_alternative stamp_claim stamp_evidence
  build_decision-Built ctx input s now d warnings t h =
      let (_, writer, h1) = lift-eq-ok (require_write ctx) _ s (now, d, warnings) t h in
      let (actor, acts, h2) =
        lift-eq-ok (apply_principal_actor ctx input.actor) _ s (now, d, warnings) t h1 in
      let (status, parsed, h3) =
        lift-eq-ok (parse_decision_status input.status) _ s (now, d, warnings) t h2 in
      let time = (svc.clock s).0 in
      let s1 = (svc.clock s).1 in
      let id = (svc.ids s1).0 in
      let s2 = (svc.ids s1).1 in
      let built =
        complete_draft svc.ids (draft id actor status time input) input.relationships s2 in
      let (same_out, _) = pure-eq-ok (time, built.0.0, built.0.1) (now, d, warnings) built.1 t h3 in
      let alternatives = stamp_all (stamp_alternative svc.ids id) input.alternatives s2 in
      let claims = stamp_all (stamp_claim svc.ids id) input.claims alternatives.1 in
      let evidence = stamp_all (stamp_evidence svc.ids id) input.evidence claims.1 in
      let d1 : Decision F = record (draft id actor status time input) {
        alternatives = alternatives.0;
        claims = claims.0;
        evidence = evidence.0;
      } in
      let (owned, targets, _) =
        normalize_remember_relationships-Owned svc.ids d1 input.relationships evidence.1 in
      let first : Built ctx input time built.0.0 = record {
        writer = writer;
        actor = acts;
        status = parsed;
        workspace_id = refl;
        type = refl;
        title = refl;
        outcome = refl;
        rationale = refl;
        precedent_ref = refl;
        supersedes_id = refl;
        confidence = refl;
        metadata = refl;
        valid_from = refl;
        transaction_time = refl;
        created_at = refl;
        updated_at = refl;
        active = refl;
        alternatives =
            stamp_all-same (stamp_alternative svc.ids id) nameless_alternative
              (trimmed_alternative id) (λ x u. refl) input.alternatives s2;
        claims =
            stamp_all-same (stamp_claim svc.ids id) nameless_claim (trimmed_claim id) (λ x u. refl)
              input.claims alternatives.1;
        evidence =
            stamp_all-same (stamp_evidence svc.ids id) nameless_evidence (trimmed_evidence id)
              (λ x u. refl) input.evidence claims.1;
        alternative_ids =
            stamp_all-Filled (stamp_alternative svc.ids id) (λ a. a.id)
              (λ x u. fill_id-given svc.ids x.id u) input.alternatives s2;
        claim_ids =
            stamp_all-Filled (stamp_claim svc.ids id) (λ c. c.id)
              (λ x u. fill_id-given svc.ids x.id u) input.claims alternatives.1;
        evidence_ids =
            stamp_all-Filled (stamp_evidence svc.ids id) (λ e. e.id)
              (λ x u. fill_id-given svc.ids x.id u) input.evidence claims.1;
        owned = owned;
        targets = targets;
      } in
      subst (λ (p : Time × Decision F × List String). Built ctx input p.0 p.1) same_out first
