-- ===== src/App/Relationship/Spans.antt =====
-- Assertion spans and their comparison: internal/app/relationship.go.
use Prim.Native.Nat.{max}
use tuskbase.Common.{
  text_before, ℕ, String, Bool, true, false, not, ◌&&◌, ◌||◌, ◌==◌, leb, eqb, if◌then◌else◌, List,
  [], ◌∷◌, map, length, take, any, select, count_if, sort_stable, mem_text, trim_space, to_lower,
  contains, join, split_at, ◌⧺◌, Float64, same, lt, div, of_nat, hundredths,
}
use tuskbase.Domain.Types.{Claim, Decision}
use tuskbase.App.Tokens.{important_subject_tokens, object_tokens, scope_tokens}

-- -1, 0 and 1.
pub data Stance : Type 0 where
  against neutral for : Stance

abbrev taken : Stance → Bool
taken neutral = false
taken _ = true

abbrev same_stance : Stance → Stance → Bool
same_stance against against = true
same_stance neutral neutral = true
same_stance for for = true
same_stance _ _ = false

pub record AssertionSpan : Type 0 where
  pub text : String
  pub stance : Stance
  pub subject : List String
  pub scope : List String
  pub object : List String

abbrev negative_cues : List String
negative_cues =
    " avoid " ∷ " do not " ∷ " don't " ∷ " never " ∷ " without " ∷ " remove " ∷ " reject "
    ∷ " forbid " ∷ " disable " ∷ " deprecate " ∷ " no longer " ∷ []

abbrev positive_cues : List String
positive_cues =
    " use " ∷ " adopt " ∷ " keep " ∷ " require " ∷ " choose " ∷ " allow " ∷ " enable " ∷ " store "
    ∷ " prefer " ∷ []

unfoldable pub stance_for_text : String → Stance
stance_for_text text =
    let lower = " " ⧺ to_lower text ⧺ " " in
    if any (contains lower) negative_cues
    then against
    else if any (contains lower) positive_cues
    then for
    else neutral

span : String → AssertionSpan
span text = record {
  text = text;
  stance = stance_for_text text;
  subject = important_subject_tokens text;
  scope = scope_tokens text;
  object = object_tokens text;
}

unfoldable pub split_assertions : String → List String
split_assertions text = split_at "\n;•." text

spans_from : List String → List AssertionSpan
spans_from [] = []
spans_from (part ∷ parts) =
    let text = trim_space part in
    let rest = spans_from parts in if text == "" then rest else span text ∷ rest

or_whole : String → List AssertionSpan → List AssertionSpan
or_whole text [] = span text ∷ []
or_whole text (s ∷ ss) = s ∷ ss

unfoldable pub assertion_spans : String → List AssertionSpan
unfolding span split_assertions spans_from or_whole stance_for_text
assertion_spans text = or_whole text (spans_from (split_assertions text))

unfoldable pub claims_text : List Claim → String
claims_text claims = join (map (λ (c : Claim). c.text) claims) " "

unfoldable pub decision_assertion_text : {F : Type 0} → Decision F → String
unfolding claims_text
decision_assertion_text d =
    join (d.title ∷ d.outcome ∷ d.rationale ∷ claims_text d.claims ∷ []) ". "

unfoldable pub shared_count : List String → List String → ℕ
shared_count a b = count_if (λ t. mem_text t b) a

-- The shared tokens in alphabetical order, eight at most.
unfoldable pub shared_subject : List String → List String → List String
unfolding text_before
shared_subject a b = take 8 (sort_stable text_before (select (λ t. mem_text t b) a))

unfoldable pub subject_phrase : List String → String → String
subject_phrase [] fallback = fallback
subject_phrase (t ∷ ts) fallback = join (t ∷ ts) ", "

unfoldable pub supersede_cue : String → Bool
supersede_cue text = any (contains text) (
    "replace" ∷ "supersede" ∷ "retire" ∷ "migrate away" ∷ "instead of" ∷ "no longer use"
    ∷ "move from" ∷ [])

unfoldable pub reconcile_cue : String → Bool
reconcile_cue text =
    any (contains text)
      ("reconcile" ∷ "resolve conflict" ∷ "settle" ∷ "harmonize" ∷ "combine prior" ∷ [])

pub record RelationMatch (F : Type 0) : Type 0 where
  pub score : F
  pub subject : List String
  pub opposing_stance : Bool
  pub same_stance : Bool
  pub scope_diverges : Bool

abbrev is_empty : List String → Bool
is_empty set = eqb (length set) 0

module _ {F : Type 0} ⦃fl : Float64 F⦄ where
  unfoldable pub set_similarity : List String → List String → F
  unfolding shared_count
  set_similarity a b =
      if is_empty a || is_empty b
      then hundredths 0
      else div (of_nat (shared_count a b)) (of_nat (max (length a) (length b)))

  unfoldable pub token_overlap : String → String → F
  unfolding set_similarity
  token_overlap a b = set_similarity (important_subject_tokens a) (important_subject_tokens b)

  abbrev pub no_match : RelationMatch F
  no_match = record {
    score = hundredths 0;
    subject = [];
    opposing_stance = false;
    same_stance = false;
    scope_diverges = false;
  }

  unfoldable pub compare_assertions : AssertionSpan → AssertionSpan → RelationMatch F
  unfolding set_similarity shared_subject
  compare_assertions a b =
      let score : F = set_similarity a.subject b.subject in
      let shared = shared_subject a.subject b.subject in
      let both = taken a.stance && taken b.stance in
      let opposing = both && not (same_stance a.stance b.stance) in
      let object_diverges =
        opposing
        && not (is_empty a.object)
        && not (is_empty b.object)
        && same (set_similarity a.object b.object) (hundredths 0) in
      let scope_diverges =
        leb (length shared) 1
        && not (is_empty a.scope)
        && not (is_empty b.scope)
        && lt (set_similarity a.scope b.scope) (hundredths 25) in
      if same score (hundredths 0) then no_match else record {
        score = score;
        subject = shared;
        opposing_stance = opposing;
        same_stance = both && same_stance a.stance b.stance;
        scope_diverges = scope_diverges || object_diverges;
      }
