-- ===== src/Examples/Promotions.antt =====
-- Two runs of two people become a candidate, and the candidate a contract.
use Prim.Native.String.{String}
use army_of_god.Prelude.{ℕ, ◌≡◌, refl, Bool, true, none, List, [], ◌∷◌, length, dedupe}
use army_of_god.Text.{Text}
use army_of_god.Records.{TaskContract}
use army_of_god.Scope.{frequency_floor}
use army_of_god.Matching.{match_against}
use army_of_god.Matching.Clusters.{seed, cluster_by_match}
use army_of_god.Promotion.{
  PromptObservation, PromotionConfig, Wording, Approval, propose, merge_proposals, contract_for,
  proposal_of, commit_approval, TaskCandidate,
}
use army_of_god.Promotion.Stages.{Stage, empty_stage}
use army_of_god.Examples.Routes.{counts}

abbrev same : Text → Text
same t = t

abbrev before : Text → Text → Bool
before a b = true

abbrev named : Text → String
named t = "contract"

abbrev config : PromotionConfig ℕ
config = record {
  thresholds = record { fingerprint = 1; containment = 1; semantic = 1 };
  linkage = seed;
  min_occurrences = 2;
  min_distinct_users = 2;
}

abbrev asked : String → String → PromptObservation
asked run who = record {
  id = run;
  run_id = run;
  agent_id = "agent";
  user_id = who;
  redacted_text = 1 ∷ [];
  canonical_form = 1 ∷ [];
  fingerprint = 1 ∷ [];
  embedding = none;
  redaction_hits = [];
  promotion_eligible = true;
  created_at = "t";
}

abbrev observations : List PromptObservation
observations = asked "r1" "u" ∷ asked "r2" "v" ∷ []

abbrev words : Wording
words = record { id = λ ms. "c"; cluster_key = λ t. "k"; name = λ t. t; prompt = λ ms. [] }

abbrev approval : Approval ℕ
approval = record {
  id = "c";
  contract_id = "v1";
  agent_id = "a1";
  user_id = "w";
  name = 110 ∷ [];
  brief = [];
  scope = none;
  budget = none;
  match_threshold = 3;
  containment_threshold = 3;
  semantic_threshold = 3;
}

abbrev candidate : TaskCandidate
candidate = proposal_of counts config same before frequency_floor "t1" words [] observations

abbrev with_prompts : Stage ℕ
with_prompts = record (empty_stage {F = ℕ}) { observations = observations }

abbrev proposed : Stage ℕ
proposed = record with_prompts {
  candidates =
      merge_proposals (propose counts config same before frequency_floor "t1" words [] observations)
        [];
}

two_people_propose : length proposed.candidates ≡ 1
unfolding merge_proposals propose cluster_by_match match_against dedupe
two_people_propose = refl

-- One person asks as often, and there is no candidate.
one_person_does_not :
    propose counts config same before frequency_floor "t1" words []
      (asked "r1" "u" ∷ asked "r2" "u" ∷ [])
    ≡ []
unfolding propose cluster_by_match match_against dedupe
one_person_does_not = refl

abbrev contract : TaskContract ℕ
contract = contract_for same named "t2" approval candidate observations

abbrev promoted : Stage ℕ
promoted = record proposed {
  candidates = (commit_approval "t3" "c" contract (proposed.candidates, [])).0;
  contracts = (commit_approval "t3" "c" contract (proposed.candidates, [])).1;
}
