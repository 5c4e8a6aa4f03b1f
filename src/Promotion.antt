-- ===== src/Promotion.antt =====
-- apps/server/src/codify/service.ts: from observed prompts to candidates, and from a candidate to a
-- contract. The name and the brief that a model or a regular expression makes of the prompts are
-- arguments, as are new ids, times, the cluster's key and `localeCompare`; `contract_name` reads a
-- text as a string.
pub mod Founded
pub mod Stages
pub mod Grown
pub mod Standing
pub mod Promoted
use Prim.Native.String.{String}
use army_of_god.Prelude.{
  ℕ, Bool, true, false, ◌&&◌, ◌||◌, not, Option, none, some, List, [], ◌∷◌, ◌++◌, map, length, take,
  filter, find, elem, any, update_first, dedupe, ltb, ◌==◌, if◌then◌else◌, string_eq, sort_by,
}
use army_of_god.Text.{Text, text_eq, trim}
use army_of_god.Store.{Result, ok, err, ◌>>=◌, ◌>>◌, require}
use army_of_god.Records.{CapabilityScope, TaskBudget, TaskContract, active}
use army_of_god.Budget.{BudgetInput, normalize_budget}
use army_of_god.Scope.{CapabilityObservation, Floor, derive_scope, normalize_scope, check_narrowing}
use army_of_god.Matching.{Scoring, MatchCandidate, MatchThresholds, truthy_text}
use army_of_god.Matching.Clusters.{ClusterLinkage, cluster_by_match}

pub record PromptObservation : Type 0 where
  pub id : String
  pub run_id : String
  pub agent_id : String
  pub user_id : String
  pub redacted_text : Text
  pub canonical_form : Text
  pub fingerprint : Text
  pub embedding : Option Text
  pub redaction_hits : List String
  pub promotion_eligible : Bool
  pub created_at : String

pub data CandidateStatus : Type 0 where
  pending approved rejected : CandidateStatus

abbrev pub is_pending : CandidateStatus → Bool
is_pending pending = true
is_pending _ = false

pub record TaskCandidate : Type 0 where
  pub id : String
  pub cluster_key : String
  pub exemplar_run_ids : List String
  pub occurrences : ℕ
  pub distinct_users : ℕ
  pub status : CandidateStatus
  pub proposed_name : Text
  pub proposed_prompt : Text
  pub proposed_scope : CapabilityScope
  pub created_at : String
  pub updated_at : String

-- The settings that mark_candidate what becomes a candidate.
pub record PromotionConfig (F : Type 0) : Type 0 where
  pub thresholds : MatchThresholds F
  pub linkage : ClusterLinkage
  pub min_occurrences : ℕ
  pub min_distinct_users : ℕ

abbrev pub is_eligible : PromptObservation → Bool
is_eligible o = o.promotion_eligible && not (o.fingerprint == [])

abbrev as_candidate : PromptObservation → MatchCandidate
as_candidate o = record {
  fingerprint = o.fingerprint;
  canonical_form = o.canonical_form;
  embedding = truthy_text o.embedding;
}

-- The mutation of `recordPromptObservation`.
abbrev pub record_prompt : PromptObservation → List PromptObservation → List PromptObservation
record_prompt o observations = observations ++ o ∷ []

-- What the mutation of `recordRunEvidence` does to the observations.
abbrev pub record_behaviour :
    CapabilityObservation → List CapabilityObservation → List CapabilityObservation
record_behaviour o observed = observed ++ o ∷ []

abbrev pub embed_one : (String → Option Text) → PromptObservation → PromptObservation
embed_one embedded o = elim (truthy_text (embedded o.id)) [
  | none ↦ o
  | some packed ↦ record o { embedding = some packed }
]

-- The mutation of `backfillEmbeddings`, with what was embedded by id.
abbrev pub backfill : (String → Option Text) → List PromptObservation → List PromptObservation
backfill embedded observations = map (embed_one embedded) observations

-- `capabilityByRun.get(runId)`: the last observation of the run.
abbrev capability_of : List CapabilityObservation → String → Option CapabilityObservation
capability_of [] run_id = none
capability_of (o ∷ os) run_id =
    let later = capability_of os run_id in
    elim later [ some c ↦ some c | none ↦ if o.run_id == run_id then some o else none ]

abbrev capabilities_of :
    List CapabilityObservation → List PromptObservation → List CapabilityObservation
capabilities_of os [] = []
capabilities_of os (m ∷ members) =
    let rest = capabilities_of os members in
    elim (capability_of os m.run_id) [ none ↦ rest | some c ↦ c ∷ rest ]

abbrev pub users_of : List PromptObservation → ℕ
users_of members = length (dedupe (map (λ m. m.user_id) members))

-- What a proposal's cluster is called, and what it is told to do.
pub record Wording : Type 0 where
  pub id : List PromptObservation → String
  pub cluster_key : Text → String
  pub name : Text → Text
  pub prompt : List PromptObservation → Text

abbrev key_of : Wording → List PromptObservation → String
key_of words [] = words.cluster_key []
key_of words (m ∷ ms) = words.cluster_key m.canonical_form

abbrev first_name : Wording → List PromptObservation → Text
first_name words [] = words.name []
first_name words (m ∷ ms) = words.name m.redacted_text

module _ {F : Type 0} (s : Scoring F) (config : PromotionConfig F) (lower : Text → Text)
    (locale_lt : Text → Text → Bool) (floor : Floor) where
  abbrev pub proposal_of :
      String → Wording → List CapabilityObservation → List PromptObservation → TaskCandidate
  proposal_of now words os members = record {
    id = words.id members;
    cluster_key = key_of words members;
    exemplar_run_ids = map (λ m. m.run_id) members;
    occurrences = length members;
    distinct_users = users_of members;
    status = pending;
    proposed_name = first_name words members;
    proposed_prompt = words.prompt members;
    proposed_scope = derive_scope lower locale_lt (capabilities_of os members) floor;
    created_at = now;
    updated_at = now;
  }

  abbrev too_few : List PromptObservation → Bool
  too_few members =
      ltb (length members) config.min_occurrences
      || ltb (users_of members) config.min_distinct_users

  pub proposals_of :
      String
      → Wording
      → List CapabilityObservation
      → List (List PromptObservation)
      → List TaskCandidate
  proposals_of now words os [] = []
  proposals_of now words os (members ∷ groups) =
      let rest = proposals_of now words os groups in
      if too_few members then rest else proposal_of now words os members ∷ rest

  -- The proposals of `refreshCandidates`, from the snapshot.
  unfoldable pub propose :
      String → Wording → List CapabilityObservation → List PromptObservation → List TaskCandidate
  unfolding proposals_of
  propose now words os observations = proposals_of now words os (
      cluster_by_match s as_candidate config.thresholds config.linkage
        (filter is_eligible observations))

abbrev refreshed : TaskCandidate → TaskCandidate → TaskCandidate
refreshed proposal existing = record existing {
  exemplar_run_ids = proposal.exemplar_run_ids;
  occurrences = proposal.occurrences;
  distinct_users = proposal.distinct_users;
  proposed_scope = proposal.proposed_scope;
  proposed_prompt = proposal.proposed_prompt;
  updated_at = proposal.updated_at;
}

abbrev pub refresh_one : TaskCandidate → TaskCandidate → TaskCandidate
refresh_one proposal existing =
    if is_pending existing.status then refreshed proposal existing else existing

abbrev pub add_proposal : TaskCandidate → List TaskCandidate → List TaskCandidate
add_proposal proposal candidates =
    if any (λ c. c.cluster_key == proposal.cluster_key) candidates
    then update_first (λ c. c.cluster_key == proposal.cluster_key) (refresh_one proposal) candidates
    else candidates ++ proposal ∷ []

-- The mutation of `refreshCandidates`.
unfoldable pub merge_proposals : List TaskCandidate → List TaskCandidate → List TaskCandidate
merge_proposals [] candidates = candidates
merge_proposals (p ∷ ps) candidates = merge_proposals ps (add_proposal p candidates)

-- `listCandidates`
unfoldable pub list_candidates : (String → String → Bool) → List TaskCandidate → List TaskCandidate
list_candidates not_after candidates =
    sort_by (λ a b. not_after b.updated_at a.updated_at) candidates

pub data PromotionError : Type 0 where
  candidate_not_found already_decided widened : PromotionError

-- `getCandidate`
abbrev pub get_candidate : String → List TaskCandidate → Result PromotionError TaskCandidate
get_candidate id candidates = elim (find (λ c. c.id == id) candidates) [
  | none ↦ err candidate_not_found
  | some c ↦ ok c
]

-- `dedupeExemplars`: the first observation of each fingerprint.
abbrev first_exemplars : List Text → List PromptObservation → List PromptObservation
first_exemplars seen [] = []
first_exemplars seen (o ∷ os) =
    let skipped = first_exemplars seen os in
    let kept = o ∷ first_exemplars (o.fingerprint ∷ seen) os in
    if o.fingerprint == [] || elem o.fingerprint seen then skipped else kept

abbrev dedupe_exemplars : List PromptObservation → List PromptObservation
dedupe_exemplars os = first_exemplars [] os

-- What the operator decides; the name and the brief are those that the drafting led to.
pub record Approval (F : Type 0) : Type 0 where
  pub id : String
  pub contract_id : String
  pub agent_id : String
  pub user_id : String
  pub name : Text
  pub brief : Text
  pub scope : Option CapabilityScope
  pub budget : Option BudgetInput
  pub match_threshold : F
  pub containment_threshold : F
  pub semantic_threshold : F

module _ {F : Type 0} (lower : Text → Text) (contract_name : Text → String) where
  abbrev pub requested_for : Approval F → TaskCandidate → CapabilityScope
  requested_for a c =
      normalize_scope lower (elim a.scope [ none ↦ c.proposed_scope | some scope ↦ scope ])

  abbrev pub contract_for :
      String → Approval F → TaskCandidate → List PromptObservation → TaskContract F
  contract_for now a c observations =
      let exemplars =
        dedupe_exemplars (filter (λ o. elem o.run_id c.exemplar_run_ids) observations) in
      record {
        id = a.contract_id;
        version = 1;
        name = contract_name (take 80 (trim a.name));
        agent_id = a.agent_id;
        match_fingerprints = map (λ o. o.fingerprint) exemplars;
        match_canonical_forms = some (map (λ o. o.canonical_form) exemplars);
        match_embeddings = some (map (λ o. truthy_text o.embedding) exemplars);
        match_threshold = a.match_threshold;
        containment_threshold = some a.containment_threshold;
        semantic_threshold = some a.semantic_threshold;
        system_prompt = a.brief;
        refinements = [];
        scope = requested_for a c;
        budget = normalize_budget a.budget;
        status = active;
        review_note = none;
        created_by = a.user_id;
        created_at = now;
        supersedes = none;
      }

  -- `approveCandidate` up to its mutation, on the snapshot.
  unfoldable pub prepare_approval :
      String
      → Approval F
      → List PromptObservation
      → List TaskCandidate
      → Result PromotionError (TaskContract F)
  prepare_approval now a observations candidates = do
    c ← get_candidate a.id candidates
    require (is_pending c.status) already_decided
    require
        (check_narrowing lower (normalize_scope lower c.proposed_scope) (requested_for a c)).good
        widened
    ok (contract_for now a c observations)

abbrev mark_candidate : String → String → CandidateStatus → List TaskCandidate → List TaskCandidate
mark_candidate now id status candidates =
    update_first (λ c. c.id == id) (λ c. record c { status = status; updated_at = now }) candidates

-- The mutation of `approveCandidate`, on the candidates and the contracts.
unfoldable pub commit_approval :
    {F : Type 0}
    → String
    → String
    → TaskContract F
    → List TaskCandidate × List (TaskContract F)
    → List TaskCandidate × List (TaskContract F)
commit_approval now id contract (candidates, contracts) =
    (mark_candidate now id approved candidates, contracts ++ contract ∷ [])

-- The mutation of `rejectCandidate`.
unfoldable pub reject_candidate : String → String → List TaskCandidate → List TaskCandidate
reject_candidate now id candidates = mark_candidate now id rejected candidates
