-- ===== src/Promotion/Stages.antt =====
-- The store under the calls that lead to a contract (apps/server/src/codify/service.ts).
use Prim.Native.String.{String}
use army_of_god.Prelude.{◌≡◌, Bool, Option, List, [], string_eq}
use army_of_god.Text.{Text}
use army_of_god.Store.{ok}
use army_of_god.Records.{TaskContract}
use army_of_god.Scope.{CapabilityObservation, Floor}
use army_of_god.Matching.{Scoring}
use army_of_god.Promotion.{
  PromptObservation, TaskCandidate, PromotionConfig, Wording, propose, merge_proposals, Approval,
  prepare_approval, commit_approval, reject_candidate, record_prompt, record_behaviour, backfill,
}

-- The collections of the store that these calls read and write.
pub record Stage (F : Type 0) : Type 0 where
  pub observations : List PromptObservation
  pub behaviour : List CapabilityObservation
  pub candidates : List TaskCandidate
  pub contracts : List (TaskContract F)

abbrev pub empty_stage : {F : Type 0} → Stage F
empty_stage = record { observations = []; behaviour = []; candidates = []; contracts = [] }

module _ {F : Type 0} (s : Scoring F) (config : PromotionConfig F) (lower : Text → Text)
    (locale_lt : Text → Text → Bool) (floor : Floor) (contract_name : Text → String) where
  -- Whatever calls are made in whatever order, from one stage to another. A refresh makes its
  -- proposals, and an approval its contract, from a snapshot of an earlier stage on the way; the
  -- observations that an approval looks up for exemplars are any.
  pub data Later : Stage F → Stage F → Type 0 where
    at_once : {g : Stage F} → Later g g
    prompt_recorded :
        {old g : Stage F} (o : PromptObservation)
        → Later old g
        → Later old (record g { observations = record_prompt o g.observations })
    behaviour_recorded :
        {old g : Stage F} (o : CapabilityObservation)
        → Later old g
        → Later old (record g { behaviour = record_behaviour o g.behaviour })
    backfilled :
        {old g : Stage F} (embedded : String → Option Text)
        → Later old g
        → Later old (record g { observations = backfill embedded g.observations })
    refreshed_with :
        {old seen g : Stage F} (now : String) (words : Wording)
        → Later old seen
        → Later seen g
        → Later old (record g {
          candidates =
              merge_proposals
                (propose s config lower locale_lt floor now words seen.behaviour seen.observations)
                g.candidates;
        })
    approved_with :
        {old seen g : Stage F} (now later : String) (a : Approval F)
        (observations : List PromptObservation) (contract : TaskContract F)
        → Later old seen
        → prepare_approval lower contract_name now a observations seen.candidates ≡ ok contract
        → Later seen g
        → Later old (record g {
          candidates = (commit_approval later a.id contract (g.candidates, g.contracts)).0;
          contracts = (commit_approval later a.id contract (g.candidates, g.contracts)).1;
        })
    rejected_with :
        {old g : Stage F} (now id : String)
        → Later old g
        → Later old (record g { candidates = reject_candidate now id g.candidates })
