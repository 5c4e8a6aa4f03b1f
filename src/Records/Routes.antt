-- ===== src/Records/Routes.antt =====
-- apps/server/src/codify/types.ts and service.ts: what routing decides, and the binding of a run.
use Prim.Native.String.{String}
use army_of_god.Prelude.{ℕ, Option, List}
use army_of_god.Records.{
  CapabilityScope, BrokerMode, TaskContract, RouteOutcome, MatchChannel, MatchScores, NearMatch,
}
use army_of_god.Records.Runs.{RunCodifySummary}

-- The sentence of the decision, with the names and the numbers that it shows.
pub data RouteReason (F : Type 0) : Type 0 where
  ad_hoc_bound unmatched_bound : String → RouteReason F
  ad_hoc no_active_contract nothing_above : RouteReason F
  tied : F → String → String → RouteReason F
  partly_recognised : List (NearMatch F) → RouteReason F
  closest : String → F → MatchChannel → RouteReason F
  matched_contract : String → ℕ → MatchChannel → F → RouteReason F

pub record RouteDecision (F : Type 0) : Type 0 where
  pub id : String
  pub run_id : String
  pub agent_id : String
  pub decision : RouteOutcome
  pub contract_id : Option String
  pub contract_version : Option ℕ
  pub score : Option F
  pub match_channel : Option MatchChannel
  pub match_scores : Option (MatchScores F)
  pub near_matches : List (NearMatch F)
  pub split_session_id : Option String
  pub broker_mode : BrokerMode
  pub reason : RouteReason F
  pub created_at : String

pub record ScopeBinding : Type 0 where
  pub run_id : String
  pub mode : BrokerMode
  pub scope : CapabilityScope
  pub contract_id : String
  pub contract_version : ℕ

pub record RoutingResult (F : Type 0) : Type 0 where
  pub decision : RouteDecision F
  pub binding : Option ScopeBinding
  pub summary : RunCodifySummary F
  pub delegate_to_agent_id : Option String
  pub contract : Option (TaskContract F)
