-- ===== src/Routing.antt =====
-- `route`, `bindToPrincipal` and `summarise` of apps/server/src/codify/service.ts: which contract
-- governs a turn, and under which scope it runs.
pub mod Bound
pub mod Kept
pub mod Best
use Prim.Native.String.{String}
use army_of_god.Prelude.{
  ℕ, zero, suc, Bool, true, false, not, ◌&&◌, Option, none, some, List, [], ◌∷◌, ◌++◌, length,
  filter, find, nat_beq, ◌==◌, string_eq, if◌then◌else◌,
}
use army_of_god.Text.{Text}
use army_of_god.Records.{
  CapabilityScope, BrokerMode, observe, enforce, TaskContract, is_active, truthy_id, RouteOutcome,
  routed, principal_bound, unmatched, user_override, MatchChannel, MatchScores, NearMatch,
}
use army_of_god.Records.Runs.{RunCodifySummary}
use army_of_god.Records.Routes.{
  RouteReason, ad_hoc_bound, unmatched_bound, ad_hoc, no_active_contract, nothing_above, tied,
  partly_recognised, closest, matched_contract, RouteDecision, ScopeBinding, RoutingResult,
}
use army_of_god.Matching.{
  MatchCandidate, MatchResult, Scoring, truthy_text, contract_exemplars, contract_thresholds,
  best_match,
}

pub record RoutingConfig (F : Type 0) : Type 0 where
  pub containment_threshold : F
  pub semantic_threshold : F
  pub tie_margin : F

pub record RouteInput : Type 0 where
  pub id : String
  pub run_id : String
  pub agent_id : String
  pub created_at : String
  pub prompt : MatchCandidate
  pub force_ad_hoc : Bool

-- A contract with its match.
pub record Ranked (F : Type 0) : Type 0 where
  pub contract : TaskContract F
  pub match : MatchResult F

pub record Ranking (F : Type 0) : Type 0 where
  pub best : Option (Ranked F)
  pub runner_up : Option (Ranked F)
  pub nearest : Option (Ranked F)
  pub near : List (NearMatch F)

abbrev truthy_version : Option ℕ → Option ℕ
truthy_version none = none
truthy_version (some zero) = none
truthy_version (some (suc n)) = some (suc n)

module _ {F : Type 0} where
  abbrev name_of : Option (TaskContract F) → Option String
  name_of none = none
  name_of (some c) = some c.name

  abbrev scope_of : Option (TaskContract F) → Option CapabilityScope
  scope_of none = none
  scope_of (some c) = some c.scope

  pub summarise : RouteDecision F → Option (TaskContract F) → RunCodifySummary F
  summarise d contract = record {
    decision = d.decision;
    broker_mode = d.broker_mode;
    contract_id = truthy_id d.contract_id;
    contract_version = truthy_version d.contract_version;
    contract_name = name_of contract;
    score = d.score;
    match_channel = d.match_channel;
    scope = scope_of contract;
    denials = 0;
    denied_targets = none;
    domains_reached = [];
    delegated_from_agent_id = none;
    delegated_from_agent_name = none;
    delegated_to_agent_id = none;
    delegated_to_agent_name = none;
  }

  abbrev pub binding_to : String → TaskContract F → ScopeBinding
  binding_to run_id c = record {
    run_id = run_id;
    mode = enforce;
    scope = c.scope;
    contract_id = c.id;
    contract_version = c.version;
  }

  -- A decision on no contract.
  abbrev open_decision : RouteInput → RouteOutcome → RouteReason F → RouteDecision F
  open_decision input outcome reason = record {
    id = input.id;
    run_id = input.run_id;
    agent_id = input.agent_id;
    decision = outcome;
    contract_id = none;
    contract_version = none;
    score = none;
    match_channel = none;
    match_scores = none;
    near_matches = [];
    split_session_id = none;
    broker_mode = observe;
    reason = reason;
    created_at = input.created_at;
  }

  abbrev unbound : RouteDecision F → RoutingResult F
  unfolding summarise
  unbound d = record {
    decision = d;
    binding = none;
    summary = summarise d none;
    delegate_to_agent_id = none;
    contract = none;
  }

  pub bind_to_principal :
      RouteInput → TaskContract F → RouteReason F → Option (MatchScores F) → RoutingResult F
  unfolding summarise
  bind_to_principal input c reason scores =
      let d = record (open_decision input principal_bound reason) {
        contract_id = some c.id;
        contract_version = some c.version;
        broker_mode = enforce;
        match_scores = scores;
      } in
      record {
        decision = d;
        binding = some (binding_to input.run_id c);
        summary = summarise d (some c);
        delegate_to_agent_id = none;
        contract = some c;
      }

  abbrev pub nothing_ranked : Ranking F
  nothing_ranked = record { best = none; runner_up = none; nearest = none; near = [] }

module _ {F : Type 0} (s : Scoring F) (config : RoutingConfig F) where
  abbrev pub confidence_of : Ranked F → F
  confidence_of r = r.match.confidence

  -- `!held || confidence > held.match.confidence`
  abbrev pub beats : Ranked F → Option (Ranked F) → Bool
  beats r none = true
  beats r (some held) = s.less (confidence_of held) (confidence_of r)

  abbrev near_match : Ranked F → NearMatch F
  near_match r = record {
    contract_id = r.contract.id;
    name = r.contract.name;
    score = s.rounded r.match.score;
    channel = r.match.channel;
  }

  -- A contract that clears its threshold goes first, second, or nowhere.
  abbrev placed : Ranked F → Ranking F → Ranking F
  placed r k =
      if beats r k.best
      then record k { best = some r; runner_up = k.best }
      else if beats r k.runner_up
      then record k { runner_up = some r }
      else k

  abbrev not_placed : Ranked F → Ranking F → Ranking F
  not_placed r k =
      if s.less r.match.confidence s.near_match_fraction
      then k
      else record k { near = k.near ++ near_match r ∷ [] }

  -- One round of the loop.
  abbrev pub rank : Ranked F → Ranking F → Ranking F
  rank r k =
      let k' = record k { nearest = if beats r k.nearest then some r else k.nearest } in
      if r.match.matched then placed r k' else not_placed r k'

  pub rank_all : List (Ranked F) → Ranking F → Ranking F
  rank_all [] k = k
  rank_all (r ∷ rs) k = rank_all rs (rank r k)

  abbrev pub ranked : MatchCandidate → TaskContract F → Ranked F
  ranked prompt c = record {
    contract = c;
    match =
        best_match s (contract_exemplars c)
          (record prompt { embedding = truthy_text prompt.embedding })
          (contract_thresholds config.containment_threshold config.semantic_threshold c);
  }

  abbrev pub ranked_all : MatchCandidate → List (TaskContract F) → List (Ranked F)
  ranked_all prompt [] = []
  ranked_all prompt (c ∷ cs) = ranked prompt c ∷ ranked_all prompt cs

  -- `near.sort((left, right) => right.score - left.score)`, which is stable.
  abbrev insert_near : NearMatch F → List (NearMatch F) → List (NearMatch F)
  insert_near n [] = n ∷ []
  insert_near n (m ∷ ms) =
      let rest = insert_near n ms in if s.less n.score m.score then m ∷ rest else n ∷ m ∷ ms

  abbrev sort_near : List (NearMatch F) → List (NearMatch F)
  sort_near [] = []
  sort_near (n ∷ ns) = insert_near n (sort_near ns)

  -- The runner-up that the best is not told apart from.
  abbrev pub tie_with : Option (Ranked F) → Option (Ranked F) → Option (Ranked F)
  tie_with none runner_up = none
  tie_with (some best) none = none
  tie_with (some best) (some r) =
      if s.less s.nought config.tie_margin
        && (not (r.contract.id == best.contract.id)
            && s.less (s.difference best.match.confidence r.match.confidence) config.tie_margin)
      then some r
      else none

  -- The best, where there is no tie.
  abbrev pub chosen : Option (Ranked F) → Option (Ranked F) → Option (Ranked F)
  chosen best runner_up = elim (tie_with best runner_up) [ some r ↦ none | none ↦ best ]

  abbrev rounded_scores : Option (Ranked F) → Option (MatchScores F)
  rounded_scores none = none
  rounded_scores (some r) = some (record {
    fingerprint = s.rounded r.match.scores.fingerprint;
    containment = s.rounded r.match.scores.containment;
    semantic = s.rounded r.match.scores.semantic;
  })

  abbrev nearest_name : Option (Ranked F) → String
  nearest_name none = ""
  nearest_name (some r) = r.contract.name

  abbrev closest_reason : Option (Ranked F) → RouteReason F
  closest_reason none = nothing_above
  closest_reason (some r) = closest r.contract.name (s.rounded r.match.score) r.match.channel

  abbrev near_reason : List (NearMatch F) → Option (Ranked F) → RouteReason F
  near_reason [] nearest = closest_reason nearest
  near_reason (n ∷ ns) nearest = partly_recognised (n ∷ ns)

  abbrev unmatched_reason : Option (Ranked F) → ℕ → Ranking F → RouteReason F
  unmatched_reason (some tie) active k =
      tied config.tie_margin (nearest_name k.nearest) tie.contract.name
  unmatched_reason none zero k = no_active_contract
  unmatched_reason none (suc n) k = near_reason (sort_near k.near) k.nearest

  -- The caller asked for an ad-hoc run.
  pub route_ad_hoc : RouteInput → Option (TaskContract F) → RoutingResult F
  unfolding bind_to_principal summarise
  route_ad_hoc input (some own) = bind_to_principal input own (ad_hoc_bound own.name) none
  route_ad_hoc input none = unbound (open_decision input user_override ad_hoc)

  -- No contract matched, or two matched alike.
  pub route_unmatched :
      RouteInput → ℕ → Option (Ranked F) → Ranking F → Option (TaskContract F) → RoutingResult F
  unfolding bind_to_principal summarise
  route_unmatched input active tie k (some own) =
      bind_to_principal input own (unmatched_bound own.name) (rounded_scores k.nearest)
  route_unmatched input active tie k none =
      unbound (record (open_decision input unmatched (unmatched_reason tie active k)) {
        match_scores = rounded_scores k.nearest;
        near_matches = sort_near k.near;
      })

  pub route_matched : RouteInput → Ranked F → RoutingResult F
  unfolding summarise
  route_matched input best =
      let c = best.contract in
      let d =
        record (open_decision input routed
          (matched_contract c.name c.version best.match.channel (s.rounded best.match.score))) {
            contract_id = some c.id;
            contract_version = some c.version;
            score = some (s.rounded best.match.score);
            match_channel = some best.match.channel;
            match_scores = rounded_scores (some best);
            broker_mode = enforce;
          } in
      record {
        decision = d;
        binding = some (binding_to input.run_id c);
        summary = summarise d (some c);
        delegate_to_agent_id = some c.agent_id;
        contract = some c;
      }

  abbrev pub route_best :
      RouteInput → ℕ → Ranking F → Option (TaskContract F) → Option (Ranked F) → RoutingResult F
  unfolding route_unmatched route_matched
  route_best input active k own none =
      route_unmatched input active (tie_with k.best k.runner_up) k own
  route_best input active k own (some best) = route_matched input best

  -- The routing among the active contracts.
  pub route_among : RouteInput → List (TaskContract F) → RoutingResult F
  unfolding rank_all route_ad_hoc route_unmatched route_matched
  route_among input contracts =
      let k = rank_all (ranked_all input.prompt contracts) nothing_ranked in
      let own = find (λ c. c.agent_id == input.agent_id) contracts in
      if input.force_ad_hoc
      then route_ad_hoc input own
      else route_best input (length contracts) k own (chosen k.best k.runner_up)

  unfoldable pub route : RouteInput → List (TaskContract F) → RoutingResult F
  unfolding route_among
  route input contracts = route_among input (filter (λ c. is_active c.status) contracts)
