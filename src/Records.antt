-- ===== src/Records.antt =====
-- apps/server/src/codify/types.ts and apps/server/src/types.ts: the records of the store. Texts that
-- the code takes apart are lists of code units; identifiers, names and timestamps are strings.
-- `F` is the type of the matcher's floating-point numbers.
pub mod Runs
pub mod Routes
use Prim.Native.String.{String}
use army_of_god.Prelude.{
  ℕ, Bool, true, false, Option, none, some, List, ◌==◌, string_eq, if◌then◌else◌,
}

pub data Mode : Type 0 where
  ro rw : Mode

pub record PathGrant : Type 0 where
  pub path : List ℕ
  pub mode : Mode

pub record CapabilityScope : Type 0 where
  pub paths : List PathGrant
  pub domains : List (List ℕ)
  pub secrets : List (List ℕ)

pub data BrokerMode : Type 0 where
  observe enforce : BrokerMode

-- An absent field is no limit. The limits are whole numbers.
pub record TaskBudget : Type 0 where
  pub max_total_tokens : Option ℕ
  pub max_runs : Option ℕ
  pub max_tokens_per_run : Option ℕ

pub record BudgetUsage : Type 0 where
  pub total_tokens : ℕ
  pub runs : ℕ
  pub max_run_tokens : ℕ

pub data ContractStatus : Type 0 where
  active deprecated : ContractStatus

abbrev pub is_active : ContractStatus → Bool
is_active active = true
is_active deprecated = false

pub record TaskContract (F : Type 0) : Type 0 where
  pub id : String
  pub version : ℕ
  pub name : String
  pub agent_id : String
  pub match_fingerprints : List (List ℕ)
  pub match_canonical_forms : Option (List (List ℕ))
  pub match_embeddings : Option (List (Option (List ℕ)))
  pub match_threshold : F
  pub containment_threshold : Option F
  pub semantic_threshold : Option F
  pub system_prompt : List ℕ
  pub refinements : List (List ℕ)
  pub scope : CapabilityScope
  pub budget : Option TaskBudget
  pub status : ContractStatus
  pub review_note : Option (List ℕ)
  pub created_by : String
  pub created_at : String
  pub supersedes : Option String

-- `contract.supersedes` where it is tested: an empty string counts as absent.
abbrev pub truthy_id : Option String → Option String
truthy_id none = none
truthy_id (some v) = if v == "" then none else some v

pub data DenialKind : Type 0 where
  egress path secret budget : DenialKind

-- `outcome` is always "blocked".
pub record DenialEvent : Type 0 where
  pub id : String
  pub run_id : String
  pub agent_id : String
  pub contract_id : Option String
  pub contract_version : Option ℕ
  pub kind : DenialKind
  pub target : List ℕ
  pub reason : List ℕ
  pub at : String

pub data RouteOutcome : Type 0 where
  routed principal_bound unmatched user_override : RouteOutcome

pub data MatchChannel : Type 0 where
  fingerprint containment semantic : MatchChannel

pub record MatchScores (F : Type 0) : Type 0 where
  pub fingerprint : F
  pub containment : F
  pub semantic : F

pub record NearMatch (F : Type 0) : Type 0 where
  pub contract_id : String
  pub name : String
  pub score : F
  pub channel : MatchChannel
