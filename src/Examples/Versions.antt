-- ===== src/Examples/Versions.antt =====
-- Revisions of a contract: one that a denial justifies, one that nothing justifies, and two that are
-- prepared from the same snapshot.
use army_of_god.Prelude.{
  ℕ, ◌≡◌, refl, inl, inr, true, none, some, List, [], ◌∷◌, In, dedupe, eq_false→≢, string_eq,
}
use army_of_god.Text.{Text, trim, starts_with, split_slash, join_slash}
use army_of_god.Store.{ok, err}
use army_of_god.Records.{TaskContract, active, is_active, DenialEvent, DenialKind}
use army_of_god.Scope.{normalize_scope, check_narrowing, normalize_grant}
use army_of_god.Scope.Paths.{containing_directory, path_segments}
use army_of_god.Budget.{usage_for_contract, check_budget, check_limits}
use army_of_god.Budget.Lineage.{contract_lineage}
use army_of_god.Budget.Usage.{Covers}
use army_of_god.Contracts.{
  Revision, keep, no_evidence, denied_targets, next_version, revise_current, install_version,
}
use army_of_god.Contracts.Justified.{IsWithin, revise_current-IsWithin}
use army_of_god.Contracts.Spend.{install_version-Covers, check_budget-install_version}
use army_of_god.Contracts.Versions.{
  IsLinear, IsNext, install_version-IsLinear, install_version_twice,
}
use army_of_god.Examples.Records.{small_scope, contract_named, run_under}

abbrev same : Text → Text
same t = t

abbrev current : TaskContract ℕ
current = contract_named "v1" "agent" none active

abbrev first : TaskContract ℕ
first = contract_named "v2" "agent" (some "v1") active

abbrev second : TaskContract ℕ
second = contract_named "v3" "agent" (some "v1") active

abbrev contracts : List (TaskContract ℕ)
contracts = current ∷ []

-- The edit adds the domain `y`, and keeps the budget.
abbrev revision : Revision
revision = record {
  scope = some (record small_scope { domains = (120 ∷ []) ∷ (121 ∷ []) ∷ [] });
  budget = keep;
}

abbrev denial : DenialEvent
denial = record {
  id = "d";
  run_id = "r";
  agent_id = "agent";
  contract_id = some "v1";
  contract_version = some 1;
  kind = DenialKind.egress;
  target = 121 ∷ [];
  reason = [];
  at = "t";
}

abbrev revised : TaskContract ℕ
revised = next_version same "t1" "v2" "u" revision current

revision_accepted : revise_current same "t1" "v2" "u" revision (denial ∷ []) current ≡ ok revised
unfolding revise_current normalize_scope check_narrowing dedupe trim starts_with
    containing_directory path_segments split_slash join_slash normalize_grant
revision_accepted = refl

revision_refused :
    revise_current same "t1" "v2" "u" revision [] current ≡ err (no_evidence ((121 ∷ []) ∷ []))
unfolding revise_current normalize_scope check_narrowing dedupe trim starts_with
    containing_directory path_segments split_slash join_slash normalize_grant
revision_refused = refl

revise_current-IsWithin_example :
    (is_active current.status ≡ true)
    × (revised ≡ next_version same "t1" "v2" "u" revision current)
    × IsWithin same
        (normalize_scope same current.scope)
        (denied_targets same "v1" (denial ∷ []))
        revised.scope
revise_current-IsWithin_example =
    revise_current-IsWithin same "t1" "v2" "u" revision (denial ∷ []) current revised
      revision_accepted

install_version-Covers_example :
    Covers
      (usage_for_contract first (install_version "v1" first contracts) (run_under "v1" ∷ []))
      (usage_for_contract current contracts (run_under "v1" ∷ []))
install_version-Covers_example =
    install_version-Covers current first contracts (run_under "v1" ∷ []) (refl, tt) (inl refl) refl
      refl

may_start :
    (check_budget first (install_version "v1" first contracts) (run_under "v1" ∷ [])).refusal ≡ none
unfolding check_budget usage_for_contract install_version contract_lineage check_limits
may_start = refl

check_budget-install_version_example :
    (check_budget current contracts (run_under "v1" ∷ [])).refusal ≡ none
check_budget-install_version_example =
    check_budget-install_version current first contracts (run_under "v1" ∷ []) (refl, tt) (inl refl)
      refl refl refl may_start

one-IsLinear : IsLinear contracts
one-IsLinear = record {
  distinct = (refl, tt);
  known = λ e q i sup. elim i [ inl h ↦ cc | inr n ↦ absurd n ];
  retired = λ e f i j sup. elim j [ inl h ↦ cc | inr n ↦ absurd n ];
  single = λ e f q i j s t. elim i [ inl h ↦ cc | inr n ↦ absurd n ];
}

first-IsNext : IsNext current first contracts
first-IsNext = record {
  linear = one-IsLinear;
  there = inl refl;
  alive = refl;
  fresh = refl;
  supersedes = refl;
}

install_version-IsLinear_example : IsLinear (install_version "v1" first contracts)
install_version-IsLinear_example = install_version-IsLinear current first contracts first-IsNext

other_id : first.id ≡ second.id → ⊥
other_id = eq_false→≢ first.id second.id refl

new_id : first.id ≡ current.id → ⊥
new_id = eq_false→≢ first.id current.id refl

install_version_twice_example :
    In first (install_version "v1" second (install_version "v1" first contracts))
    × In second (install_version "v1" second (install_version "v1" first contracts))
    × (IsLinear (install_version "v1" second (install_version "v1" first contracts)) → ⊥)
install_version_twice_example =
    install_version_twice current first second contracts refl refl other_id new_id
