-- ===== src/Examples/Scopes.antt =====
-- Scopes of a few paths and domains; letters have no case here, and are compared by their code.
use army_of_god.Prelude.{
  ◌*◌, ◌≤◌, ◌<◌, ◌≡◌, ◌↔◌, refl, Bool, true, false, List, [], ◌∷◌, map, length, elem, In,
  IsDistinct, ◌==◌,
}
use army_of_god.Text.{Text, text_eq, text_le}
use army_of_god.Records.{Mode, CapabilityScope}
use army_of_god.Scope.{
  CapabilityObservation, never_allow_domains, runtime_infrastructure_domains, max_derived_domains,
  frequency_floor, frequent, derive_scope, normalize_scope, check_narrowing,
}
use army_of_god.Scope.Frequent.{occurrences, frequent_iff}
use army_of_god.Scope.Derive.{SeenOften, derive_scope_evidence}
use army_of_god.Scope.Normal.{normalize_scope_clean}
use army_of_god.Scope.Narrow.{IsNarrower, check_narrowing_iff}
use army_of_god.Examples.Records.{small_scope}

abbrev same : Text → Text
same t = t

abbrev before : Text → Text → Bool
before s t = text_le s t

abbrev seen : List (List Text)
seen = ((1 ∷ []) ∷ (2 ∷ []) ∷ []) ∷ ((1 ∷ []) ∷ []) ∷ ((3 ∷ []) ∷ []) ∷ []

frequent_iff_example :
    In (1 ∷ []) (frequent before seen frequency_floor)
    ↔ ((0 < occurrences (1 ∷ []) seen) × (length seen * 1 ≤ occurrences (1 ∷ []) seen * 2))
frequent_iff_example = frequent_iff before seen frequency_floor (1 ∷ [])

abbrev observed : List Text → CapabilityObservation
observed domains = record {
  run_id = "r";
  agent_id = "a";
  domains_reached = domains;
  paths_read = [];
  paths_written = [];
  secrets_read = (7 ∷ []) ∷ [];
  created_at = "t";
}

abbrev observations : List CapabilityObservation
observations = observed ((1 ∷ []) ∷ []) ∷ observed ((1 ∷ []) ∷ (2 ∷ []) ∷ []) ∷ []

derive_scope_evidence_example :
    (length (derive_scope same before observations frequency_floor).domains ≤ max_derived_domains)
    × ((d : Text)
        → In d (derive_scope same before observations frequency_floor).domains
        → SeenOften (λ o. map same o.domains_reached) observations frequency_floor d
          × (elem d never_allow_domains ≡ false)
          × (elem d runtime_infrastructure_domains ≡ false))
    × ((v : Text)
        → In v (derive_scope same before observations frequency_floor).secrets
        → SeenOften (λ o. o.secrets_read) observations frequency_floor v)
derive_scope_evidence_example = derive_scope_evidence same before observations frequency_floor

normalize_scope_clean_example :
    IsDistinct (map (λ g. g.path) (normalize_scope same small_scope).paths)
    × ((d : Text)
        → In d (normalize_scope same small_scope).domains
        → (elem d never_allow_domains ≡ false) × ((d == []) ≡ false))
    × ((v : Text) → In v (normalize_scope same small_scope).secrets → (v == []) ≡ false)
normalize_scope_clean_example = normalize_scope_clean same small_scope

abbrev writable : CapabilityScope
writable = record small_scope { paths = record { path = 97 ∷ []; mode = Mode.rw } ∷ [] }

writable_widens : (check_narrowing same small_scope writable).widened_paths ≡ (97 ∷ []) ∷ []
unfolding check_narrowing
writable_widens = refl

check_narrowing_iff_example :
    ((check_narrowing same writable small_scope).good ≡ true) ↔ IsNarrower same writable small_scope
check_narrowing_iff_example = check_narrowing_iff same writable small_scope (refl, tt)
