-- ===== src/Examples/Routes.antt =====
-- Routing between two contracts, with counts for scores.
use army_of_god.Prelude.{
  ℕ, ◌-◌, ◌≡◌, refl, inl, inr, true, false, none, some, List, [], ◌∷◌, arith, In, ltb, length,
}
use army_of_god.Text.{Text}
use army_of_god.Records.{TaskContract, active, is_active, routed}
use army_of_god.Matching.{Scoring, best_match, contract_exemplars, contract_thresholds}
use army_of_god.Routing.{RoutingConfig, RouteInput, ranked, route}
use army_of_god.Routing.Bound.{IsBoundTo, route-IsBoundTo}
use army_of_god.Routing.Best.{IsStrict, route-IsBest}
use army_of_god.Examples.Records.{contract_named}

-- Every contract scores as many points as the prompt's fingerprint is long.
abbrev pub counts : Scoring ℕ
counts = record {
  less = ltb;
  nought = 0;
  quotient = λ x t. x;
  difference = λ x y. x - y;
  rounded = λ x. x;
  near_match_fraction = 1;
  fingerprint_score = λ e p. length p;
  containment_score = λ e p. 0;
  semantic_score = λ e p. 0;
}

abbrev settings : RoutingConfig ℕ
settings = record { containment_threshold = 3; semantic_threshold = 3; tie_margin = 0 }

abbrev contracts : List (TaskContract ℕ)
contracts = contract_named "v1" "agent" none active ∷ contract_named "w1" "another" none active ∷ []

abbrev asks : Text → RouteInput
asks fingerprint = record {
  id = "d";
  run_id = "r";
  agent_id = "another";
  created_at = "t";
  prompt = record { fingerprint = fingerprint; canonical_form = []; embedding = none };
  force_ad_hoc = false;
}

abbrev long_prompt : Text
long_prompt = 1 ∷ 2 ∷ 3 ∷ 4 ∷ 5 ∷ 6 ∷ []

long_routed : (route counts settings (asks long_prompt) contracts).decision.decision ≡ routed
unfolding route best_match contract_exemplars contract_thresholds
long_routed = refl

counts-IsStrict : IsStrict counts settings
counts-IsStrict = record { irreflexive = λ x. ground arith; transitive = λ x y z p q. ground arith }

route-IsBest_example :
    (c : TaskContract ℕ) × In c contracts
    × (is_active c.status ≡ true)
    × ((route counts settings (asks long_prompt) contracts).contract ≡ some c)
    × ((ranked counts settings (asks long_prompt).prompt c).match.matched ≡ true)
    × ((d : TaskContract ℕ)
        → In d contracts
        → is_active d.status ≡ true
        → (ranked counts settings (asks long_prompt).prompt d).match.matched ≡ true
        → ltb
            (ranked counts settings (asks long_prompt).prompt c).match.confidence
            (ranked counts settings (asks long_prompt).prompt d).match.confidence
          ≡ false)
route-IsBest_example =
    route-IsBest counts settings counts-IsStrict (asks long_prompt) contracts long_routed

-- A prompt that matches nothing.
route-IsBoundTo_example :
    (c : TaskContract ℕ) × In c contracts
    × (is_active c.status ≡ true)
    × IsBoundTo (asks []) (route counts settings (asks []) contracts) c
route-IsBoundTo_example =
    route-IsBoundTo counts settings (asks []) contracts (contract_named "w1" "another" none active)
      (inr (inl refl)) refl refl
