-- ===== src/Routing/Kept.antt =====
-- Which contracts `route` (service.ts) can lead to.
use Prim.Native.String.{String}
use mathlib.Core.Path.{subst}
use army_of_god.Prelude.{
  ℕ, ◌≡◌, refl, Bool, true, false, Option, none, some, List, In, filter, find, find→In, In-filter,
  length, ◌==◌, string_eq, if◌then◌else◌,
}
use army_of_god.Records.{TaskContract, is_active}
use army_of_god.Matching.{Scoring}
use army_of_god.Records.Routes.{RoutingResult}
use army_of_god.Routing.{
  RoutingConfig, RouteInput, Ranked, Ranking, tie_with, chosen, route_ad_hoc, route_unmatched,
  route_matched, route_best, route_among, route,
}
use army_of_god.Routing.Best.{ranking, chosen_sound}

module _ {F : Type 0} where
  -- Every contract and every Agent that the result names comes from these contracts.
  record IsFrom (cs : List (TaskContract F)) (r : RoutingResult F) : Type 0 where
    held : (c : TaskContract F) → r.contract ≡ some c → In c cs
    handed :
        (id : String)
        → r.delegate_to_agent_id ≡ some id
        → (c : TaskContract F) × In c cs × (c.agent_id ≡ id)

module _ {F : Type 0} (s : Scoring F) (config : RoutingConfig F) where
  ad_hoc-IsFrom :
      (cs : List (TaskContract F)) (input : RouteInput) (own : Option (TaskContract F))
      → ((c : TaskContract F) → own ≡ some c → In c cs)
      → IsFrom cs (route_ad_hoc s config input own)
  unfolding route_ad_hoc
  ad_hoc-IsFrom cs input none h = record { held = λ c e. cc; handed = λ id e. cc }
  ad_hoc-IsFrom cs input (some own) h = record { held = λ c e. h c e; handed = λ id e. cc }

  unmatched-IsFrom :
      (cs : List (TaskContract F)) (input : RouteInput) (n : ℕ) (t : Option (Ranked F))
      (k : Ranking F) (own : Option (TaskContract F))
      → ((c : TaskContract F) → own ≡ some c → In c cs)
      → IsFrom cs (route_unmatched s config input n t k own)
  unfolding route_unmatched
  unmatched-IsFrom cs input n t k none h = record { held = λ c e. cc; handed = λ id e. cc }
  unmatched-IsFrom cs input n t k (some own) h = record { held = λ c e. h c e; handed = λ id e. cc }

  matched-IsFrom :
      (cs : List (TaskContract F)) (input : RouteInput) (b : Ranked F)
      → In b.contract cs
      → IsFrom cs (route_matched s config input b)
  unfolding route_matched
  matched-IsFrom cs input b i = record {
    held = λ c e. let same : b.contract ≡ c = cc in subst (λ (x : TaskContract F). In x cs) same i;
    handed = λ id e. (b.contract, i, cc);
  }

  best-IsFrom :
      (cs : List (TaskContract F)) (input : RouteInput) (n : ℕ) (k : Ranking F)
      (own : Option (TaskContract F)) (b : Option (Ranked F))
      → ((c : TaskContract F) → own ≡ some c → In c cs)
      → ((r : Ranked F) → b ≡ some r → In r.contract cs)
      → IsFrom cs (route_best s config input n k own b)
  unfolding route_best
  best-IsFrom cs input n k own none h i =
      unmatched-IsFrom cs input n (tie_with s config k.best k.runner_up) k own h
  best-IsFrom cs input n k own (some b) h i = matched-IsFrom cs input b (i b refl)

  branch :
      (cs : List (TaskContract F)) (b : Bool) (x y : RoutingResult F)
      → IsFrom cs x
      → IsFrom cs y
      → IsFrom cs (if b then x else y)
  branch cs true x y p q = p
  branch cs false x y p q = q

  among-IsFrom :
      (cs : List (TaskContract F)) (input : RouteInput) → IsFrom cs (route_among s config input cs)
  unfolding route_among
  among-IsFrom cs input =
      let k = ranking s config input.prompt cs in
      let own = find (λ c. c.agent_id == input.agent_id) cs in
      let owns = λ (c : TaskContract F) (e : own ≡ some c).
        (find→In (λ (c : TaskContract F). c.agent_id == input.agent_id) cs e).0 in
      branch cs input.force_ad_hoc (route_ad_hoc s config input own)
        (route_best s config input (length cs) k own (chosen s config k.best k.runner_up))
        (ad_hoc-IsFrom cs input own owns)
        (best-IsFrom cs input (length cs) k own (chosen s config k.best k.runner_up) owns
          (λ r e. (chosen_sound s config input.prompt cs r e).1))

  -- The contract of a turn, and the Agent that it is handed to, are those of an active contract.
  pub route_held :
      (input : RouteInput) (contracts : List (TaskContract F)) (c : TaskContract F)
      → (route s config input contracts).contract ≡ some c
      → In c contracts × (is_active c.status ≡ true)
  unfolding route
  route_held input contracts c e =
      In-filter (λ (c : TaskContract F). is_active c.status) contracts
        ((among-IsFrom (filter (λ c. is_active c.status) contracts) input).held c e)

  pub route_handed :
      (input : RouteInput) (contracts : List (TaskContract F)) (id : String)
      → (route s config input contracts).delegate_to_agent_id ≡ some id
      → (c : TaskContract F) × In c contracts × (is_active c.status ≡ true) × (c.agent_id ≡ id)
  unfolding route
  route_handed input contracts id e =
      let (c, i, same) =
        (among-IsFrom (filter (λ c. is_active c.status) contracts) input).handed id e in
      let (there, alive) = In-filter (λ (c : TaskContract F). is_active c.status) contracts i in
      (c, there, alive, same)
