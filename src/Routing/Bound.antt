-- ===== src/Routing/Bound.antt =====
-- The scope that `route` and `bindToPrincipal` (service.ts) bind a turn to.
use Prim.Native.String.{String}
use mathlib.Core.Path.{subst}
use army_of_god.Prelude.{
  ℕ, ◌≡◌, refl, sym, ◌⊎◌, inl, inr, Bool, true, false, Option, none, some, List, In, filter, find,
  find→In, find-none, length, ◌==◌, eq→≡, eq_self, string_eq, if◌then◌else◌, Bool-cases,
  Option-cases, In-filter, In-filter_intro,
}
use army_of_god.Records.{enforce, TaskContract, is_active, routed}
use army_of_god.Matching.{Scoring}
use army_of_god.Records.Routes.{RoutingResult}
use army_of_god.Routing.{
  RoutingConfig, RouteInput, Ranked, Ranking, binding_to, tie_with, chosen, route_ad_hoc,
  route_unmatched, route_matched, route_best, route_among, route,
}
use army_of_god.Routing.Best.{ranking, chosen_sound}

module _ {F : Type 0} where
  -- The turn runs under contract `c`: on its own scope, enforced; handed over only if it was routed.
  pub record IsBoundTo (input : RouteInput) (result : RoutingResult F) (c : TaskContract F)
      : Type 0 where
    pub contract : result.contract ≡ some c
    pub binding : result.binding ≡ some (binding_to input.run_id c)
    pub enforced : result.decision.broker_mode ≡ enforce
    pub ours :
        ((c.agent_id ≡ input.agent_id) × (result.delegate_to_agent_id ≡ none))
        ⊎ ((input.force_ad_hoc ≡ false)
            × (result.decision.decision ≡ routed)
            × (result.delegate_to_agent_id ≡ some c.agent_id))

module _ {F : Type 0} (s : Scoring F) (config : RoutingConfig F) where
  ad_hoc-IsBoundTo :
      (input : RouteInput) (c : TaskContract F)
      → c.agent_id ≡ input.agent_id
      → IsBoundTo input (route_ad_hoc s config input (some c)) c
  unfolding route_ad_hoc
  ad_hoc-IsBoundTo input c e = record {
    contract = refl;
    binding = refl;
    enforced = refl;
    ours = inl (e, refl);
  }

  unmatched-IsBoundTo :
      (input : RouteInput) (n : ℕ) (t : Option (Ranked F)) (k : Ranking F) (c : TaskContract F)
      → c.agent_id ≡ input.agent_id
      → IsBoundTo input (route_unmatched s config input n t k (some c)) c
  unfolding route_unmatched
  unmatched-IsBoundTo input n t k c e = record {
    contract = refl;
    binding = refl;
    enforced = refl;
    ours = inl (e, refl);
  }

  matched-IsBoundTo :
      (input : RouteInput) (b : Ranked F)
      → input.force_ad_hoc ≡ false
      → IsBoundTo input (route_matched s config input b) b.contract
  unfolding route_matched
  matched-IsBoundTo input b free = record {
    contract = refl;
    binding = refl;
    enforced = refl;
    ours = inr (free, refl, refl);
  }

  own_of :
      (id : String) (cs : List (TaskContract F)) (own : TaskContract F)
      → In own cs
      → own.agent_id ≡ id
      → (c : TaskContract F) × In c cs
        × (c.agent_id ≡ id)
        × (find (λ c. c.agent_id == id) cs ≡ some c)
  own_of id cs own i same = elim (Option-cases (find (λ c. c.agent_id == id) cs)) [
    | inl missing ↦ absurd (cc (find-none (λ c. c.agent_id == id) cs missing i, same, eq_self id))
    | inr (c, found) ↦
        let (j, e) = find→In (λ c. c.agent_id == id) cs found in (c, j, eq→≡ c.agent_id id e, found)
  ]

  -- Where an active contract belongs to the Agent that a turn addresses, the turn runs enforced
  -- under the scope of some active contract, whatever its prompt and its flags. It is a contract of
  -- that Agent, which then keeps the turn, or the turn was routed and is handed over to the
  -- contract's Agent; a turn that asks for an ad-hoc run is never handed over.
  pub route-IsBoundTo :
      (input : RouteInput) (contracts : List (TaskContract F)) (own : TaskContract F)
      → In own contracts
      → is_active own.status ≡ true
      → own.agent_id ≡ input.agent_id
      → (c : TaskContract F) × In c contracts
        × (is_active c.status ≡ true)
        × IsBoundTo input (route s config input contracts) c
  unfolding route route_among
  route-IsBoundTo input contracts own i alive same =
      let cs = filter (λ c. is_active c.status) contracts in
      let k = ranking s config input.prompt cs in
      let (c, j, mine, found) =
        own_of input.agent_id cs own (In-filter_intro (λ c. is_active c.status) contracts i alive)
          same in
      let (stored, active) = In-filter (λ c. is_active c.status) contracts j in
      let pick = chosen s config k.best k.runner_up in
      let open_route = λ (o : Option (Ranked F)).
        route_best s config input (length cs) k (find (λ c. c.agent_id == input.agent_id) cs) o in
      let by_flag = λ (f : Bool).
        if f
        then route_ad_hoc s config input (find (λ c. c.agent_id == input.agent_id) cs)
        else open_route pick in
      elim (Bool-cases input.force_ad_hoc) [
        | inl forced ↦ (
          c,
          stored,
          active,
          subst (λ f. IsBoundTo input (by_flag f) c) (sym forced)
              (rw found (ad_hoc-IsBoundTo input c mine)),
        )
        | inr free ↦ elim (Option-cases pick) [
          | inl nothing ↦ (
            c,
            stored,
            active,
            subst (λ f. IsBoundTo input (by_flag f) c) (sym free)
                (subst (λ o. IsBoundTo input (open_route o) c) (sym nothing)
                  (rw found (
                    unmatched-IsBoundTo input (length cs) (tie_with s config k.best k.runner_up) k c
                      mine))),
          )
          | inr (b, taken) ↦
              let (held, l, e, m) = chosen_sound s config input.prompt cs b taken in
              let (stored_b, active_b) = In-filter (λ c. is_active c.status) contracts l in
              (
                b.contract,
                stored_b,
                active_b,
                subst (λ f. IsBoundTo input (by_flag f) b.contract) (sym free)
                    (subst (λ o. IsBoundTo input (open_route o) b.contract) (sym taken)
                      (matched-IsBoundTo input b free)),
              )
        ]
      ]
