-- ===== src/Routing/Best.antt =====
-- The contract that `route` (service.ts) chooses, against the other contracts that matched.
use mathlib.Core.Path.{subst}
use army_of_god.Prelude.{
  ℕ, ◌≡◌, refl, sym, ap, ◌∙◌, ◌⊎◌, inl, inr, true, false, ◌&&◌, Option, none, some, List, [], ◌∷◌,
  arith, In, filter, find, length, ◌==◌, string_eq, if◌then◌else◌, Bool-cases, Option-cases,
  In-filter, In-filter_intro,
}
use army_of_god.Records.{TaskContract, is_active, routed}
use army_of_god.Matching.{MatchCandidate, Scoring}
use army_of_god.Routing.{
  RoutingConfig, RouteInput, Ranked, Ranking, beats, rank, rank_all, nothing_ranked, ranked,
  ranked_all, tie_with, chosen, route_ad_hoc, route_unmatched, route_matched, route_among, route,
}

module _ {F : Type 0} (s : Scoring F) (config : RoutingConfig F) where
  -- `rank` on the best contract alone.
  rank-best :
      (r : Ranked F) (k : Ranking F)
      → (rank s config r k).best
        ≡ (if r.match.matched && beats s config r k.best then some r else k.best)
  rank-best r k = elim (Bool-cases r.match.matched) [
    | inl hit ↦ elim (Bool-cases (beats s config r k.best)) [
      | inl first ↦ rw (hit, first) refl
      | inr later ↦ elim (Bool-cases (beats s config r k.runner_up)) [
        | inl second ↦ rw (hit, later, second) refl
        | inr third ↦ rw (hit, later, third) refl
      ]
    ]
    | inr miss ↦ elim (Bool-cases (s.less r.match.confidence s.near_match_fraction)) [
      | inl far ↦ rw (miss, far) refl
      | inr close ↦ rw (miss, close) refl
    ]
  ]

  -- The best cleared its threshold and is one of those ranked.
  best_of_ranked :
      (rs : List (Ranked F)) (k : Ranking F) (b : Ranked F)
      → (rank_all s config rs k).best ≡ some b
      → (k.best ≡ some b) ⊎ (In b rs × (b.match.matched ≡ true))
  unfolding rank_all
  best_of_ranked [] k b h = inl h
  best_of_ranked (r ∷ rs) k b h = elim (best_of_ranked rs (rank s config r k) b h) [
    | inr (i, m) ↦ inr (inr i, m)
    | inl here ↦
        let e : (if r.match.matched && beats s config r k.best then some r else k.best) ≡ some b =
          sym (rank-best r k) ∙ here in
        elim (Bool-cases (r.match.matched && beats s config r k.best)) [
          | inl new ↦
              let same : r ≡ b = some_same r b (rw new at e) in
              inr (inl (sym same), rw (sym same) (ground (arith, new)))
          | inr old ↦ inl (rw old at e)
        ]
  ]
    where
      some_same : (x y : Ranked F) → some x ≡ some y → x ≡ y
      some_same x y p = cc

  In-ranked :
      (prompt : MatchCandidate) (cs : List (TaskContract F)) (b : Ranked F)
      → In b (ranked_all s config prompt cs)
      → In b.contract cs × (b ≡ ranked s config prompt b.contract)
  In-ranked prompt [] b i = absurd i
  In-ranked prompt (c ∷ cs) b (inl e) = (
    inl (ap (λ (x : Ranked F). x.contract) e),
    e ∙ ap (λ x. ranked s config prompt x) (sym (ap (λ (x : Ranked F). x.contract) e)),
  )
  In-ranked prompt (c ∷ cs) b (inr i) = let (j, e) = In-ranked prompt cs b i in (inr j, e)

  ranked-In :
      (prompt : MatchCandidate) (cs : List (TaskContract F)) (c : TaskContract F)
      → In c cs
      → In (ranked s config prompt c) (ranked_all s config prompt cs)
  ranked-In prompt [] c i = absurd i
  ranked-In prompt (d ∷ cs) c (inl e) = inl (ap (λ x. ranked s config prompt x) e)
  ranked-In prompt (d ∷ cs) c (inr i) = inr (ranked-In prompt cs c i)

  -- `<` as the numbers of the source have it, where none is NaN.
  pub record IsStrict : Type 0 where
    pub irreflexive : (x : F) → s.less x x ≡ false
    pub transitive : (x y z : F) → s.less x y ≡ true → s.less y z ≡ true → s.less x z ≡ true

  -- The best so far is no worse than `x`.
  abbrev Dominates : Ranking F → Ranked F → Type 0
  Dominates k x =
      (b : Ranked F) × (k.best ≡ some b) × (s.less b.match.confidence x.match.confidence ≡ false)

  not_less :
      (o : IsStrict) (x y z : F) → s.less x y ≡ true → s.less x z ≡ false → s.less y z ≡ false
  not_less o x y z p q = elim (Bool-cases (s.less y z)) [
    | inl r ↦ absurd (cc (o.transitive x y z p r, q))
    | inr r ↦ r
  ]

  still-Dominates :
      (o : IsStrict) (r x : Ranked F) (k : Ranking F)
      → Dominates k x
      → Dominates (rank s config r k) x
  still-Dominates o r x k (b, held, top) =
      elim (Bool-cases (r.match.matched && beats s config r k.best)) [
        | inl new ↦
            let better : s.less b.match.confidence r.match.confidence ≡ true =
              ground (arith, new, held) in
            (
              r,
              rank-best r k ∙ rw new refl,
              not_less o b.match.confidence r.match.confidence x.match.confidence better top,
            )
        | inr old ↦ (b, rank-best r k ∙ rw old held, top)
      ]

  itself-Dominates :
      (o : IsStrict) (r : Ranked F) (k : Ranking F)
      → r.match.matched ≡ true
      → Dominates (rank s config r k) r
  itself-Dominates o r k hit = elim (Bool-cases (beats s config r k.best)) [
    | inl first ↦ (r, rank-best r k ∙ rw (hit, first) refl, o.irreflexive r.match.confidence)
    | inr later ↦ elim (Option-cases k.best) [
      | inl nothing ↦ absurd (cc (later, nothing))
      | inr (b, held) ↦ (
        b,
        rank-best r k ∙ rw (hit, later) held,
        subst (λ o. beats s config r o ≡ false) held later,
      )
    ]
  ]

  all_dominate :
      (o : IsStrict) (rs : List (Ranked F)) (k : Ranking F) (x : Ranked F)
      → Dominates k x
      → Dominates (rank_all s config rs k) x
  unfolding rank_all
  all_dominate o [] k x d = d
  all_dominate o (r ∷ rs) k x d =
      all_dominate o rs (rank s config r k) x (still-Dominates o r x k d)

  best-Dominates :
      (o : IsStrict) (rs : List (Ranked F)) (k : Ranking F) (x : Ranked F)
      → In x rs
      → x.match.matched ≡ true
      → Dominates (rank_all s config rs k) x
  unfolding rank_all
  best-Dominates o [] k x i m = absurd i
  best-Dominates o (r ∷ rs) k x (inl e) m =
      all_dominate o rs (rank s config r k) x (rw e (itself-Dominates o r k (rw e at m)))
  best-Dominates o (r ∷ rs) k x (inr i) m = best-Dominates o rs (rank s config r k) x i m

  chosen-best : (b r : Option (Ranked F)) (x : Ranked F) → chosen s config b r ≡ some x → b ≡ some x
  chosen-best b r x h = elim (Option-cases (tie_with s config b r)) [
    | inl single ↦ rw (single, chosen) at h
    | inr (t, tie) ↦ absurd (none_some x (rw (tie, chosen) at h))
  ]
    where
      none_some : (y : Ranked F) → none ≡ some y → ⊥
      none_some y p = cc

  ad_hoc_open :
      (input : RouteInput) (own : Option (TaskContract F))
      → (route_ad_hoc s config input own).decision.decision ≡ routed
      → ⊥
  unfolding route_ad_hoc
  ad_hoc_open input none h = cc
  ad_hoc_open input (some c) h = cc

  unmatched_open :
      (input : RouteInput) (n : ℕ) (t : Option (Ranked F)) (k : Ranking F)
      (own : Option (TaskContract F))
      → (route_unmatched s config input n t k own).decision.decision ≡ routed
      → ⊥
  unfolding route_unmatched
  unmatched_open input n t k none h = cc
  unmatched_open input n t k (some c) h = cc

  -- The ranking that `route` makes among the active contracts.
  abbrev pub ranking : MatchCandidate → List (TaskContract F) → Ranking F
  ranking prompt cs = rank_all s config (ranked_all s config prompt cs) nothing_ranked

  same_best : (a b : Ranked F) → some a ≡ some b → a ≡ b
  same_best a b p = cc

  pub chosen_sound :
      (prompt : MatchCandidate) (cs : List (TaskContract F)) (b : Ranked F)
      → chosen s config (ranking prompt cs).best (ranking prompt cs).runner_up ≡ some b
      → ((ranking prompt cs).best ≡ some b)
        × In b.contract cs
        × (b ≡ ranked s config prompt b.contract)
        × (b.match.matched ≡ true)
  chosen_sound prompt cs b h =
      let held = chosen-best (ranking prompt cs).best (ranking prompt cs).runner_up b h in
      elim (best_of_ranked (ranked_all s config prompt cs) nothing_ranked b held) [
        | inl e ↦ cc
        | inr (i, m) ↦ let (j, same) = In-ranked prompt cs b i in (held, j, same, m)
      ]

  -- A turn is routed only to an active contract that the prompt matched, and no active contract
  -- that it matched has a higher confidence, where `<` on scores is irreflexive and transitive.
  pub route-IsBest :
      (o : IsStrict) (input : RouteInput) (contracts : List (TaskContract F))
      → (route s config input contracts).decision.decision ≡ routed
      → (c : TaskContract F) × In c contracts
        × (is_active c.status ≡ true)
        × ((route s config input contracts).contract ≡ some c)
        × ((ranked s config input.prompt c).match.matched ≡ true)
        × ((d : TaskContract F)
            → In d contracts
            → is_active d.status ≡ true
            → (ranked s config input.prompt d).match.matched ≡ true
            → s.less
                (ranked s config input.prompt c).match.confidence
                (ranked s config input.prompt d).match.confidence
              ≡ false)
  unfolding route route_among route_matched
  route-IsBest o input contracts h =
      let cs = filter (λ c. is_active c.status) contracts in
      let k = ranking input.prompt cs in
      let own = find (λ c. c.agent_id == input.agent_id) cs in
      elim (Bool-cases input.force_ad_hoc) [
        | inl forced ↦ absurd (ad_hoc_open input own (rw forced at h))
        | inr free ↦ elim (Option-cases (chosen s config k.best k.runner_up)) [
          | inl nothing ↦ absurd (
              unmatched_open input (length cs) (tie_with s config k.best k.runner_up) k own
                (rw (free, nothing) at h))
          | inr (b, taken) ↦
              let (held, i, same, m) = chosen_sound input.prompt cs b taken in
              let (stored, alive) = In-filter (λ c. is_active c.status) contracts i in
              (
                b.contract,
                stored,
                alive,
                rw (free, taken) refl,
                rw same at m,
                λ d j active_d md.
                    let (top, there, no_worse) =
                      best-Dominates o (ranked_all s config input.prompt cs) nothing_ranked
                        (ranked s config input.prompt d)
                        (ranked-In input.prompt cs d
                          (In-filter_intro (λ c. is_active c.status) contracts j active_d))
                        md in
                    let one : b ≡ top = same_best b top (sym held ∙ there) in
                    rw same at (rw (sym one) at no_worse),
              )
        ]
      ]
