-- ===== src/Session/Selection/Fit.antt =====
-- `selectParticipant` of apps/server/src/codify/coordination.ts against the Agents and contracts that
-- it may choose from.
use Prim.Native.String.{String}
use mathlib.Core.Path.{subst}
use army_of_god.Prelude.{
  ◌≡◌, refl, ◌⊎◌, inl, inr, Bool, true, false, Option, none, some, List, [], ◌∷◌, any, any→In,
  filter, find, find→In, In, In-filter, In-filter_intro, In-of_sort_by, In-sort_by, sort_by,
  string_eq, Bool-cases,
}
use army_of_god.Records.{TaskContract}
use army_of_god.Records.Runs.{Agent}
use army_of_god.Matching.{Scoring, MatchCandidate, MatchThresholds}
use army_of_god.Session.{CoordinationSession}
use army_of_god.Session.Selection.{
  SelectionResult, Held, is_available, is_fallback, own_contract, first_of, match_of, takes_over,
  consider, best_of_agents, choose, unmatched_choice, select_participant, last_turn_index,
  idle_before, SelectionReason, idle_longest, general_agent,
}

module _ {F : Type 0} (s : Scoring F) (not_after : String → String → Bool)
    (thresholds : MatchThresholds F) (instruction : MatchCandidate)
    (contracts : List (TaskContract F)) where
  -- The Agent's own active contract matched the instruction.
  abbrev pub Recognises : Agent → TaskContract F → Type 0
  Recognises a c =
      (own_contract contracts a ≡ some c)
      × ((match_of s not_after thresholds instruction c).matched ≡ true)

  -- What the loop holds comes from an Agent that it met, and where it holds nothing, none recognised
  -- the instruction.
  record IsSearch (agents : List Agent) (before after : Option (Held F)) : Type 0 where
    from :
        (h : Held F)
        → after ≡ some h
        → (before ≡ some h) ⊎ (In h.agent agents × Recognises h.agent h.contract)
    empty :
        after ≡ none
        → (before ≡ none) × ((a : Agent) (c : TaskContract F) → In a agents → Recognises a c → ⊥)

  some_not_none : {A : Type 0} (o : Option A) (x : A) → o ≡ some x → o ≡ none → ⊥
  some_not_none o x p q = cc

  consider_lem :
      (a : Agent) (c : Option (TaskContract F)) (best : Option (Held F))
      → own_contract contracts a ≡ c
      → IsSearch (a ∷ []) best (consider s not_after thresholds instruction a c best)
  consider_lem a none best e = record {
    from = λ h p. inl p;
    empty = λ p. (
      p,
      λ b d i r. elim i [
        | inl same ↦ some_not_none (own_contract contracts a) d (rw same at r.0) e
        | inr n ↦ n
      ],
    );
  }
  consider_lem a (some c) best e =
      let m = match_of s not_after thresholds instruction c in
      let met : Held F = record {
        agent = a;
        contract = c;
        confidence = m.confidence;
        score = m.score;
      } in
      elim (Bool-cases m.matched) [
        | inl hit ↦ elim (Bool-cases (takes_over s not_after thresholds m.confidence best)) [
          | inl over ↦
              rw (hit, over)
                (record {
                  from = λ h p.
                      let same : met ≡ h = cc in
                      subst
                        (λ (x : Held F).
                          (best ≡ some x) ⊎ (In x.agent (a ∷ []) × Recognises x.agent x.contract))
                        same (inr (inl refl, (e, hit)));
                  empty = λ p. cc;
                })
          | inr under ↦
              rw (hit, under)
                (record { from = λ h p. inl p; empty = λ p. absurd (never best under p) })
        ]
        | inr miss ↦ rw miss (record {
          from = λ h p. inl p;
          empty = λ p. (
            p,
            λ b d i r. elim i [
              | inl same ↦ let there : d ≡ c = cc (rw same at r.0, e) in cc (rw there at r.1, miss)
              | inr n ↦ n
            ],
          );
        })
      ]
    where
      never :
          (o : Option (Held F))
          → takes_over s not_after thresholds
              (match_of s not_after thresholds instruction c).confidence
              o
            ≡ false
          → o ≡ none
          → ⊥
      never none h p = cc
      never (some h) q p = cc

  best_of_agents_lem :
      (agents : List Agent) (best : Option (Held F))
      → IsSearch agents best
          (best_of_agents s not_after thresholds instruction contracts agents best)
  unfolding best_of_agents
  best_of_agents_lem [] best = record { from = λ h p. inl p; empty = λ p. (p, λ a c i r. i) }
  best_of_agents_lem (a ∷ agents) best =
      let best' = consider s not_after thresholds instruction a (own_contract contracts a) best in
      let one = consider_lem a (own_contract contracts a) best refl in
      let more = best_of_agents_lem agents best' in
      record {
        from = λ h p. elim (more.from h p) [
          | inl old ↦ elim (one.from h old) [
            | inl older ↦ inl older
            | inr (i, r) ↦ inr (elim i [ inl e ↦ inl e | inr n ↦ absurd n ], r)
          ]
          | inr (i, r) ↦ inr (inr i, r)
        ];
        empty = λ p.
            let (q, later) = more.empty p in
            let (start, here) = one.empty q in
            (start, λ b c i r. elim i [ inl e ↦ here b c (inl e) r | inr j ↦ later b c j r ]);
      }

  -- The choice: a participant of the session, under its own active contract where that matched the
  -- instruction, and under none where no participant's did.
  pub record IsFit (session : CoordinationSession) (participants : List Agent)
      (r : SelectionResult F) : Type 0 where
    pub agent : Agent
    pub known : In agent participants
    pub invited : is_available session agent ≡ true
    pub same : r.agent_id ≡ agent.id
    pub scoped : (c : TaskContract F) → r.contract ≡ some c → Recognises agent c
    pub unscoped :
        r.contract ≡ none
        → (a : Agent) (c : TaskContract F) → In a participants
        → is_available session a ≡ true
        → Recognises a c
        → ⊥

  first_of-In :
      (x : Agent) (xs : List Agent) → In x xs → (a : Agent) × (first_of xs ≡ some a) × In a xs
  first_of-In x [] i = absurd i
  first_of-In x (y ∷ xs) i = (y, refl, inl refl)

  module _ (session : CoordinationSession) (participants : List Agent) where
    available : List Agent
    available = filter (is_available session) participants

    Chosen : Option (SelectionResult F) → Type 0
    Chosen o = (r : SelectionResult F) × (o ≡ some r) × IsFit session participants r

    plain-IsFit :
        (reason : SelectionReason F) (a : Agent)
        → In a available
        → ((b : Agent) (c : TaskContract F) → In b available → Recognises b c → ⊥)
        → IsFit session participants (record { agent_id = a.id; contract = none; reason = reason })
    unfolding available
    plain-IsFit reason a i none_fits =
        let (known, invited) = In-filter (is_available session) participants i in
        record {
          agent = a;
          known = known;
          invited = invited;
          same = refl;
          scoped = λ c e. cc;
          unscoped =
              λ e b c j v. none_fits b c (In-filter_intro (is_available session) participants j v);
        }

    unmatched-Chosen :
        (x : Agent) (f : Option Agent)
        → In x available
        → ((a : Agent) → f ≡ some a → In a available)
        → ((b : Agent) (c : TaskContract F) → In b available → Recognises b c → ⊥)
        → Chosen (unmatched_choice s not_after thresholds session available f)
    unfolding Chosen
    unmatched-Chosen x (some a) i at none_fits = (
      record { agent_id = a.id; contract = none; reason = general_agent },
      refl,
      plain-IsFit general_agent a (at a refl) none_fits,
    )
    unmatched-Chosen x none i at none_fits =
        let order = idle_before not_after (last_turn_index session.turns []) in
        let (a, first, j) =
          first_of-In x (sort_by order available) (In-sort_by order x available i) in
        (
          record { agent_id = a.id; contract = none; reason = idle_longest },
          rw first refl,
          plain-IsFit idle_longest a (In-of_sort_by order a available j) none_fits,
        )

    choose-Chosen :
        (x : Agent) (best : Option (Held F))
        → In x available
        → IsSearch available none best
        → Chosen (choose s not_after thresholds session available best)
    unfolding Chosen available
    choose-Chosen x none i search =
        unmatched-Chosen x (find (is_fallback session) available) i
          (λ a e. (find→In (is_fallback session) available e).0) (search.empty refl).1
    choose-Chosen x (some h) i search =
        let r = from_none (search.from h refl) in
        let (known, invited) = In-filter (is_available session) participants r.0 in
        (
          _,
          refl,
          record {
            agent = h.agent;
            known = known;
            invited = invited;
            same = refl;
            scoped = λ c e.
                let same : h.contract ≡ c = cc in
                subst (λ (d : TaskContract F). Recognises h.agent d) same r.1;
            unscoped = λ e. cc;
          },
        )
      where
        from_none :
            (none ≡ some h) ⊎ (In h.agent available × Recognises h.agent h.contract)
            → In h.agent available × Recognises h.agent h.contract
        from_none (inl e) = cc
        from_none (inr p) = p

    -- Where some Agent of the session is in the store, `selectParticipant` chooses: an Agent of the
    -- session; with a contract only where it is the Agent's own active contract and matched the
    -- instruction; and without one only where no such Agent's own contract matched it.
    pub select_participant-IsFit :
        any (is_available session) participants ≡ true
        → (r : SelectionResult F) × (select_participant s not_after thresholds session instruction
              participants contracts
            ≡ some r)
          × IsFit session participants r
    unfolding select_participant Chosen available
    select_participant-IsFit h =
        let (x, i, v) = any→In (is_available session) participants h in
        choose-Chosen x (best_of_agents s not_after thresholds instruction contracts available none)
          (In-filter_intro (is_available session) participants i v)
          (best_of_agents_lem available none)
