-- ===== src/Agents/Deleted.antt =====
-- What `deleteAgent` of apps/server/src/agent-service.ts leaves.
use Prim.Native.String.{String}
use mathlib.Core.Path.{subst}
use army_of_god.Prelude.{
  ◌≡◌, ◌≢◌, ◌↔◌, refl, true, not, some, List, filter, map, In, In-filter, In-filter_intro,
  In-of_map, ◌==◌, eq→≡, eq_self, string_eq, if◌then◌else◌, Bool-cases, inl, inr,
}
use army_of_god.Store.{ok, bind_ok}
use army_of_god.Records.{TaskContract, is_active}
use army_of_god.Records.Runs.{Agent, Message, AgentRun}
use army_of_god.Matching.{Scoring}
use army_of_god.Routing.{RoutingConfig, RouteInput, route}
use army_of_god.Routing.Kept.{route_held, route_handed}
use army_of_god.Runs.{Desk}
use army_of_god.Contracts.{deprecate}
use army_of_god.Agents.{get_agent, remove_agent, delete_agent}

-- A filter on an id keeps what has another id, and nothing that has this one.
module _ {A : Type 0} (key : A → String) (id : String) where
  without-In :
      (x : A) (xs : List A) → In x xs → key x ≢ id → In x (filter (λ y. not (key y == id)) xs)
  without-In x xs i ne =
      In-filter_intro (λ y. not (key y == id)) xs i
        (elim (Bool-cases (key x == id)) [
          | inl same ↦ absurd (ne (eq→≡ (key x) id same))
          | inr apart ↦ rw apart refl
        ])

  In-without :
      (x : A) (xs : List A) → In x (filter (λ y. not (key y == id)) xs) → In x xs × (key x ≢ id)
  In-without x xs i =
      let (there, kept) = In-filter (λ y. not (key y == id)) xs i in
      (there, λ e. cc (kept, e, eq_self id))

module _ {F : Type 0} (id : String) where
  -- The store before and after an Agent is deleted.
  pub record IsDeleted (d d' : Desk F) (contracts contracts' : List (TaskContract F)) : Type 0 where
    pub agents : (a : Agent) → (In a d.agents × (a.id ≢ id)) ↔ In a d'.agents
    pub messages : (m : Message) → (In m d.messages × (m.agent_id ≢ id)) ↔ In m d'.messages
    pub runs : (r : AgentRun F) → (In r d.runs × (r.agent_id ≢ id)) ↔ In r d'.runs
    -- No turn runs under a contract of the Agent, and none is handed to it.
    pub unbound :
        (s : Scoring F) (config : RoutingConfig F) (input : RouteInput) (c : TaskContract F)
        → (route s config input contracts').contract ≡ some c
        → c.agent_id ≢ id
    pub unrouted :
        (s : Scoring F) (config : RoutingConfig F) (input : RouteInput)
        → (route s config input contracts').delegate_to_agent_id ≢ some id

  ended : (c : TaskContract F) → TaskContract F
  ended c = if c.agent_id == id then deprecate c else c

  active_elsewhere :
      (contracts : List (TaskContract F)) (c : TaskContract F)
      → In c (map ended contracts)
      → is_active c.status ≡ true
      → c.agent_id ≢ id
  unfolding ended
  active_elsewhere contracts c i alive e =
      let (b, j, same) = In-of_map ended c contracts i in
      elim (Bool-cases (b.agent_id == id)) [
        | inl hit ↦ cc (rw hit at same, alive)
        | inr miss ↦ let same' : c ≡ b = rw miss at same in cc (miss, same', e, eq_self id)
      ]

  remove_agent-IsDeleted :
      (d : Desk F) (contracts : List (TaskContract F))
      → IsDeleted d (remove_agent id (d, contracts)).0 contracts (remove_agent id (d, contracts)).1
  unfolding remove_agent ended
  remove_agent-IsDeleted d contracts = record {
    agents = λ a.
        (λ p. without-In (λ x. x.id) id a d.agents p.0 p.1, In-without (λ x. x.id) id a d.agents);
    messages = λ m. (
      λ p. without-In (λ x. x.agent_id) id m d.messages p.0 p.1,
      In-without (λ x. x.agent_id) id m d.messages,
    );
    runs = λ r. (
      λ p. without-In (λ x. x.agent_id) id r d.runs p.0 p.1,
      In-without (λ x. x.agent_id) id r d.runs,
    );
    unbound = λ s config input c e.
        let (i, alive) = route_held s config input (map ended contracts) c e in
        active_elsewhere contracts c i alive;
    unrouted = λ s config input e.
        let (c, i, alive, same) = route_handed s config input (map ended contracts) id e in
        active_elsewhere contracts c i alive same;
  }

  -- Where `deleteAgent` deletes an Agent: exactly its own record, messages and runs are gone, and
  -- with the contracts as they are right after the deletion, whatever is asked and however prompts
  -- are scored, no turn is bound to a contract of the Agent or handed to it.
  pub delete_agent-IsDeleted :
      (seen : List Agent) (d d' : Desk F) (contracts contracts' : List (TaskContract F))
      → delete_agent id seen (d, contracts) ≡ ok (d', contracts')
      → IsDeleted d d' contracts contracts'
  unfolding delete_agent
  delete_agent-IsDeleted seen d d' contracts contracts' h =
      let (a, there, e) = bind_ok (get_agent id seen) _ (d', contracts') h in
      let same : remove_agent id (d, contracts) ≡ (d', contracts') = cc in
      subst (λ (x : Desk F × List (TaskContract F)). IsDeleted d x.0 contracts x.1) same
        (remove_agent-IsDeleted d contracts)
