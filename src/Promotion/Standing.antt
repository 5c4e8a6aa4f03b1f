-- ===== src/Promotion/Standing.antt =====
-- What stands behind a contract that was promoted (apps/server/src/codify/service.ts
-- `refreshCandidates`, `approveCandidate`), and how an approval gets it.
use Prim.Native.String.{String}
use mathlib.Core.Path.{subst}
use army_of_god.Prelude.{
  ◌≡◌, refl, sym, inl, inr, Bool, true, false, List, [], ◌∷◌, ◌++◌, find, find→In, In, In-map, All,
  All→In, ◌==◌, string_eq, Option-cases,
}
use army_of_god.Text.{Text}
use army_of_god.Store.{ok, require, bind_ok}
use army_of_god.Records.{TaskContract}
use army_of_god.Scope.{Floor, normalize_scope, check_narrowing}
use army_of_god.Scope.Normal.{normalize_scope_clean}
use army_of_god.Scope.Narrow.{IsNarrower, check_narrowing_iff}
use army_of_god.Matching.{Scoring}
use army_of_god.Promotion.{
  PromptObservation, TaskCandidate, is_pending, PromotionConfig, already_decided, widened,
  get_candidate, Approval, requested_for, contract_for, prepare_approval,
}
use army_of_god.Promotion.Founded.{as_recorded, IsFounded, IsFounded-append}
use army_of_god.Promotion.Stages.{Stage}
use army_of_god.Promotion.Grown.{candidate_ids, IsGrown}

All-mono :
    {A : Type 0} (P Q : A → Type 0) (xs : List A) → ((x : A) → P x → Q x) → All P xs → All Q xs
All-mono P Q [] h a = tt
All-mono P Q (x ∷ xs) h a = (h x a.0, All-mono P Q xs h a.1)

module _ {F : Type 0} (s : Scoring F) (config : PromotionConfig F) (lower : Text → Text)
    (locale_lt : Text → Text → Bool) (floor : Floor) where
  -- The candidate stands on observations of the stage's store.
  abbrev pub StandsOn : Stage F → TaskCandidate → Type 0
  StandsOn g c = IsFounded s config lower locale_lt floor (as_recorded g.observations) g.behaviour c

  -- A candidate of the store, by its id, as it was at some time: it stands on observations of the
  -- store, and the contract's scope is within the scope that it proposed.
  abbrev pub IsPromoted : Stage F → TaskContract F → Type 0
  IsPromoted g contract =
      (c : TaskCandidate) × In c.id (candidate_ids g.candidates)
      × StandsOn g c
      × IsNarrower lower (normalize_scope lower c.proposed_scope) contract.scope

  pub record IsSound (g : Stage F) : Type 0 where
    pub candidates : All (StandsOn g) g.candidates
    pub contracts : All (IsPromoted g) g.contracts

  StandsOn-IsGrown :
      (old g : Stage F) (c : TaskCandidate) → IsGrown old g → StandsOn old c → StandsOn g c
  StandsOn-IsGrown old g c grown f =
      subst (λ l. IsFounded s config lower locale_lt floor l g.behaviour c) (sym grown.prompts.1)
        (subst
          (λ l.
            IsFounded s config lower locale_lt floor
              (as_recorded old.observations ++ grown.prompts.0) l c)
          (sym grown.behaviour.1)
          (IsFounded-append s config lower locale_lt floor (as_recorded old.observations)
            grown.prompts.0 old.behaviour grown.behaviour.0 c f))

  pub IsPromoted-IsGrown :
      (old g : Stage F) (contract : TaskContract F)
      → IsGrown old g
      → IsPromoted old contract
      → IsPromoted g contract
  IsPromoted-IsGrown old g contract grown (c, there, f, narrow) =
      (c, grown.ids c.id there, StandsOn-IsGrown old g c grown f, narrow)

  pub all_stand :
      (old g : Stage F) (cs : List TaskCandidate)
      → IsGrown old g
      → All (StandsOn old) cs
      → All (StandsOn g) cs
  all_stand old g cs grown a =
      All-mono (StandsOn old) (StandsOn g) cs (λ c f. StandsOn-IsGrown old g c grown f) a

  pub all_promoted :
      (old g : Stage F) (contracts : List (TaskContract F))
      → IsGrown old g
      → All (IsPromoted old) contracts
      → All (IsPromoted g) contracts
  all_promoted old g contracts grown a =
      All-mono (IsPromoted old) (IsPromoted g) contracts
        (λ contract f. IsPromoted-IsGrown old g contract grown f) a

  pub lift_same :
      (old g : Stage F)
      → IsGrown old g
      → g.candidates ≡ old.candidates
      → g.contracts ≡ old.contracts
      → IsSound old
      → IsSound g
  lift_same old g grown same_candidates same_contracts sound = record {
    candidates =
        subst (All (StandsOn g)) (sym same_candidates)
          (all_stand old g old.candidates grown sound.candidates);
    contracts =
        subst (All (IsPromoted g)) (sym same_contracts)
          (all_promoted old g old.contracts grown sound.contracts);
  }

  found_candidate :
      (id : String) (cs : List TaskCandidate) (c : TaskCandidate)
      → get_candidate id cs ≡ ok c
      → In c cs
  found_candidate id cs c h = elim (Option-cases (find (λ x. x.id == id) cs)) [
    | inl e ↦ absurd (cc (rw (get_candidate, e) at h))
    | inr (x, e) ↦
        let same : x ≡ c = cc (rw (get_candidate, e) at h) in
        subst (λ (y : TaskCandidate). In y cs) same
          (find→In (λ (x : TaskCandidate). x.id == id) cs e).0
  ]

  required : {E : Type 0} (b : Bool) (e : E) (u : Unit {0}) → require b e ≡ ok u → b ≡ true
  required true e u h = refl
  required false e u h = cc

  module _ (contract_name : Text → String) where
    pub approval-IsPromoted :
        (now : String) (a : Approval F) (observations : List PromptObservation) (g : Stage F)
        (contract : TaskContract F)
        → All (StandsOn g) g.candidates
        → prepare_approval lower contract_name now a observations g.candidates ≡ ok contract
        → IsPromoted g contract
    unfolding prepare_approval
    approval-IsPromoted now a observations g contract founded h =
        let (c, there, h1) = bind_ok (get_candidate a.id g.candidates) _ contract h in
        let (u, open_still, h2) =
          bind_ok (require (is_pending c.status) already_decided) _ contract h1 in
        let (v, narrow, h3) =
          bind_ok
            (require
              (check_narrowing lower (normalize_scope lower c.proposed_scope)
                (requested_for lower contract_name a c)).good
              widened)
            _ contract h2 in
        let same : contract_for lower contract_name now a c observations ≡ contract = cc in
        let within =
          (check_narrowing_iff lower (normalize_scope lower c.proposed_scope)
              (requested_for lower contract_name a c)
              (normalize_scope_clean lower c.proposed_scope).0).0
            (required _ widened v narrow) in
        let found = found_candidate a.id g.candidates c there in
        (
          c,
          In-map (λ (x : TaskCandidate). x.id) c g.candidates found,
          All→In (StandsOn g) g.candidates founded found,
          subst
              (λ (x : TaskContract F).
                IsNarrower lower (normalize_scope lower c.proposed_scope) x.scope)
              same within,
        )
