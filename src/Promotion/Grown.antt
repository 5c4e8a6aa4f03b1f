-- ===== src/Promotion/Grown.antt =====
-- What of the store only grows under the calls of service.ts that lead to a contract.
use Prim.Native.String.{String}
use army_of_god.Prelude.{
  ◌≡◌, refl, ap, sym, ◌∙◌, inl, inr, Bool, true, false, Option, none, some, List, [], ◌∷◌, ◌++◌,
  append-nil, append_assoc, map, any, update_first, In, In-append_left, ◌==◌, string_eq,
  if◌then◌else◌, Bool-cases,
}
use army_of_god.Text.{Text}
use army_of_god.Records.{TaskContract}
use army_of_god.Scope.{CapabilityObservation}
use army_of_god.Matching.{truthy_text}
use army_of_god.Promotion.{
  PromptObservation, TaskCandidate, CandidateStatus, is_pending, refreshed, refresh_one,
  add_proposal, merge_proposals, mark_candidate, record_prompt, record_behaviour, embed_one,
  backfill,
}
use army_of_god.Promotion.Founded.{as_recorded, without_embedding}
use army_of_god.Promotion.Stages.{Stage}

abbrev pub candidate_ids : List TaskCandidate → List String
candidate_ids cs = map (λ c. c.id) cs

-- What a later stage still has: the observations as they were recorded, and every candidate's id.
pub record IsGrown {F : Type 0} (old g : Stage F) : Type 0 where
  pub prompts :
      (more : List PromptObservation) × (as_recorded g.observations
        ≡ as_recorded old.observations ++ more)
  pub behaviour : (more : List CapabilityObservation) × (g.behaviour ≡ old.behaviour ++ more)
  pub ids : (x : String) → In x (candidate_ids old.candidates) → In x (candidate_ids g.candidates)

map-concat :
    {A B : Type 0} (f : A → B) (xs : List A) (x : A) → map f (xs ++ x ∷ []) ≡ map f xs ++ f x ∷ []
map-concat f [] x = refl
map-concat f (y ∷ ys) x = ap (λ l. f y ∷ l) (map-concat f ys x)

embed_one-recorded :
    (embedded : String → Option Text) (o : PromptObservation)
    → without_embedding (embed_one embedded o) ≡ without_embedding o
embed_one-recorded embedded o = by_packed (truthy_text (embedded o.id))
  where
    by_packed :
        (packed : Option Text)
        → without_embedding (elim packed [ none ↦ o | some p ↦ record o { embedding = some p } ])
          ≡ without_embedding o
    by_packed none = refl
    by_packed (some p) = refl

backfill-recorded :
    (embedded : String → Option Text) (os : List PromptObservation)
    → as_recorded (backfill embedded os) ≡ as_recorded os
backfill-recorded embedded [] = refl
backfill-recorded embedded (o ∷ os) =
    ap (λ x. x ∷ as_recorded (backfill embedded os)) (embed_one-recorded embedded o)
    ∙ ap (λ l. without_embedding o ∷ l) (backfill-recorded embedded os)

module _ {F : Type 0} where
  pub same-IsGrown : (g : Stage F) → IsGrown g g
  same-IsGrown g = record {
    prompts = ([], sym (append-nil (as_recorded g.observations)));
    behaviour = ([], sym (append-nil g.behaviour));
    ids = λ x i. i;
  }

  pub IsGrown-trans : (a b c : Stage F) → IsGrown a b → IsGrown b c → IsGrown a c
  IsGrown-trans a b c p q = record {
    prompts = (
      p.prompts.0 ++ q.prompts.0,
      q.prompts.1
          ∙ ap (λ l. l ++ q.prompts.0) p.prompts.1
          ∙ append_assoc (as_recorded a.observations) p.prompts.0 q.prompts.0,
    );
    behaviour = (
      p.behaviour.0 ++ q.behaviour.0,
      q.behaviour.1
          ∙ ap (λ l. l ++ q.behaviour.0) p.behaviour.1
          ∙ append_assoc a.behaviour p.behaviour.0 q.behaviour.0,
    );
    ids = λ x i. q.ids x (p.ids x i);
  }

  pub prompt-IsGrown :
      (o : PromptObservation) (g : Stage F)
      → IsGrown g (record g { observations = record_prompt o g.observations })
  prompt-IsGrown o g = record {
    prompts = (without_embedding o ∷ [], map-concat without_embedding g.observations o);
    behaviour = ([], sym (append-nil g.behaviour));
    ids = λ x i. i;
  }

  pub behaviour-IsGrown :
      (o : CapabilityObservation) (g : Stage F)
      → IsGrown g (record g { behaviour = record_behaviour o g.behaviour })
  behaviour-IsGrown o g = record {
    prompts = ([], sym (append-nil (as_recorded g.observations)));
    behaviour = (o ∷ [], refl);
    ids = λ x i. i;
  }

  pub backfill-IsGrown :
      (embedded : String → Option Text) (g : Stage F)
      → IsGrown g (record g { observations = backfill embedded g.observations })
  backfill-IsGrown embedded g = record {
    prompts = (
      [],
      backfill-recorded embedded g.observations ∙ sym (append-nil (as_recorded g.observations)),
    );
    behaviour = ([], sym (append-nil g.behaviour));
    ids = λ x i. i;
  }

  -- The candidates change, and none of them goes.
  pub candidates-IsGrown :
      (g : Stage F) (cs : List TaskCandidate) (contracts : List (TaskContract F))
      → ((x : String) → In x (candidate_ids g.candidates) → In x (candidate_ids cs))
      → IsGrown g (record g { candidates = cs; contracts = contracts })
  candidates-IsGrown g cs contracts h = record {
    prompts = ([], sym (append-nil (as_recorded g.observations)));
    behaviour = ([], sym (append-nil g.behaviour));
    ids = h;
  }

ids-update_first :
    (p : TaskCandidate → Bool) (f : TaskCandidate → TaskCandidate) (cs : List TaskCandidate)
    → ((c : TaskCandidate) → (f c).id ≡ c.id)
    → candidate_ids (update_first p f cs) ≡ candidate_ids cs
ids-update_first p f [] h = refl
ids-update_first p f (c ∷ cs) h = elim (Bool-cases (p c)) [
  | inl hit ↦ rw hit (ap (λ x. x ∷ candidate_ids cs) (h c))
  | inr miss ↦ rw miss (ap (λ l. c.id ∷ l) (ids-update_first p f cs h))
]

pub ids-mark_candidate :
    (now id : String) (status : CandidateStatus) (cs : List TaskCandidate)
    → candidate_ids (mark_candidate now id status cs) ≡ candidate_ids cs
ids-mark_candidate now id status cs =
    ids-update_first (λ c. c.id == id) (λ c. record c { status = status; updated_at = now }) cs
      (λ c. refl)

id-refresh_one : (p c : TaskCandidate) → (refresh_one p c).id ≡ c.id
id-refresh_one p c = by_status (is_pending c.status)
  where
    by_status : (b : Bool) → (if b then refreshed p c else c).id ≡ c.id
    by_status true = refl
    by_status false = refl

In-add_proposal :
    (p : TaskCandidate) (cs : List TaskCandidate) (x : String)
    → In x (candidate_ids cs)
    → In x (candidate_ids (add_proposal p cs))
In-add_proposal p cs x i = elim (Bool-cases (any (λ c. c.cluster_key == p.cluster_key) cs)) [
  | inl known ↦
      rw
        (
          known,
          ids-update_first (λ c. c.cluster_key == p.cluster_key) (refresh_one p) cs
              (id-refresh_one p),
        )
        i
  | inr new ↦
      rw (new, map-concat (λ (c : TaskCandidate). c.id) cs p)
        (In-append_left x (candidate_ids cs) (p.id ∷ []) i)
]

pub In-merge_proposals :
    (ps cs : List TaskCandidate) (x : String)
    → In x (candidate_ids cs)
    → In x (candidate_ids (merge_proposals ps cs))
unfolding merge_proposals
In-merge_proposals [] cs x i = i
In-merge_proposals (p ∷ ps) cs x i =
    In-merge_proposals ps (add_proposal p cs) x (In-add_proposal p cs x i)
