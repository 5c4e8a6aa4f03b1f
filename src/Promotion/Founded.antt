-- ===== src/Promotion/Founded.antt =====
-- What a candidate stands on (apps/server/src/codify/service.ts `refreshCandidates`,
-- `approveCandidate`, `rejectCandidate`): observations that the store holds.
use Prim.Native.String.{String}
use mathlib.Core.List.{Sublistᴰ}
use mathlib.Core.List.Sublistᴰ as Sub
use army_of_god.Prelude.{
  ◌≤◌, ◌≡◌, ◌≢◌, refl, sym, ap, ◌∙◌, inl, inr, Bool, true, false, none, List, [], ◌∷◌, ◌++◌, arith,
  append-nil, map, length, any, filter, update_first, In, In-filter, All, In→All, All-append,
  append_assoc, IsDistinct, dedupe, dedupe-IsDistinct, In-of_dedupe, ◌==◌, eq_false→≢,
  if◌then◌else◌, string_eq, Bool-cases,
}
use army_of_god.Text.{Text, text_eq}
use army_of_god.Scope.{CapabilityObservation, Floor, derive_scope}
use army_of_god.Matching.{Scoring}
use army_of_god.Matching.Clusters.Ordered.{
  sublist-append, filter-sublist, map-sublist, All-sublist, cluster_by_match-AllSublists,
}
use army_of_god.Promotion.{
  PromptObservation, TaskCandidate, CandidateStatus, is_pending, PromotionConfig, is_eligible,
  as_candidate, capabilities_of, Wording, too_few, proposal_of, proposals_of, propose, refreshed,
  refresh_one, add_proposal, merge_proposals, mark_candidate,
}

All-update_first :
    {A : Type 0} (P : A → Type 0) (p : A → Bool) (f : A → A) (xs : List A)
    → ((x : A) → P x → P (f x))
    → All P xs
    → All P (update_first p f xs)
All-update_first P p f [] h a = tt
All-update_first P p f (x ∷ xs) h a = elim (Bool-cases (p x)) [
  | inl hit ↦ rw hit (h x a.0, a.1)
  | inr miss ↦ rw miss (a.0, All-update_first P p f xs h a.1)
]

-- An observation as it was recorded: the embedding alone may be filled in later.
abbrev pub without_embedding : PromptObservation → PromptObservation
without_embedding m = record m { embedding = none }

abbrev pub as_recorded : List PromptObservation → List PromptObservation
as_recorded os = map without_embedding os

-- It may count for a candidate.
abbrev pub MayCount : PromptObservation → Type 0
MayCount m = (m.promotion_eligible ≡ true) × (m.fingerprint ≢ [])

eligible-MayCount : (m : PromptObservation) → is_eligible m ≡ true → MayCount m
eligible-MayCount m h = (ground arith, eq_false→≢ m.fingerprint [] (ground arith))

filter-MayCount : (os : List PromptObservation) → All MayCount (filter is_eligible os)
filter-MayCount os =
    In→All MayCount (filter is_eligible os)
      (λ m i. eligible-MayCount m (In-filter is_eligible os i).1)

module _ {F : Type 0} (s : Scoring F) (config : PromotionConfig F) (lower : Text → Text)
    (locale_lt : Text → Text → Bool) (floor : Floor) where
  -- The candidate stands on observations of the store, `recorded` and `behaviour`: on some of the
  -- prompts, none of them taken twice, that may count, as many as the settings ask for and from as
  -- many people; and on what the store knew at some time of the behaviour of their runs.
  pub record IsFounded (recorded : List PromptObservation) (behaviour : List CapabilityObservation)
      (c : TaskCandidate) : Type 0 where
    pub members : List PromptObservation
    pub observed : List CapabilityObservation
    pub held : Sublistᴰ (as_recorded members) recorded
    pub so_far : (more : List CapabilityObservation) × (behaviour ≡ observed ++ more)
    pub runs : c.exemplar_run_ids ≡ map (λ m. m.run_id) members
    pub eligible : All MayCount members
    pub often : (c.occurrences ≡ length members) × (config.min_occurrences ≤ c.occurrences)
    pub by_several :
        (users : List String) × IsDistinct users
        × All (λ u. In u (map (λ m. m.user_id) members)) users
        × (c.distinct_users ≡ length users)
        × (config.min_distinct_users ≤ c.distinct_users)
    pub scope :
        c.proposed_scope ≡ derive_scope lower locale_lt (capabilities_of observed members) floor

  -- More observations take nothing away.
  pub IsFounded-append :
      (recorded more : List PromptObservation) (behaviour known : List CapabilityObservation)
      (c : TaskCandidate)
      → IsFounded recorded behaviour c
      → IsFounded (recorded ++ more) (behaviour ++ known) c
  IsFounded-append recorded more behaviour known c f = record {
    members = f.members;
    observed = f.observed;
    held = sublist-append (as_recorded f.members) recorded more f.held;
    so_far = (
      f.so_far.0 ++ known,
      ap (λ l. l ++ known) f.so_far.1 ∙ append_assoc f.observed f.so_far.0 known,
    );
    runs = f.runs;
    eligible = f.eligible;
    often = f.often;
    by_several = f.by_several;
    scope = f.scope;
  }

  enough-IsFounded :
      (now : String) (words : Wording) (os : List CapabilityObservation)
      (recorded members : List PromptObservation)
      → Sublistᴰ (as_recorded members) recorded
      → All MayCount members
      → too_few s config lower locale_lt floor members ≡ false
      → IsFounded recorded os (proposal_of s config lower locale_lt floor now words os members)
  enough-IsFounded now words os recorded members part counts enough = record {
    members = members;
    observed = os;
    held = part;
    so_far = ([], sym (append-nil os));
    runs = refl;
    eligible = counts;
    often = (refl, ground (arith, enough));
    by_several = (
      dedupe (map (λ m. m.user_id) members),
      dedupe-IsDistinct (map (λ m. m.user_id) members),
      In→All (λ u. In u (map (λ m. m.user_id) members)) (dedupe (map (λ m. m.user_id) members))
          (In-of_dedupe (map (λ m. m.user_id) members)),
      refl,
      ground (arith, enough),
    );
    scope = refl;
  }

  proposals-IsFounded :
      (now : String) (words : Wording) (os : List CapabilityObservation)
      (items : List PromptObservation) (groups : List (List PromptObservation))
      → All MayCount items
      → All (λ g. Sublistᴰ g items) groups
      → (recorded : List PromptObservation) → Sublistᴰ (as_recorded items) recorded
      → All
          (IsFounded recorded os)
          (proposals_of s config lower locale_lt floor now words os groups)
  unfolding proposals_of
  proposals-IsFounded now words os items [] counts a recorded part = tt
  proposals-IsFounded now words os items (g ∷ groups) counts a recorded part =
      let more = proposals-IsFounded now words os items groups counts a.1 recorded part in
      elim (Bool-cases (too_few s config lower locale_lt floor g)) [
        | inl few ↦ rw few more
        | inr enough ↦ rw enough (
          enough-IsFounded now words os recorded g
              (Sub.trans (map-sublist without_embedding a.0) part) (All-sublist MayCount a.0 counts)
              enough,
          more,
        )
      ]

  pub propose-IsFounded :
      (now : String) (words : Wording) (os : List CapabilityObservation)
      (observations : List PromptObservation)
      → All
          (IsFounded (as_recorded observations) os)
          (propose s config lower locale_lt floor now words os observations)
  unfolding propose
  propose-IsFounded now words os observations =
      proposals-IsFounded now words os (filter is_eligible observations) _
        (filter-MayCount observations)
        (cluster_by_match-AllSublists s as_candidate config.thresholds config.linkage
          (filter is_eligible observations))
        (as_recorded observations)
        (map-sublist without_embedding (filter-sublist is_eligible observations))

  module _ (recorded : List PromptObservation) (behaviour : List CapabilityObservation) where
    refresh-IsFounded :
        (b : Bool) (p c : TaskCandidate)
        → IsFounded recorded behaviour p
        → IsFounded recorded behaviour c
        → IsFounded recorded behaviour (if b then refreshed p c else c)
    refresh-IsFounded true p c f g = record {
      members = f.members;
      observed = f.observed;
      held = f.held;
      so_far = f.so_far;
      runs = f.runs;
      eligible = f.eligible;
      often = f.often;
      by_several = f.by_several;
      scope = f.scope;
    }
    refresh-IsFounded false p c f g = g

    decided-IsFounded :
        (now : String) (status : CandidateStatus) (c : TaskCandidate)
        → IsFounded recorded behaviour c
        → IsFounded recorded behaviour (record c { status = status; updated_at = now })
    decided-IsFounded now status c g = record {
      members = g.members;
      observed = g.observed;
      held = g.held;
      so_far = g.so_far;
      runs = g.runs;
      eligible = g.eligible;
      often = g.often;
      by_several = g.by_several;
      scope = g.scope;
    }

    pub mark_candidate-IsFounded :
        (now id : String) (status : CandidateStatus) (cs : List TaskCandidate)
        → All (IsFounded recorded behaviour) cs
        → All (IsFounded recorded behaviour) (mark_candidate now id status cs)
    mark_candidate-IsFounded now id status cs a =
        All-update_first (IsFounded recorded behaviour) (λ c. c.id == id)
          (λ c. record c { status = status; updated_at = now }) cs (decided-IsFounded now status) a

    pub merge-IsFounded :
        (ps cs : List TaskCandidate)
        → All (IsFounded recorded behaviour) ps
        → All (IsFounded recorded behaviour) cs
        → All (IsFounded recorded behaviour) (merge_proposals ps cs)
    unfolding merge_proposals
    merge-IsFounded [] cs f g = g
    merge-IsFounded (p ∷ ps) cs f g =
        merge-IsFounded ps (add_proposal p cs) f.1
          (elim (Bool-cases (any (λ c. c.cluster_key == p.cluster_key) cs)) [
            | inl known ↦ rw known (
                All-update_first (IsFounded recorded behaviour)
                  (λ c. c.cluster_key == p.cluster_key) (refresh_one p) cs
                  (λ c h. refresh-IsFounded (is_pending c.status) p c f.0 h) g)
            | inr new ↦ rw new (All-append (IsFounded recorded behaviour) cs (p ∷ []) g (f.0, tt))
          ])
