-- ===== src/Matching.antt =====
-- apps/server/src/codify/semantic.ts and the helpers of service.ts around it: how a prompt is
-- scored against the exemplars of a contract. Scores are of a type `F` with the operations that
-- the code applies to them; the score of one channel is an argument.
pub mod Clusters
use army_of_god.Prelude.{
  ℕ, suc, Bool, false, not, ◌&&◌, Option, none, some, List, [], ◌∷◌, get_elem?, if◌then◌else◌,
}
use army_of_god.Text.{Text}
use army_of_god.Records.{
  MatchChannel, fingerprint, containment, semantic, MatchScores, TaskContract,
}

pub record MatchCandidate : Type 0 where
  pub fingerprint : Text
  pub canonical_form : Text
  pub embedding : Option Text

pub record MatchThresholds (F : Type 0) : Type 0 where
  pub fingerprint : F
  pub containment : F
  pub semantic : F

pub record MatchResult (F : Type 0) : Type 0 where
  pub matched : Bool
  pub channel : MatchChannel
  pub score : F
  pub confidence : F
  pub scores : MatchScores F

-- The numbers of the source, and the scores of the three channels.
pub record Scoring (F : Type 0) : Type 0 where
  -- `a < b`
  pub less : F → F → Bool
  pub nought : F
  pub quotient : F → F → F
  pub difference : F → F → F
  -- `Number(x.toFixed(3))`
  pub rounded : F → F
  -- `NEAR_MATCH_FRACTION`
  pub near_match_fraction : F
  pub fingerprint_score : Text → Text → F
  pub containment_score : Text → Text → F
  pub semantic_score : Option Text → Option Text → F

abbrev in_channel : {F : Type 0} → MatchChannel → MatchScores F → F
in_channel fingerprint s = s.fingerprint
in_channel containment s = s.containment
in_channel semantic s = s.semantic

abbrev threshold_of : {F : Type 0} → MatchChannel → MatchThresholds F → F
threshold_of fingerprint t = t.fingerprint
threshold_of containment t = t.containment
threshold_of semantic t = t.semantic

-- `contract.matchCanonicalForms?.[index] ?? ""`
abbrev form_at : Option (List Text) → ℕ → Text
form_at none index = []
form_at (some forms) index = elim (get_elem? forms index) [ none ↦ [] | some form ↦ form ]

-- An empty string counts as no embedding.
abbrev pub truthy_text : Option Text → Option Text
truthy_text none = none
truthy_text (some []) = none
truthy_text (some (c ∷ cs)) = some (c ∷ cs)

abbrev embedding_at : Option (List (Option Text)) → ℕ → Option Text
embedding_at none index = none
embedding_at (some es) index = elim (get_elem? es index) [ none ↦ none | some e ↦ truthy_text e ]

abbrev exemplars_from :
    Option (List Text) → Option (List (Option Text)) → ℕ → List Text → List MatchCandidate
exemplars_from forms embeddings index [] = []
exemplars_from forms embeddings index (f ∷ fs) =
    record {
      fingerprint = f;
      canonical_form = form_at forms index;
      embedding = embedding_at embeddings index;
    }
    ∷ exemplars_from forms embeddings (suc index) fs

abbrev given : {F : Type 0} → Option F → F → F
given none x = x
given (some x) y = x

module _ {F : Type 0} where
  unfoldable pub contract_exemplars : TaskContract F → List MatchCandidate
  contract_exemplars c =
      exemplars_from c.match_canonical_forms c.match_embeddings 0 c.match_fingerprints

  -- The configuration's thresholds count where the contract has none.
  unfoldable pub contract_thresholds : F → F → TaskContract F → MatchThresholds F
  contract_thresholds config_containment config_semantic c = record {
    fingerprint = c.match_threshold;
    containment = given c.containment_threshold config_containment;
    semantic = given c.semantic_threshold config_semantic;
  }

module _ {F : Type 0} (s : Scoring F) where
  abbrev channel_scores : MatchCandidate → MatchCandidate → MatchScores F
  channel_scores exemplar prompt = record {
    fingerprint = s.fingerprint_score exemplar.fingerprint prompt.fingerprint;
    containment = s.containment_score exemplar.canonical_form prompt.canonical_form;
    semantic = s.semantic_score exemplar.embedding prompt.embedding;
  }

  abbrev in_this_channel : MatchScores F → F → MatchChannel → MatchResult F
  in_this_channel scores threshold channel = record {
    matched = not (s.less (in_channel channel scores) threshold);
    channel = channel;
    score = in_channel channel scores;
    confidence = s.quotient (in_channel channel scores) threshold;
    scores = scores;
  }

  -- One round of the loop: a channel without a positive threshold does not count.
  abbrev pub through_channel :
      MatchScores F → MatchThresholds F → MatchChannel → MatchResult F → MatchResult F
  through_channel scores thresholds channel best =
      let threshold = threshold_of channel thresholds in
      let result = in_this_channel scores threshold channel in
      if s.less s.nought threshold && s.less best.confidence result.confidence then result else best

  unfoldable pub match_against : MatchCandidate → MatchCandidate → MatchThresholds F → MatchResult F
  match_against exemplar prompt thresholds =
      let scores = channel_scores exemplar prompt in
      through_channel scores thresholds semantic (
        through_channel scores thresholds containment (
          through_channel scores thresholds fingerprint (record {
            matched = false;
            channel = fingerprint;
            score = scores.fingerprint;
            confidence = s.nought;
            scores = scores;
          })))

  abbrev better : Option (MatchResult F) → MatchResult F → Option (MatchResult F)
  better none result = some result
  better (some best) result =
      if s.less best.confidence result.confidence then some result else some best

  abbrev best_of :
      MatchCandidate
      → MatchThresholds F
      → Option (MatchResult F)
      → List MatchCandidate
      → Option (MatchResult F)
  best_of prompt thresholds best [] = best
  best_of prompt thresholds best (e ∷ es) =
      best_of prompt thresholds (better best (match_against e prompt thresholds)) es

  abbrev no_exemplar : MatchResult F
  no_exemplar = record {
    matched = false;
    channel = fingerprint;
    score = s.nought;
    confidence = s.nought;
    scores = record { fingerprint = s.nought; containment = s.nought; semantic = s.nought };
  }

  unfoldable pub best_match :
      List MatchCandidate → MatchCandidate → MatchThresholds F → MatchResult F
  unfolding match_against
  best_match exemplars prompt thresholds =
      given (best_of prompt thresholds none exemplars) no_exemplar
