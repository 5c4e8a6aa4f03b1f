-- ===== src/Matching/Clusters.antt =====
-- `clusterByMatch` of apps/server/src/codify/semantic.ts.
pub mod Ordered
use army_of_god.Prelude.{
  inl, inr, Bool, true, false, ◌&&◌, none, some, List, [], ◌∷◌, ◌++◌, all, any, update_first, ◌==◌,
  if◌then◌else◌, Bool-cases, All, All-append,
}
use army_of_god.Text.{text_eq}
use army_of_god.Matching.{Scoring, MatchCandidate, MatchThresholds, match_against, truthy_text}

pub data ClusterLinkage : Type 0 where
  seed complete : ClusterLinkage

module _ {F T : Type 0} (s : Scoring F) (candidate : T → MatchCandidate)
    (thresholds : MatchThresholds F) where
  abbrev matches : T → T → Bool
  matches member item = (match_against s (candidate member) (candidate item) thresholds).matched

  -- `members[0]` is there: no cluster is empty.
  abbrev fits : ClusterLinkage → T → List T → Bool
  fits complete item members = all (λ m. matches m item) members
  fits seed item [] = false
  fits seed item (m ∷ members) = matches m item

  -- `!item.fingerprint && !item.embedding`
  abbrev unusable : T → Bool
  unusable item =
      (candidate item).fingerprint == []
      && elim (truthy_text (candidate item).embedding) [ none ↦ true | some e ↦ false ]

  abbrev join_cluster : ClusterLinkage → T → List (List T) → List (List T)
  join_cluster linkage item clusters =
      if any (fits linkage item) clusters
      then update_first (fits linkage item) (λ members. members ++ item ∷ []) clusters
      else clusters ++ (item ∷ []) ∷ []

  abbrev add_item : ClusterLinkage → T → List (List T) → List (List T)
  add_item linkage item clusters =
      if unusable item then clusters else join_cluster linkage item clusters

  pub clusters_from : ClusterLinkage → List T → List (List T) → List (List T)
  clusters_from linkage [] clusters = clusters
  clusters_from linkage (item ∷ items) clusters =
      clusters_from linkage items (add_item linkage item clusters)

  unfoldable pub cluster_by_match : ClusterLinkage → List T → List (List T)
  unfolding clusters_from
  cluster_by_match linkage items = clusters_from linkage items []
