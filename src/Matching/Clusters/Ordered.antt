-- ===== src/Matching/Clusters/Ordered.antt =====
-- What the clusters of `clusterByMatch` are: each has items in their order, none of them twice.
use mathlib.Core.Path.{subst}
use mathlib.Core.List.{Sublistᴰ}
use mathlib.Core.List.Sublistᴰ as Sub
use army_of_god.Prelude.{
  refl, ap, sym, inl, inr, Bool, List, [], ◌∷◌, ◌++◌, map, any, filter, append-nil, append_assoc,
  update_first, Bool-cases, All, All-append,
}
use army_of_god.Matching.{Scoring, MatchCandidate, MatchThresholds}
use army_of_god.Matching.Clusters.{
  ClusterLinkage, fits, unusable, add_item, clusters_from, cluster_by_match,
}

module _ {A : Type 0} where
  pub sublist-append : (xs ys zs : List A) → Sublistᴰ xs ys → Sublistᴰ xs (ys ++ zs)
  sublist-append xs ys zs p =
      subst (λ l. Sublistᴰ l (ys ++ zs)) (append-nil xs) (Sub.append p (Sub.nil-sublist zs))

  with_last : (xs ys : List A) (z : A) → Sublistᴰ xs ys → Sublistᴰ (xs ++ z ∷ []) (ys ++ z ∷ [])
  with_last xs ys z p = Sub.append p (Sub.refl (z ∷ []))

  alone : (ys : List A) (z : A) → Sublistᴰ (z ∷ []) (ys ++ z ∷ [])
  alone ys z = Sub.append (Sub.nil-sublist ys) (Sub.refl (z ∷ []))

  pub filter-sublist : (q : A → Bool) (xs : List A) → Sublistᴰ (filter q xs) xs
  filter-sublist q [] = Sublistᴰ.slnil
  filter-sublist q (x ∷ xs) = elim (Bool-cases (q x)) [
    | inl hit ↦ rw hit (Sublistᴰ.cons-cons refl (filter-sublist q xs))
    | inr miss ↦ rw miss (Sublistᴰ.cons (filter-sublist q xs))
  ]

  pub map-sublist :
      {B : Type 0} (f : A → B) {xs ys : List A} → Sublistᴰ xs ys → Sublistᴰ (map f xs) (map f ys)
  map-sublist f Sublistᴰ.slnil = Sublistᴰ.slnil
  map-sublist f (Sublistᴰ.cons p) = Sublistᴰ.cons (map-sublist f p)
  map-sublist f (Sublistᴰ.cons-cons e p) = Sublistᴰ.cons-cons (ap f e) (map-sublist f p)

  pub All-sublist : (P : A → Type 0) {xs ys : List A} → Sublistᴰ xs ys → All P ys → All P xs
  All-sublist P Sublistᴰ.slnil a = tt
  All-sublist P (Sublistᴰ.cons p) a = All-sublist P p a.1
  All-sublist P (Sublistᴰ.cons-cons e p) a = (subst P (sym e) a.0, All-sublist P p a.1)

module _ {F T : Type 0} (s : Scoring F) (candidate : T → MatchCandidate)
    (thresholds : MatchThresholds F) (linkage : ClusterLinkage) where
  -- Every cluster is a sublist of what was clustered so far.
  abbrev AllSublists : List T → List (List T) → Type 0
  AllSublists seen clusters = All (λ c. Sublistᴰ c seen) clusters

  passed_over :
      (item : T) (seen : List T) (clusters : List (List T))
      → AllSublists seen clusters
      → AllSublists (seen ++ item ∷ []) clusters
  passed_over item seen [] a = tt
  passed_over item seen (c ∷ clusters) a =
      (sublist-append c seen (item ∷ []) a.0, passed_over item seen clusters a.1)

  grown :
      (item : T) (seen : List T) (clusters : List (List T))
      → AllSublists seen clusters
      → AllSublists (seen ++ item ∷ []) (
          update_first
            (fits s candidate thresholds linkage item)
            (λ members. members ++ item ∷ [])
            clusters)
  grown item seen [] a = tt
  grown item seen (c ∷ clusters) a =
      elim (Bool-cases (fits s candidate thresholds linkage item c)) [
        | inl hit ↦ rw hit (with_last c seen item a.0, passed_over item seen clusters a.1)
        | inr miss ↦ rw miss (sublist-append c seen (item ∷ []) a.0, grown item seen clusters a.1)
      ]

  added :
      (item : T) (seen : List T) (clusters : List (List T))
      → AllSublists seen clusters
      → AllSublists (seen ++ item ∷ []) (add_item s candidate thresholds linkage item clusters)
  added item seen clusters a = elim (Bool-cases (unusable s candidate thresholds item)) [
    | inl skip ↦ rw skip (passed_over item seen clusters a)
    | inr use_it ↦
        rw use_it (elim (Bool-cases (any (fits s candidate thresholds linkage item) clusters)) [
          | inl known ↦ rw known (grown item seen clusters a)
          | inr new ↦ rw new (
              All-append (λ c. Sublistᴰ c (seen ++ item ∷ [])) clusters ((item ∷ []) ∷ [])
                (passed_over item seen clusters a) (alone seen item, tt))
        ])
  ]

  clusters_from-AllSublists :
      (items seen : List T) (clusters : List (List T))
      → AllSublists seen clusters
      → AllSublists (seen ++ items) (clusters_from s candidate thresholds linkage items clusters)
  unfolding clusters_from
  clusters_from-AllSublists [] seen clusters a =
      subst (λ l. AllSublists l clusters) (sym (append-nil seen)) a
  clusters_from-AllSublists (item ∷ items) seen clusters a =
      subst
        (λ l. AllSublists l (
          clusters_from s candidate thresholds linkage items
            (add_item s candidate thresholds linkage item clusters)))
        (append_assoc seen (item ∷ []) items)
        (clusters_from-AllSublists items (seen ++ item ∷ [])
          (add_item s candidate thresholds linkage item clusters) (added item seen clusters a))

  pub cluster_by_match-AllSublists :
      (items : List T)
      → All (λ c. Sublistᴰ c items) (cluster_by_match s candidate thresholds linkage items)
  unfolding cluster_by_match
  cluster_by_match-AllSublists items = clusters_from-AllSublists items [] [] tt
