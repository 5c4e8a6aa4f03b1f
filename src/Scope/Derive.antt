-- ===== src/Scope/Derive.antt =====
-- What a derived scope may hold.
use army_of_god.Prelude.{
  ℕ, zero, suc, ◌*◌, ◌≤◌, ◌<◌, ◌≡◌, inl, inr, Bool, true, false, not, List, [], ◌∷◌, map, arith,
  length, take, filter, elem, In, In-filter, length-map,
}
use army_of_god.Text.{Text, text_eq}
use army_of_god.Scope.{
  CapabilityObservation, Floor, frequent, derive_scope, derived_domains, never_allow_domains,
  runtime_infrastructure_domains, max_derived_domains,
}
use army_of_god.Scope.Frequent.{occurrences, frequent_iff}

In-take : (n : ℕ) (x : Text) (xs : List Text) → In x (take n xs) → In x xs
In-take zero x xs i = absurd i
In-take (suc n) x [] i = i
In-take (suc n) x (y ∷ ys) (inl e) = inl e
In-take (suc n) x (y ∷ ys) (inr i) = inr (In-take n x ys i)

length-take_le : (n : ℕ) (xs : List Text) → length (take n xs) ≤ n
length-take_le zero xs = omega arith
length-take_le (suc n) [] = omega arith
length-take_le (suc n) (x ∷ xs) = omega (arith, length-take_le n xs)

not-true : (b : Bool) → not b ≡ true → b ≡ false
not-true b h = ground arith

-- A share of the observations has the value in the list that `part` takes of each.
abbrev pub SeenOften :
    (CapabilityObservation → List Text) → List CapabilityObservation → Floor → Text → Type 0
SeenOften part os floor v =
    (0 < occurrences v (map part os))
    × (length os * floor.part ≤ occurrences v (map part os) * floor.whole)

module _ (lower : Text → Text) (locale_lt : Text → Text → Bool) where
  seen_often :
      (part : CapabilityObservation → List Text) (os : List CapabilityObservation) (floor : Floor)
      (v : Text)
      → In v (frequent locale_lt (map part os) floor)
      → SeenOften part os floor v
  seen_often part os floor v i =
      let (some_list, share) = (frequent_iff locale_lt (map part os) floor v).0 i in
      (some_list, rw (length-map part os) at share)

  domain_seen :
      (os : List CapabilityObservation) (floor : Floor) (d : Text)
      → In d (derived_domains lower locale_lt os floor)
      → SeenOften (λ o. map lower o.domains_reached) os floor d
        × (elem d never_allow_domains ≡ false)
        × (elem d runtime_infrastructure_domains ≡ false)
  unfolding derived_domains
  domain_seen os floor d i =
      let all_frequent =
        frequent locale_lt (map (λ (o : CapabilityObservation). map lower o.domains_reached) os)
          floor in
      let allowed = filter (λ x. not (elem x never_allow_domains)) all_frequent in
      let (j, foreign) =
        In-filter (λ x. not (elem x runtime_infrastructure_domains)) allowed
          (In-take max_derived_domains d _ i) in
      let (k, safe) = In-filter (λ x. not (elem x never_allow_domains)) all_frequent j in
      (
        seen_often (λ o. map lower o.domains_reached) os floor d k,
        not-true _ safe,
        not-true _ foreign,
      )

  -- A derived scope has at most five domains. Each was reached, in lower case, by at least the
  -- given share of the runs, and is neither a metadata address nor the platform's own host. Each
  -- secret was read by at least that share of the runs.
  pub derive_scope_evidence :
      (os : List CapabilityObservation) (floor : Floor)
      → (length (derive_scope lower locale_lt os floor).domains ≤ max_derived_domains)
        × ((d : Text)
            → In d (derive_scope lower locale_lt os floor).domains
            → SeenOften (λ o. map lower o.domains_reached) os floor d
              × (elem d never_allow_domains ≡ false)
              × (elem d runtime_infrastructure_domains ≡ false))
        × ((v : Text)
            → In v (derive_scope lower locale_lt os floor).secrets
            → SeenOften (λ o. o.secrets_read) os floor v)
  unfolding derive_scope
  derive_scope_evidence [] floor = (omega arith, λ d i. absurd i, λ v i. absurd i)
  derive_scope_evidence (o ∷ os) floor = (
    unfold derived_domains in length-take_le max_derived_domains _,
    domain_seen (o ∷ os) floor,
    seen_often (λ x. x.secrets_read) (o ∷ os) floor,
  )
