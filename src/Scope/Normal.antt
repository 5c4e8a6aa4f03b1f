-- ===== src/Scope/Normal.antt =====
-- What `normalizeScope` returns.
use army_of_god.Prelude.{
  ◌≡◌, refl, inl, inr, ◌⊎◌, Bool, true, false, not, List, [], ◌∷◌, map, arith, filter, elem, dedupe,
  In, In-filter, IsDistinct, not-In→elem, Bool-cases, ◌==◌, In→elem,
}
use army_of_god.Text.{Text, text_eq, trim}
use army_of_god.Records.{PathGrant, CapabilityScope}
use army_of_god.Scope.{first_of_path, normalize_grant, normalize_scope, never_allow_domains}

abbrev paths_of : List PathGrant → List Text
paths_of gs = map (λ g. g.path) gs

first_of_path_fresh :
    (seen : List Text) (gs : List PathGrant) (p : Text)
    → In p (paths_of (first_of_path seen gs))
    → elem p seen ≡ false
unfolding first_of_path
first_of_path_fresh seen [] p i = absurd i
first_of_path_fresh seen (g ∷ gs) p i = elim (Bool-cases (elem g.path seen)) [
  | inl old ↦ first_of_path_fresh seen gs p (rw old at i)
  | inr new ↦
      let j : (p ≡ g.path) ⊎ In p (paths_of (first_of_path (g.path ∷ seen) gs)) = rw new at i in
      elim j [
        | inl e ↦ rw e new
        | inr k ↦ ground (arith, first_of_path_fresh (g.path ∷ seen) gs p k)
      ]
]

first_of_path-IsDistinct :
    (seen : List Text) (gs : List PathGrant) → IsDistinct (paths_of (first_of_path seen gs))
unfolding first_of_path
first_of_path-IsDistinct seen [] = tt
first_of_path-IsDistinct seen (g ∷ gs) = elim (Bool-cases (elem g.path seen)) [
  | inl old ↦ rw old (first_of_path-IsDistinct seen gs)
  | inr new ↦ rw new (
    not-In→elem g.path _ (λ i. cc (
      first_of_path_fresh (g.path ∷ seen) gs g.path i,
      In→elem g.path (g.path ∷ seen) (inl refl),
    )),
    first_of_path-IsDistinct (g.path ∷ seen) gs,
  )
]

-- A normalised scope grants each path once.
pub normalize_scope-IsDistinct :
    (lower : Text → Text) (s : CapabilityScope)
    → IsDistinct (map (λ g. g.path) (normalize_scope lower s).paths)
unfolding normalize_scope
normalize_scope-IsDistinct lower s = first_of_path-IsDistinct [] (map normalize_grant s.paths)

-- A normalised scope grants each path once, names no metadata address, and holds no empty domain or
-- secret.
pub normalize_scope_clean :
    (lower : Text → Text) (s : CapabilityScope)
    → IsDistinct (map (λ g. g.path) (normalize_scope lower s).paths)
      × ((d : Text)
          → In d (normalize_scope lower s).domains
          → (elem d never_allow_domains ≡ false) × ((d == []) ≡ false))
      × ((v : Text) → In v (normalize_scope lower s).secrets → (v == []) ≡ false)
unfolding normalize_scope
normalize_scope_clean lower s = (
  first_of_path-IsDistinct [] (map normalize_grant s.paths),
  λ d i.
      let named = dedupe (map (λ d. lower (trim d)) s.domains) in
      let (j, safe) =
        In-filter (λ x. not (elem x never_allow_domains)) (filter (λ x. not (x == [])) named) i in
      let (k, full) = In-filter (λ x. not (x == [])) named j in (not-true _ safe, not-true _ full),
  λ v i. not-true _ (In-filter (λ x. not (x == [])) (dedupe (map trim s.secrets)) i).1,
)
  where
    not-true : (b : Bool) → not b ≡ true → b ≡ false
    not-true b h = ground arith
