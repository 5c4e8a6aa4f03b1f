-- ===== src/Scope/Narrow.antt =====
-- `checkNarrowing` of apps/server/src/codify/scope.ts against what a scope grants.
use mathlib.Core.Path.{subst}
use army_of_god.Prelude.{
  ◌≡◌, refl, ap, sym, ◌∙◌, ◌↔◌, inl, inr, Bool, true, false, not, some, List, [], ◌∷◌, map, arith,
  filter, elem, In, In-map, In-of_map, In→elem, elem→In, IsDistinct, ◌==◌, eq→≡, eq_self,
  Bool-cases, Option-cases, filter_empty, empty_filter, length-map,
}
use army_of_god.Text.{Text, text_eq}
use army_of_god.Records.{Mode, PathGrant, CapabilityScope}
use army_of_god.Scope.{granted_mode, widens, check_narrowing}

-- A grant of the first mode allows the second: `rw` allows both, and `ro` itself only.
abbrev pub Allows : Mode → Mode → Type 0
Allows Mode.rw n = Unit
Allows Mode.ro Mode.ro = Unit
Allows Mode.ro Mode.rw = ⊥

widens-Allows : (m n : Mode) → widens (some m) n ≡ false → Allows m n
widens-Allows Mode.rw n h = tt
widens-Allows Mode.ro Mode.ro h = tt
widens-Allows Mode.ro Mode.rw h = cc

Allows-widens : (m n : Mode) → Allows m n → widens (some m) n ≡ false
Allows-widens Mode.rw n a = refl
Allows-widens Mode.ro Mode.ro a = refl
Allows-widens Mode.ro Mode.rw a = absurd a

-- Some grant of the path allows the mode.
abbrev pub IsGranted : List PathGrant → PathGrant → Type 0
IsGranted gs g = (h : PathGrant) × In h gs × (h.path ≡ g.path) × Allows h.mode g.mode

-- Every domain and secret of the edit was granted, and every path with a mode that allows its own.
pub record IsNarrower (lower : Text → Text) (original edited : CapabilityScope) : Type 0 where
  pub domains : (d : Text) → In d edited.domains → In (lower d) (map lower original.domains)
  pub secrets : (v : Text) → In v edited.secrets → In v original.secrets
  pub paths : (g : PathGrant) → In g edited.paths → IsGranted original.paths g

granted_mode_sound :
    (path : Text) (gs : List PathGrant) (m : Mode)
    → granted_mode path gs ≡ some m
    → (h : PathGrant) × In h gs × (h.path ≡ path) × (h.mode ≡ m)
unfolding granted_mode
granted_mode_sound path [] m e = cc
granted_mode_sound path (g ∷ gs) m e = elim (Option-cases (granted_mode path gs)) [
  | inl missing ↦ elim (Bool-cases (g.path == path)) [
    | inl same ↦ (g, inl refl, eq→≡ g.path path same, ground (arith, missing, same))
    | inr other ↦ ground (arith, missing, other)
  ]
  | inr (n, found) ↦
      let again : granted_mode path gs ≡ some m = ground (arith, found) in
      let (h, i, p, q) = granted_mode_sound path gs m again in (h, inr i, p, q)
]

granted_mode_complete :
    (gs : List PathGrant) (h : PathGrant)
    → IsDistinct (map (λ g. g.path) gs)
    → In h gs
    → granted_mode h.path gs ≡ some h.mode
unfolding granted_mode
granted_mode_complete [] h d i = absurd i
granted_mode_complete (g ∷ gs) h d (inr i) = rw (granted_mode_complete gs h d.1 i) refl
granted_mode_complete (g ∷ gs) h d (inl e) = elim (Option-cases (granted_mode h.path gs)) [
  | inl missing ↦ rw (missing, e, eq_self g.path) refl
  | inr (m, found) ↦
      let (k, i, p, q) = granted_mode_sound h.path gs m found in
      let twice = In-map (λ (x : PathGrant). x.path) k gs i in
      let same : k.path ≡ g.path = p ∙ ap (λ (x : PathGrant). x.path) e in
      cc (d.0, In→elem g.path (map (λ x. x.path) gs) (rw same at twice))
]

pub not_widened :
    (gs : List PathGrant) (g : PathGrant)
    → widens (granted_mode g.path gs) g.mode ≡ false
    → IsGranted gs g
not_widened gs g kept = elim (Option-cases (granted_mode g.path gs)) [
  | inl missing ↦ ground (arith, kept, missing)
  | inr (m, found) ↦
      let (k, j, p, q) = granted_mode_sound g.path gs m found in
      let allowed = widens-Allows m g.mode (rw found at kept) in
      (k, j, p, subst (λ x. Allows x g.mode) (sym q) allowed)
]

not_elem_false : (b : Bool) → not b ≡ false → b ≡ true
not_elem_false b h = ground arith

not-not_elem : (b : Bool) → b ≡ true → not b ≡ false
not-not_elem b h = ground arith

module _ (lower : Text → Text) (original edited : CapabilityScope) where
  check_narrowing_sound :
      (check_narrowing lower original edited).good ≡ true → IsNarrower lower original edited
  unfolding check_narrowing
  check_narrowing_sound h = record {
    domains = λ d i. elem→In (lower d) (map lower original.domains) (
        not_elem_false _ (
          filter_empty (λ x. not (elem x (map lower original.domains))) (map lower edited.domains)
            (ground (arith, h)) (In-map lower d edited.domains i)));
    secrets = λ v i. elem→In v original.secrets (
        not_elem_false _
          (filter_empty (λ x. not (elem x original.secrets)) edited.secrets (ground (arith, h)) i));
    paths = λ g i.
        let kept =
          filter_empty (λ (x : PathGrant). widens (granted_mode x.path original.paths) x.mode)
            edited.paths
            (ground (
              arith,
              h,
              length-map (λ (x : PathGrant). x.path)
                  (filter (λ x. widens (granted_mode x.path original.paths) x.mode) edited.paths),
            ))
            i in
        not_widened original.paths g kept;
  }

  check_narrowing_complete :
      IsDistinct (map (λ g. g.path) original.paths)
      → IsNarrower lower original edited
      → (check_narrowing lower original edited).good ≡ true
  unfolding check_narrowing
  check_narrowing_complete d n =
      let no_domain =
        empty_filter (λ x. not (elem x (map lower original.domains))) (map lower edited.domains)
          (λ x i.
            let (y, j, e) = In-of_map lower x edited.domains i in
            rw e
              (not-not_elem _ (In→elem (lower y) (map lower original.domains) (n.domains y j)))) in
      let no_secret =
        empty_filter (λ x. not (elem x original.secrets)) edited.secrets
          (λ x i. not-not_elem _ (In→elem x original.secrets (n.secrets x i))) in
      let no_path =
        empty_filter (λ (x : PathGrant). widens (granted_mode x.path original.paths) x.mode)
          edited.paths
          (λ x i.
            let (k, j, p, q) = n.paths x i in
            let found = granted_mode_complete original.paths k d j in
            rw (← p) (rw found (Allows-widens k.mode x.mode q))) in
      ground (
        arith,
        no_domain,
        no_secret,
        no_path,
        length-map (λ (x : PathGrant). x.path)
            (filter (λ x. widens (granted_mode x.path original.paths) x.mode) edited.paths),
      )

  -- Where the original grants each path once: an edit passes the check exactly when every domain
  -- (up to case), secret and path of it was granted, no path with a wider mode: `rw` is wider
  -- than `ro`.
  pub check_narrowing_iff :
      IsDistinct (map (λ g. g.path) original.paths)
      → ((check_narrowing lower original edited).good ≡ true) ↔ IsNarrower lower original edited
  check_narrowing_iff d = (check_narrowing_sound, check_narrowing_complete d)
