-- ===== src/Contracts/Justified.antt =====
-- The scope of a revision (service.ts `reviseContract`) against the recorded denials.
use Prim.Native.String.{String}
use army_of_god.Prelude.{
  ◌≡◌, refl, sym, ◌⊎◌, inl, inr, Bool, true, false, not, List, [], ◌∷◌, ◌++◌, map, arith, length,
  filter, elem, In, In-map, elem→In, nat_beq, Bool-cases, filter_empty, In-filter_intro,
  length-append, nat_beq_iff,
}
use army_of_god.Text.{Text, text_eq}
use army_of_god.Store.{Result, ok, err, ◌>>◌, require}
use army_of_god.Records.{PathGrant, CapabilityScope, TaskContract, is_active, DenialEvent}
use army_of_god.Scope.{granted_mode, widens, check_narrowing, normalize_scope, NarrowingCheck}
use army_of_god.Scope.Narrow.{IsGranted, not_widened}
use army_of_god.Contracts.{
  Revision, ContractError, denied_targets, unjustified, check_evidence, requested_scope,
  next_version, revise_current, not_active, nothing_to_change,
}

not-false : (b : Bool) → not b ≡ false → b ≡ true
not-false b h = ground arith

-- What passes the test and not the second one, where nothing is left.
left_over :
    (f : Text → Text) (denied xs : List Text)
    → length (filter (λ d. not (elem (f d) denied)) xs) ≡ 0
    → (x : Text) → In x xs
    → In (f x) denied
left_over f denied xs h x i =
    elem→In (f x) denied (not-false _ (filter_empty (λ d. not (elem (f d) denied)) xs h i))

module _ (lower : Text → Text) (n : NarrowingCheck) (denied : List Text) where
  -- All that the edit widens is in `denied`.
  record IsNamed : Type 0 where
    domains : (d : Text) → In d n.widened_domains → In d denied
    paths : (p : Text) → In p n.widened_paths → In (lower p) denied
    secrets : (v : Text) → In v n.widened_secrets → In (lower v) denied

  all_named : nat_beq (length (unjustified lower n denied)) 0 ≡ true → IsNamed
  unfolding unjustified
  all_named h =
      let domains = filter (λ d. not (elem d denied)) n.widened_domains in
      let paths = filter (λ p. not (elem (lower p) denied)) n.widened_paths in
      let secrets = filter (λ v. not (elem (lower v) denied)) n.widened_secrets in
      let whole = length-append domains (paths ++ secrets) in
      let rest = length-append paths secrets in
      let nothing = (nat_beq_iff _ _).0 h in
      record {
        domains = left_over (λ d. d) denied n.widened_domains (omega arith);
        paths = left_over lower denied n.widened_paths (omega arith);
        secrets = left_over lower denied n.widened_secrets (omega arith);
      }

  -- The evidence suffices where nothing is widened or all of it is named.
  evidence_cases : check_evidence lower n denied ≡ ok tt → (n.good ≡ true) ⊎ IsNamed
  unfolding check_evidence
  evidence_cases h = elim (Bool-cases n.good) [
    | inl good ↦ inl good
    | inr widened ↦ elim (Bool-cases (nat_beq (length (unjustified lower n denied)) 0)) [
      | inl nothing ↦ inr (all_named nothing)
      | inr missing ↦ ground (arith, widened, missing, h)
    ]
  ]

not-In_empty : {A : Type 0} (x : A) (xs : List A) → length xs ≡ 0 → In x xs → ⊥
not-In_empty x [] h i = i
not-In_empty x (y ∷ ys) h i = omega (arith, h)

ok_same : {E A : Type 0} (a b : A) → ◌≡◌ {A = Result E A} (ok a) (ok b) → a ≡ b
ok_same a b h = cc

-- `edited` grants what `original` does and what `denied` names.
pub record IsWithin (lower : Text → Text) (original : CapabilityScope) (denied : List Text)
    (edited : CapabilityScope) : Type 0 where
  pub domains :
      (d : Text)
      → In d edited.domains
      → In (lower d) (map lower original.domains) ⊎ In (lower d) denied
  pub paths :
      (g : PathGrant) → In g edited.paths → IsGranted original.paths g ⊎ In (lower g.path) denied
  pub secrets : (v : Text) → In v edited.secrets → In v original.secrets ⊎ In (lower v) denied

module _ (lower : Text → Text) (original edited : CapabilityScope) where
  good_named :
      (denied : List Text)
      → (check_narrowing lower original edited).good ≡ true
      → IsNamed lower (check_narrowing lower original edited) denied
  unfolding check_narrowing
  good_named denied h = record {
    domains = λ d i. absurd (not-In_empty d _ (ground (arith, h)) i);
    paths = λ p i. absurd (not-In_empty p _ (ground (arith, h)) i);
    secrets = λ v i. absurd (not-In_empty v _ (ground (arith, h)) i);
  }

  named-IsWithin :
      (denied : List Text)
      → IsNamed lower (check_narrowing lower original edited) denied
      → IsWithin lower original denied edited
  unfolding check_narrowing
  named-IsWithin denied n = record {
    domains = λ d i. elim (Bool-cases (elem (lower d) (map lower original.domains))) [
      | inl old ↦ inl (elem→In (lower d) (map lower original.domains) old)
      | inr new ↦ inr (
          n.domains (lower d) (
            In-filter_intro (λ x. not (elem x (map lower original.domains)))
              (map lower edited.domains) (In-map lower d edited.domains i) (rw new refl)))
    ];
    paths = λ g i. elim (Bool-cases (widens (granted_mode g.path original.paths) g.mode)) [
      | inl wider ↦ inr (
          n.paths g.path (
            In-map (λ (x : PathGrant). x.path) g _
              (In-filter_intro
                (λ (x : PathGrant). widens (granted_mode x.path original.paths) x.mode) edited.paths
                i wider)))
      | inr within ↦ inl (not_widened original.paths g within)
    ];
    secrets = λ v i. elim (Bool-cases (elem v original.secrets)) [
      | inl old ↦ inl (elem→In v original.secrets old)
      | inr new ↦ inr (
          n.secrets v
            (In-filter_intro (λ x. not (elem x original.secrets)) edited.secrets i (rw new refl)))
    ];
  }

  evidence-IsWithin :
      (denied : List Text)
      → check_evidence lower (check_narrowing lower original edited) denied ≡ ok tt
      → IsWithin lower original denied edited
  evidence-IsWithin denied h =
      elim (evidence_cases lower (check_narrowing lower original edited) denied h) [
        | inl good ↦ named-IsWithin denied (good_named denied good)
        | inr named ↦ named-IsWithin denied named
      ]

require_ok :
    {A : Type 0} (b : Bool) (e : ContractError) (rest : Result ContractError A) (a : A)
    → (require b e >> rest) ≡ ok a
    → (b ≡ true) × (rest ≡ ok a)
require_ok true e rest a h = (refl, h)
require_ok false e rest a h = cc

then_ok :
    {A : Type 0} (first : Result ContractError (Unit {0})) (rest : Result ContractError A) (a : A)
    → (first >> rest) ≡ ok a
    → (first ≡ ok tt) × (rest ≡ ok a)
then_ok (ok tt) rest a h = (refl, h)
then_ok (err e) rest a h = cc

module _ {F : Type 0} (lower : Text → Text) (now new_id user : String) where
  -- A revision that is accepted gives the next version of an active contract, and its scope holds a
  -- domain, a secret, or a path with its mode only where the contract's scope as `normalizeScope`
  -- gives it grants that (a path by an entry of the same path, with mode `rw` or with the same mode)
  -- or a denial recorded for the contract names it.
  pub revise_current-IsWithin :
      (r : Revision) (events : List DenialEvent) (current next : TaskContract F)
      → revise_current lower now new_id user r events current ≡ ok next
      → (is_active current.status ≡ true)
        × (next ≡ next_version lower now new_id user r current)
        × IsWithin lower
            (normalize_scope lower current.scope)
            (denied_targets lower current.id events)
            next.scope
  unfolding revise_current
  revise_current-IsWithin r events current next h =
      let (active, h1) = require_ok _ not_active _ next h in
      let (asks, h2) = require_ok _ nothing_to_change _ next h1 in
      let (evidence, h3) = then_ok _ _ next h2 in
      let same : next_version lower now new_id user r current ≡ next = ok_same _ _ h3 in
      let within =
        evidence-IsWithin lower (normalize_scope lower current.scope)
          (requested_scope lower r current) (denied_targets lower current.id events) evidence in
      (active, sym same, rw (sym same) within)
