-- ===== src/Scope.antt =====
-- apps/server/src/codify/scope.ts: a capability scope derived from observations, normalised, and
-- compared with an edit. `lower` stands for `toLowerCase`, and `locale_lt` for a negative
-- `localeCompare`: their tables are the runtime's.
pub mod Paths
pub mod Frequent
pub mod Normal
pub mod Derive
pub mod Narrow
use Prim.Native.String.{String}
use army_of_god.Prelude.{
  ℕ, zero, suc, ◌+◌, ◌*◌, Bool, true, false, ◌&&◌, ◌||◌, not, Option, none, some, List, [], ◌∷◌,
  ◌++◌, map, length, any, all, take, filter, elem, dedupe, ltb, leb, nat_beq, ◌==◌, if◌then◌else◌,
}
use army_of_god.Text.{Text, codes, text_eq, trim}
use army_of_god.Records.{Mode, PathGrant, CapabilityScope}
use army_of_god.Scope.Paths.{containing_directory, collapse_paths, dot}

pub record CapabilityObservation : Type 0 where
  pub run_id : String
  pub agent_id : String
  pub domains_reached : List Text
  pub paths_read : List Text
  pub paths_written : List Text
  pub secrets_read : List Text
  pub created_at : String

abbrev pub never_allow_domains : List Text
never_allow_domains =
    codes "169.254.169.254"
    ∷ codes "metadata.google.internal"
    ∷ codes "metadata"
    ∷ codes "100.100.100.200"
    ∷ []

abbrev pub runtime_infrastructure_domains : List Text
runtime_infrastructure_domains = codes "ab.chatgpt.com" ∷ codes "chatgpt.com" ∷ []

abbrev pub max_derived_domains : ℕ
max_derived_domains = 5

abbrev pub empty_scope : CapabilityScope
empty_scope = record { paths = []; domains = []; secrets = [] }

pub record Clamped : Type 0 where
  pub scope : CapabilityScope
  pub withheld : CapabilityScope

unfoldable pub clamp_for_auto_grant : CapabilityScope → Bool → Clamped
clamp_for_auto_grant derived grant_secrets = record {
  scope = record derived { secrets = if grant_secrets then derived.secrets else [] };
  withheld = record empty_scope { secrets = if grant_secrets then [] else derived.secrets };
}

-- A share of the runs, as a fraction: `FREQUENCY_FLOOR` is 1 of 2.
pub record Floor : Type 0 where
  pub part : ℕ
  pub whole : ℕ

abbrev pub frequency_floor : Floor
frequency_floor = record { part = 1; whole = 2 }

-- `counts.set(value, (counts.get(value) ?? 0) + 1)`
pub bump : Text → List (Text × ℕ) → List (Text × ℕ)
bump v [] = (v, 1) ∷ []
bump v ((w, n) ∷ m) = if w == v then (w, suc n) ∷ m else (w, n) ∷ bump v m

pub bump_all : List Text → List (Text × ℕ) → List (Text × ℕ)
unfolding bump
bump_all [] m = m
bump_all (v ∷ vs) m = bump_all vs (bump v m)

pub tally : List (List Text) → List (Text × ℕ) → List (Text × ℕ)
unfolding bump_all
tally [] m = m
tally (l ∷ ls) m = tally ls (bump_all (dedupe l) m)

module _ (locale_lt : Text → Text → Bool) where
  -- `right[1] - left[1] || left[0].localeCompare(right[0])`, as "not after".
  pub ranks_before : Text × ℕ → Text × ℕ → Bool
  ranks_before (v, n) (w, m) = ltb m n || (nat_beq m n && not (locale_lt w v))

  pub insert_ranked : Text × ℕ → List (Text × ℕ) → List (Text × ℕ)
  unfolding ranks_before
  insert_ranked e [] = e ∷ []
  insert_ranked e (f ∷ fs) =
      let later = f ∷ insert_ranked e fs in if ranks_before e f then e ∷ f ∷ fs else later

  pub sort_ranked : List (Text × ℕ) → List (Text × ℕ)
  unfolding insert_ranked
  sort_ranked [] = []
  sort_ranked (e ∷ es) = insert_ranked e (sort_ranked es)

  -- `frequent`: the values of at least `floor` of the lists, `count >= lists.length * floor`.
  unfoldable pub frequent : List (List Text) → Floor → List Text
  unfolding tally sort_ranked
  frequent lists floor =
      if nat_beq (length lists) 0
      then []
      else map (λ e. e.0)
          (sort_ranked
            (filter (λ e. leb (length lists * floor.part) (e.1 * floor.whole)) (tally lists [])))

-- `.map(containingDirectory).filter((value) => value !== null)`
unfoldable pub directories : List Text → List Text
directories [] = []
directories (p ∷ ps) = elim (containing_directory p) [
  | none ↦ directories ps
  | some d ↦ d ∷ directories ps
]

abbrev pub grants : Mode → List Text → List PathGrant
grants mode paths = map (λ p. record { path = p; mode = mode }) paths

module _ (lower : Text → Text) (locale_lt : Text → Text → Bool) where
  derived_domains : List CapabilityObservation → Floor → List Text
  derived_domains os floor = take max_derived_domains (
      filter (λ d. not (elem d runtime_infrastructure_domains))
        (filter (λ d. not (elem d never_allow_domains))
          (frequent locale_lt (map (λ o. map lower o.domains_reached) os) floor)))

  write_directories : List CapabilityObservation → Floor → List Text
  write_directories os floor =
      collapse_paths (frequent locale_lt (map (λ o. directories o.paths_written) os) floor)

  read_directories : List CapabilityObservation → Floor → List Text
  read_directories os floor =
      filter (λ p. not (elem p (write_directories os floor)))
        (collapse_paths (frequent locale_lt (map (λ o. directories o.paths_read) os) floor))

  derived : List CapabilityObservation → Floor → CapabilityScope
  unfolding derived_domains write_directories read_directories
  derived os floor = record {
    paths =
        grants Mode.rw (write_directories os floor) ++ grants Mode.ro (read_directories os floor);
    domains = derived_domains os floor;
    secrets = frequent locale_lt (map (λ o. o.secrets_read) os) floor;
  }

  unfoldable pub derive_scope : List CapabilityObservation → Floor → CapabilityScope
  unfolding derived
  derive_scope [] floor = empty_scope
  derive_scope (o ∷ os) floor = derived (o ∷ os) floor

-- `(containingDirectory(entry.path + "/_") ?? ".").trim()`
abbrev path_or_dot : Option Text → Text
path_or_dot none = dot
path_or_dot (some p) = p

unfoldable pub normalize_grant : PathGrant → PathGrant
normalize_grant g = record g {
  path = trim (path_or_dot (containing_directory (g.path ++ codes "/_")));
}

-- The first grant of each path.
first_of_path : List Text → List PathGrant → List PathGrant
first_of_path seen [] = []
first_of_path seen (g ∷ gs) =
    let rest = first_of_path seen gs in
    let fresh = g ∷ first_of_path (g.path ∷ seen) gs in if elem g.path seen then rest else fresh

unfoldable pub normalize_scope : (Text → Text) → CapabilityScope → CapabilityScope
unfolding first_of_path
normalize_scope lower s = record {
  paths = first_of_path [] (map normalize_grant s.paths);
  domains =
      filter (λ d. not (elem d never_allow_domains))
        (filter (λ d. not (d == [])) (dedupe (map (λ d. lower (trim d)) s.domains)));
  secrets = filter (λ v. not (v == [])) (dedupe (map trim s.secrets));
}

pub record NarrowingCheck : Type 0 where
  pub good : Bool
  pub widened_domains : List Text
  pub widened_paths : List Text
  pub widened_secrets : List Text

-- `new Map(paths.map((entry) => [entry.path, entry.mode])).get(path)`: the last entry counts.
pub granted_mode : Text → List PathGrant → Option Mode
granted_mode path [] = none
granted_mode path (g ∷ gs) = elim (granted_mode path gs) [
  | some m ↦ some m
  | none ↦ if g.path == path then some g.mode else none
]

-- `ro` → `rw` widens, and so does a path that was not granted.
abbrev pub widens : Option Mode → Mode → Bool
widens none mode = true
widens (some Mode.ro) Mode.rw = true
widens (some _) _ = false

unfoldable pub check_narrowing : (Text → Text) → CapabilityScope → CapabilityScope → NarrowingCheck
unfolding granted_mode
check_narrowing lower original edited =
    let domains =
      filter (λ d. not (elem d (map lower original.domains))) (map lower edited.domains) in
    let secrets = filter (λ v. not (elem v original.secrets)) edited.secrets in
    let paths =
      map (λ g. g.path)
        (filter (λ g. widens (granted_mode g.path original.paths) g.mode) edited.paths) in
    record {
      good = nat_beq (length domains) 0 && nat_beq (length paths) 0 && nat_beq (length secrets) 0;
      widened_domains = domains;
      widened_paths = paths;
      widened_secrets = secrets;
    }
