-- ===== src/Budget/Lineage.antt =====
-- `contractLineage` of apps/server/src/codify/budget.ts: the ids of every version of a task.
pub mod Closed
pub mod Loops
pub mod Least
use Prim.Native.String.{String}
use army_of_god.Prelude.{
  ℕ, zero, suc, Bool, true, false, ◌&&◌, not, Option, none, some, List, [], ◌∷◌, ◌++◌, length, elem,
  ◌==◌, if◌then◌else◌, string_eq,
}
use army_of_god.Records.{TaskContract, truthy_id}

module _ {F : Type 0} where
  -- `new Map(all.map((entry) => [entry.id, entry])).get(id)`: of two equal ids the later counts.
  pub by_id : String → List (TaskContract F) → Option (TaskContract F)
  by_id id [] = none
  by_id id (e ∷ es) = elim (by_id id es) [
    | some later ↦ some later
    | none ↦ if e.id == id then some e else none
  ]

  abbrev pub previous : List (TaskContract F) → TaskContract F → Option (TaskContract F)
  previous all cursor = elim (truthy_id cursor.supersedes) [ none ↦ none | some id ↦ by_id id all ]

  -- The walk over `supersedes`; the fuel stands for the loop's rounds.
  pub backwards : ℕ → List (TaskContract F) → TaskContract F → List String → List String
  backwards zero all cursor lineage = lineage
  backwards (suc fuel) all cursor lineage = elim (previous all cursor) [
    | none ↦ lineage
    | some p ↦
        let more = backwards fuel all p (lineage ++ p.id ∷ []) in
        if elem p.id lineage then lineage else more
  ]

  -- The condition of the inner loop: the entry replaces a version of the lineage and is not in it.
  abbrev pub joins : List String → TaskContract F → Bool
  joins lineage e = elim (truthy_id e.supersedes) [
    | none ↦ false
    | some id ↦ elem id lineage && not (elem e.id lineage)
  ]

  -- One pass of the inner loop.
  pub one_pass : List (TaskContract F) → List String → List String
  one_pass [] lineage = lineage
  one_pass (e ∷ es) lineage =
      one_pass es (if joins lineage e then lineage ++ e.id ∷ [] else lineage)

  pub grows : List (TaskContract F) → List String → Bool
  grows [] lineage = false
  grows (e ∷ es) lineage = let rest = grows es lineage in if joins lineage e then true else rest

  -- `while (grew)`: a pass that finds nothing ends the loop.
  pub forwards : ℕ → List (TaskContract F) → List String → List String
  forwards zero all lineage = lineage
  forwards (suc fuel) all lineage =
      let more = forwards fuel all (one_pass all lineage) in
      if grows all lineage then more else lineage

  unfoldable pub contract_lineage : TaskContract F → List (TaskContract F) → List String
  unfolding by_id backwards one_pass grows forwards
  contract_lineage contract all =
      forwards (suc (length all)) all (backwards (suc (length all)) all contract (contract.id ∷ []))
