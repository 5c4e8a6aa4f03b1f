-- ===== src/Budget/Lineage/Closed.antt =====
-- What it is for a lineage to be closed, and the backward walk of `contractLineage` (budget.ts).
use Prim.Native.String.{String}
use army_of_god.Prelude.{
  ℕ, zero, suc, ◌<◌, ◌≡◌, ◌≢◌, refl, sym, ◌∙◌, ap, inl, inr, Bool, true, false, not, some, List, [],
  ◌∷◌, ◌++◌, map, arith, elem, In, In-map, In→elem, elem-concat, elem-concat_self, elem-concat_ne,
  IsDistinct, ◌==◌, eq→≡, eq_self, eq_false→≢, string_eq, Bool-cases, Option-cases, count_if,
  count_if_lt,
}
use army_of_god.Records.{TaskContract, truthy_id}
use army_of_god.Budget.Lineage.{by_id, previous, backwards}

module _ {F : Type 0} where
  -- What replaces a version of `P` is in `P`.
  abbrev pub IsForward : List (TaskContract F) → (String → Bool) → Type 0
  IsForward all P =
      (e : TaskContract F) (q : String)
      → In e all
      → truthy_id e.supersedes ≡ some q
      → P q ≡ true
      → P e.id ≡ true

  -- What a version of `P` replaces is in `P`, where it is known.
  abbrev pub IsBackward : List (TaskContract F) → (String → Bool) → Type 0
  IsBackward all P =
      (e p : TaskContract F)
      → In e all
      → In p all
      → truthy_id e.supersedes ≡ some p.id
      → P e.id ≡ true
      → P p.id ≡ true

  by_id_sound :
      (id : String) (all : List (TaskContract F)) (p : TaskContract F)
      → by_id id all ≡ some p
      → In p all × (p.id ≡ id)
  unfolding by_id
  by_id_sound id [] p h = cc
  by_id_sound id (e ∷ es) p h = elim (Option-cases (by_id id es)) [
    | inl missing ↦ elim (Bool-cases (e.id == id)) [
      | inl same ↦
          let here : e ≡ p = ground (arith, missing, same) in
          (inl (sym here), rw (← here) (eq→≡ e.id id same))
      | inr other ↦ ground (arith, missing, other)
    ]
    | inr (q, found) ↦
        let again : by_id id es ≡ some p = ground (arith, found) in
        let later = by_id_sound id es p again in (inr later.0, later.1)
  ]

  by_id_complete :
      (all : List (TaskContract F)) (p : TaskContract F)
      → IsDistinct (map (λ e. e.id) all)
      → In p all
      → by_id p.id all ≡ some p
  unfolding by_id
  by_id_complete [] p d i = absurd i
  by_id_complete (e ∷ es) p d (inr i) = rw (by_id_complete es p d.1 i) refl
  by_id_complete (e ∷ es) p d (inl same) = elim (Option-cases (by_id p.id es)) [
    | inl missing ↦ rw (missing, same, eq_self e.id) refl
    | inr (q, found) ↦
        let (there, id) = by_id_sound p.id es q found in
        let twice = In-map (λ (x : TaskContract F). x.id) q es there in
        let e' : e.id ≡ q.id = ap (λ (x : TaskContract F). x.id) (sym same) ∙ sym id in
        cc (d.0, In→elem e.id (map (λ x. x.id) es) (rw (← e') at twice))
  ]

  pub previous_sound :
      (all : List (TaskContract F)) (c p : TaskContract F)
      → previous all c ≡ some p
      → In p all × (truthy_id c.supersedes ≡ some p.id)
  previous_sound all c p h = elim (Option-cases (truthy_id c.supersedes)) [
    | inl first ↦ ground (arith, first)
    | inr (q, replaced) ↦
        let found : by_id q all ≡ some p = ground (arith, replaced) in
        let (there, id) = by_id_sound q all p found in (there, replaced ∙ ap some (sym id))
  ]

  -- How many entries a lineage lacks: what both loops use up.
  abbrev pub outside : List (TaskContract F) → List String → ℕ
  outside all lineage = count_if (λ e. not (elem e.id lineage)) all

  pub outside-lt :
      (all : List (TaskContract F)) (e : TaskContract F) (old new : List String)
      → ((a : String) → elem a old ≡ true → elem a new ≡ true)
      → In e all
      → elem e.id old ≡ false
      → elem e.id new ≡ true
      → outside all new < outside all old
  outside-lt all e old new sub i gone there =
      count_if_lt (λ e. not (elem e.id old)) (λ e. not (elem e.id new)) all
        (λ x h. ground (arith, sub x.id)) i (ground arith) (ground arith)

  -- The backward walk: `done` are the ids whose predecessor is in, all but the cursor's.
  pub record IsWalked (all : List (TaskContract F)) (cursor : TaskContract F) (l : List String)
      : Type 0 where
    pub known : In cursor all
    pub present : elem cursor.id l ≡ true
    pub settled :
        (e p : TaskContract F)
        → In e all
        → In p all
        → truthy_id e.supersedes ≡ some p.id
        → elem e.id l ≡ true
        → e.id ≢ cursor.id
        → elem p.id l ≡ true

  -- Entries of one id are one entry.
  pub same_entry :
      (all : List (TaskContract F)) (e p : TaskContract F)
      → IsDistinct (map (λ x. x.id) all)
      → In e all
      → In p all
      → e.id ≡ p.id
      → e ≡ p
  same_entry all e p d i j same =
      let found = by_id_complete all e d i in
      let found' : by_id e.id all ≡ some p = rw same (by_id_complete all p d j) in
      ground (arith, found, found')

  walk-IsWalked :
      (all : List (TaskContract F)) (cursor p : TaskContract F) (l : List String)
      → IsDistinct (map (λ x. x.id) all)
      → previous all cursor ≡ some p
      → IsWalked all cursor l
      → IsWalked all p (l ++ p.id ∷ [])
  walk-IsWalked all cursor p l d prev w =
      let (there, replaced) = previous_sound all cursor p prev in
      record {
        known = there;
        present = elem-concat_self p.id l;
        settled = λ e q ie iq sup in_new ne.
            let old = elem-concat_ne e.id p.id l in_new ne in
            elim (Bool-cases (e.id == cursor.id)) [
              | inl same ↦
                  let here = same_entry all e cursor d ie w.known (eq→≡ e.id cursor.id same) in
                  let id : p.id ≡ q.id = ground (
                    arith,
                    replaced,
                    sup,
                    ap (λ (x : TaskContract F). truthy_id x.supersedes) here,
                  ) in
                  rw (← id) (elem-concat_self p.id l)
              | inr other ↦
                  elem-concat q.id p.id l
                    (w.settled e q ie iq sup old (eq_false→≢ e.id cursor.id other))
            ];
      }

  -- The two facts that make a lineage closed.
  pub record IsClosed (all : List (TaskContract F)) (l : List String) : Type 0 where
    pub forward : IsForward all (λ a. elem a l)
    pub backward : IsBackward all (λ a. elem a l)

  previous_complete :
      (all : List (TaskContract F)) (c p : TaskContract F)
      → IsDistinct (map (λ x. x.id) all)
      → In p all
      → truthy_id c.supersedes ≡ some p.id
      → previous all c ≡ some p
  previous_complete all c p d i sup = rw (sup, previous) (by_id_complete all p d i)

  -- The walk may end where the cursor's predecessor is in.
  walk_end :
      (all : List (TaskContract F)) (cursor : TaskContract F) (l : List String)
      → IsDistinct (map (λ x. x.id) all)
      → IsWalked all cursor l
      → ((q : TaskContract F) → previous all cursor ≡ some q → elem q.id l ≡ true)
      → IsBackward all (λ a. elem a l)
  walk_end all cursor l d w ends e q ie iq sup there = elim (Bool-cases (e.id == cursor.id)) [
    | inl same ↦
        let here = same_entry all e cursor d ie w.known (eq→≡ e.id cursor.id same) in
        ends q (rw here at (previous_complete all e q d iq sup))
    | inr other ↦ w.settled e q ie iq sup there (eq_false→≢ e.id cursor.id other)
  ]

  pub backwards-IsBackward :
      (fuel : ℕ) (all : List (TaskContract F)) (cursor : TaskContract F) (l : List String)
      → IsDistinct (map (λ x. x.id) all)
      → outside all l < fuel
      → IsWalked all cursor l
      → IsBackward all (λ a. elem a (backwards fuel all cursor l))
  unfolding backwards
  backwards-IsBackward zero all cursor l d enough w = elim enough [ ]
  backwards-IsBackward (suc fuel) all cursor l d enough w =
      elim (Option-cases (previous all cursor)) [
        | inl first ↦ rw (first, backwards) (walk_end all cursor l d w (λ q h. cc (first, h)))
        | inr (p, prev) ↦ elim (Bool-cases (elem p.id l)) [
          | inl seen ↦
              rw (prev, backwards, seen)
                (walk_end all cursor l d w (λ q h.
                  let same : p ≡ q = ground (arith, prev, h) in
                  rw (ap (λ (x : TaskContract F). x.id) same) at seen))
          | inr new ↦
              let next = walk-IsWalked all cursor p l d prev w in
              let shrinks =
                outside-lt all p l (l ++ p.id ∷ []) (λ a. elem-concat a p.id l) next.known new
                  (elem-concat_self p.id l) in
              rw (prev, backwards, new)
                (backwards-IsBackward fuel all p (l ++ p.id ∷ []) d (omega arith) next)
        ]
      ]
