-- ===== src/Contracts/Versions.antt =====
-- The line of versions of a contract (service.ts `reviseContract`, `applyRefinement`): what
-- supersedes what, and which versions are active.
use Prim.Native.String.{String}
use army_of_god.Prelude.{
  ◌≡◌, refl, ap, ◌∙◌, ◌⊎◌, inl, inr, true, false, some, List, [], ◌∷◌, map, arith, elem, In, In-map,
  In→elem, update_first, ◌==◌, eq→≡, eq_self, string_eq, Bool-cases, IsDistinct, In-append_split,
  In-append_left, In-append_right, elem-concat,
}
use army_of_god.Records.{TaskContract, is_active, truthy_id}
use army_of_god.Contracts.{deprecate, install_version}
use army_of_god.Contracts.Spend.{SameLinks, ids-install, install_version-IsDistinct}

-- Ids are distinct, every link leads to a version that is known, a version that is superseded is
-- not active, and no two versions supersede the same one.
pub record IsLinear {F : Type 0} (all : List (TaskContract F)) : Type 0 where
  pub distinct : IsDistinct (map (λ c. c.id) all)
  pub known :
      (e : TaskContract F) (q : String)
      → In e all
      → truthy_id e.supersedes ≡ some q
      → elem q (map (λ c. c.id) all) ≡ true
  pub retired :
      (e f : TaskContract F)
      → In e all
      → In f all
      → truthy_id f.supersedes ≡ some e.id
      → is_active e.status ≡ false
  pub single :
      (e f : TaskContract F) (q : String)
      → In e all
      → In f all
      → truthy_id e.supersedes ≡ some q
      → truthy_id f.supersedes ≡ some q
      → e.id ≡ f.id

module _ {F : Type 0} where
  -- `f` is `e` after the mutation of version `id`: the same links, and not active if it has that id.
  record IsAfter (id : String) (e f : TaskContract F) : Type 0 where
    links : SameLinks e f
    still : is_active e.status ≡ false → is_active f.status ≡ false
    ended : e.id ≡ id → is_active f.status ≡ false

  updated_from :
      (id : String) (cs : List (TaskContract F)) (f : TaskContract F)
      → IsDistinct (map (λ c. c.id) cs)
      → In f (update_first (λ c. c.id == id) deprecate cs)
      → (e : TaskContract F) × In e cs × IsAfter id e f
  updated_from id [] f d i = absurd i
  updated_from id (c ∷ cs) f d i = elim (Bool-cases (c.id == id)) [
    | inl hit ↦
        let j : (f ≡ deprecate c) ⊎ In f cs = rw hit at i in
        elim j [
          | inl e ↦ (
            c,
            inl refl,
            record {
              links = (ap (λ x. x.id) e, ap (λ x. x.supersedes) e);
              still = λ h. rw e refl;
              ended = λ h. rw e refl;
            },
          )
          | inr k ↦ (
            f,
            inr k,
            record {
              links = (refl, refl);
              still = λ h. h;
              ended = λ same. absurd (
                  cc (
                    d.0,
                    same,
                    eq→≡ c.id id hit,
                    In→elem f.id (map (λ x. x.id) cs)
                        (In-map (λ (x : TaskContract F). x.id) f cs k),
                  ));
            },
          )
        ]
    | inr miss ↦
        let j : (f ≡ c) ⊎ In f (update_first (λ x. x.id == id) deprecate cs) = rw miss at i in
        elim j [
          | inl e ↦ (
            c,
            inl refl,
            record {
              links = (ap (λ x. x.id) e, ap (λ x. x.supersedes) e);
              still = λ h. rw e h;
              ended = λ same. absurd (cc (miss, same, eq_self id));
            },
          )
          | inr k ↦ let (e, l, a) = updated_from id cs f d.1 k in (e, inr l, a)
        ]
  ]

  module _ (current next : TaskContract F) (contracts : List (TaskContract F)) where
    -- A version of an active contract, prepared and committed with nothing in between.
    pub record IsNext : Type 0 where
      pub linear : IsLinear contracts
      pub there : In current contracts
      pub alive : is_active current.status ≡ true
      pub fresh : elem next.id (map (λ c. c.id) contracts) ≡ false
      pub supersedes : truthy_id next.supersedes ≡ some current.id

    module _ (h : IsNext) where
      split :
          (f : TaskContract F)
          → In f (install_version current.id next contracts)
          → (f ≡ next) ⊎ ((e : TaskContract F) × In e contracts × IsAfter current.id e f)
      unfolding install_version
      split f i =
          elim (In-append_split f (update_first (λ c. c.id == current.id) deprecate contracts)
            (next ∷ []) i) [
              | inl old ↦ inr (updated_from current.id contracts f h.linear.distinct old)
              | inr new ↦ elim new [ inl e ↦ inl e | inr n ↦ absurd n ]
            ]

      -- Nothing known is superseded by way of the new id.
      fresh_link : (e : TaskContract F) → In e contracts → truthy_id e.supersedes ≡ some next.id → ⊥
      fresh_link e i sup = cc (h.linear.known e next.id i sup, h.fresh)

      not_yet : (e : TaskContract F) → In e contracts → truthy_id e.supersedes ≡ some current.id → ⊥
      not_yet e i sup = cc (h.linear.retired current e h.there i sup, h.alive)

      known_next :
          (f : TaskContract F) (q : String)
          → In f (install_version current.id next contracts)
          → truthy_id f.supersedes ≡ some q
          → elem q (map (λ c. c.id) (install_version current.id next contracts)) ≡ true
      known_next f q i sup = rw (ids-install current.id next contracts) (
          elem-concat q next.id (map (λ c. c.id) contracts) (elim (split f i) [
            | inl e ↦
                let at_current : current.id ≡ q = ground (arith, h.supersedes, rw e at sup) in
                rw at_current at (
                  In→elem current.id (map (λ c. c.id) contracts)
                    (In-map (λ (x : TaskContract F). x.id) current contracts h.there))
            | inr (e, j, a) ↦ h.linear.known e q j (rw a.links.1 at sup)
          ]))

      retired_next :
          (e f : TaskContract F)
          → In e (install_version current.id next contracts)
          → In f (install_version current.id next contracts)
          → truthy_id f.supersedes ≡ some e.id
          → is_active e.status ≡ false
      retired_next e f i j sup = elim (split f j) [
        | inl f_new ↦ elim (split e i) [
          | inl e_new ↦ absurd (
              cc (
                h.fresh,
                h.supersedes,
                f_new,
                e_new,
                sup,
                In→elem current.id (map (λ c. c.id) contracts)
                    (In-map (λ (x : TaskContract F). x.id) current contracts h.there),
              ))
          | inr (e0, k, a) ↦ a.ended (cc (a.links.0, h.supersedes, f_new, sup))
        ]
        | inr (f0, l, b) ↦
            let sup0 : truthy_id f0.supersedes ≡ some e.id = rw b.links.1 at sup in
            elim (split e i) [
              | inl e_new ↦ absurd (fresh_link f0 l (rw e_new at sup0))
              | inr (e0, k, a) ↦ a.still (h.linear.retired e0 f0 k l (rw a.links.0 at sup0))
            ]
      ]

      single_next :
          (e f : TaskContract F) (q : String)
          → In e (install_version current.id next contracts)
          → In f (install_version current.id next contracts)
          → truthy_id e.supersedes ≡ some q
          → truthy_id f.supersedes ≡ some q
          → e.id ≡ f.id
      single_next e f q i j sup_e sup_f = elim (split e i) [
        | inl e_new ↦ elim (split f j) [
          | inl f_new ↦ cc
          | inr (f0, l, b) ↦
              absurd (not_yet f0 l (cc (b.links.1, sup_f, sup_e, e_new, h.supersedes)))
        ]
        | inr (e0, k, a) ↦ elim (split f j) [
          | inl f_new ↦ absurd (not_yet e0 k (cc (a.links.1, sup_e, sup_f, f_new, h.supersedes)))
          | inr (f0, l, b) ↦
              let same =
                h.linear.single e0 f0 q k l (rw a.links.1 at sup_e) (rw b.links.1 at sup_f) in
              cc (a.links.0, b.links.0, same)
        ]
      ]

    -- Where a new version is prepared from an active contract and committed with no change in
    -- between, the versions stay in line: ids stay distinct, every link leads to a known version,
    -- what is superseded is not active, and no two versions supersede the same one.
    pub install_version-IsLinear : IsNext → IsLinear (install_version current.id next contracts)
    install_version-IsLinear h = record {
      distinct = install_version-IsDistinct current.id next contracts h.linear.distinct h.fresh;
      known = known_next h;
      retired = retired_next h;
      single = single_next h;
    }

  kept_other :
      (id : String) (cs : List (TaskContract F)) (x : TaskContract F)
      → In x cs
      → (x.id ≡ id → ⊥)
      → In x (update_first (λ c. c.id == id) deprecate cs)
  kept_other id [] x i ne = absurd i
  kept_other id (c ∷ cs) x (inl e) ne = elim (Bool-cases (c.id == id)) [
    | inl hit ↦ absurd (ne (ap (λ x. x.id) e ∙ eq→≡ c.id id hit))
    | inr miss ↦ rw miss (inl e)
  ]
  kept_other id (c ∷ cs) x (inr i) ne = elim (Bool-cases (c.id == id)) [
    | inl hit ↦ rw hit (inr i)
    | inr miss ↦ rw miss (inr (kept_other id cs x i ne))
  ]

  -- Two new versions prepared from one snapshot, under ids of their own, are both committed: the
  -- mutation does not look at the status again. Both are then stored as they were prepared, and the
  -- versions are not in line, since they supersede the same one.
  pub install_version_twice :
      (current first second : TaskContract F) (contracts : List (TaskContract F))
      → truthy_id first.supersedes ≡ some current.id
      → truthy_id second.supersedes ≡ some current.id
      → (first.id ≡ second.id → ⊥)
      → (first.id ≡ current.id → ⊥)
      → In first (install_version current.id second (install_version current.id first contracts))
        × In second (install_version current.id second (install_version current.id first contracts))
        × (IsLinear (install_version current.id second (install_version current.id first contracts))
            → ⊥)
  unfolding install_version
  install_version_twice current first second contracts s1 s2 ne new =
      let once = install_version current.id first contracts in
      let stored =
        kept_other current.id once first
          (In-append_right first (update_first (λ c. c.id == current.id) deprecate contracts)
            (first ∷ []) (inl refl))
          new in
      let early =
        In-append_left first (update_first (λ c. c.id == current.id) deprecate once) (second ∷ [])
          stored in
      let late =
        In-append_right second (update_first (λ c. c.id == current.id) deprecate once) (second ∷ [])
          (inl refl) in
      (early, late, λ linear. ne (linear.single first second current.id early late s1 s2))
