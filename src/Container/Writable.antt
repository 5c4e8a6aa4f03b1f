-- ===== src/Container/Writable.antt =====
-- What a container may write of the workspace (`workspaceMounts` of
-- apps/server/src/container-codex-runner.ts).
use army_of_god.Prelude.{
  ◌≡◌, refl, sym, ◌⊎◌, inl, inr, Bool, true, false, ◌&&◌, not, List, [], arith, map, any→In,
  any-false, filter, In, In-map, In-of_map, In-filter, In-filter_intro, ◌==◌, eq→≡, Bool-cases,
}
use army_of_god.Text.{Text, codes, text_eq}
use army_of_god.Records.{CapabilityScope, PathGrant}
use army_of_god.Container.{
  is_writable, scope_covers_whole_workspace, writable_scope_paths, BindMount, whole_workspace,
  layered, workspace_mounts,
}

module _ (join posix_join : Text → Text → Text) (workspace : Text) (scope : CapabilityScope) where
  -- A mount that this grant stands for: its own directory, or the root for the grant of ".".
  abbrev pub IsFor : PathGrant → BindMount → Type 0
  IsFor g m =
      ((g.path ≡ codes ".") × (m ≡ whole_workspace workspace false))
      ⊎ (m ≡ layered join posix_join workspace g.path)

  -- The mounts of the workspace against the grants of the scope.
  pub record IsBounded (mounts : List BindMount) : Type 0 where
    pub granted :
        (m : BindMount)
        → In m mounts
        → m.readonly ≡ false
        → (g : PathGrant) × In g scope.paths × (is_writable g.mode ≡ true) × IsFor g m
    pub root_only :
        (m : BindMount) → In m mounts → m.readonly ≡ true → m ≡ whole_workspace workspace true
    pub mounted :
        (g : PathGrant)
        → In g scope.paths
        → is_writable g.mode ≡ true
        → (g.path == []) ≡ false
        → In (whole_workspace workspace false) mounts
          ⊎ In (layered join posix_join workspace g.path) mounts

  abbrev keeps : PathGrant → Bool
  keeps g = is_writable g.mode && (not (g.path == codes ".") && not (g.path == []))

  abbrev layers : List BindMount
  layers = map (layered join posix_join workspace) (writable_scope_paths scope)

  In-layers :
      (m : BindMount)
      → In m layers
      → (g : PathGrant) × In g scope.paths
        × (is_writable g.mode ≡ true)
        × (m ≡ layered join posix_join workspace g.path)
  In-layers m i =
      let (p, j, e) =
        In-of_map (layered join posix_join workspace) m (writable_scope_paths scope) i in
      let (g, k, f) = In-of_map (λ (g : PathGrant). g.path) p (filter keeps scope.paths) j in
      let (there, kept) = In-filter keeps scope.paths k in
      (g, there, ground (arith, kept), rw (sym f) e)

  -- The workspace is mounted so that: every writable mount is that of a path which the scope grants
  -- `rw`, the root only where "." is; what is mounted read-only is the root; and every path that is
  -- granted `rw`, the empty one apart, is writable, by a mount of its own or of the root.
  pub workspace_mounts-IsBounded : IsBounded (workspace_mounts join posix_join workspace scope)
  unfolding workspace_mounts
  workspace_mounts-IsBounded = elim (Bool-cases (scope_covers_whole_workspace scope)) [
    | inl whole ↦ rw whole (record {
      granted = λ m i w. elim i [
        | inl e ↦
            let (g, there, h) =
              any→In (λ (g : PathGrant). is_writable g.mode && g.path == codes ".") scope.paths
                whole in
            (g, there, ground (arith, h), inl (eq→≡ g.path (codes ".") (ground (arith, h)), e))
        | inr n ↦ absurd n
      ];
      root_only = λ m i w. elim i [ inl e ↦ cc (rw e at w) | inr n ↦ absurd n ];
      mounted = λ g i w ne. inl (inl refl);
    })
    | inr part ↦ rw part (record {
      granted = λ m i w. elim i [
        | inl e ↦ cc (rw e at w)
        | inr j ↦ let (g, there, wr, e) = In-layers m j in (g, there, wr, inr e)
      ];
      root_only = λ m i w. elim i [
        | inl e ↦ e
        | inr j ↦ let (g, there, wr, e) = In-layers m j in cc (rw e at w)
      ];
      mounted = λ g i w ne.
          let apart : (g.path == codes ".") ≡ false = ground (
            arith,
            any-false (λ (g : PathGrant). is_writable g.mode && g.path == codes ".") scope.paths
                part i,
            w,
          ) in
          inr (
            inr (
              In-map (layered join posix_join workspace) g.path (writable_scope_paths scope) (
                In-map (λ (g : PathGrant). g.path) g _
                  (In-filter_intro
                    (λ (g : PathGrant).
                      is_writable g.mode && (not (g.path == codes ".") && not (g.path == [])))
                    scope.paths i (ground (arith, w, ne, apart))))));
    })
  ]
