-- ===== src/Snapshot/Compare.antt =====
-- `diffWorkspace` and `pathsNamedByCommands` of apps/server/src/codify/workspace-diff.ts.
use army_of_god.Prelude.{
  ◌≡◌, refl, ap, ◌∙◌, inl, inr, Bool, true, false, ◌||◌, ◌&&◌, not, Option, none, some, List, [],
  ◌∷◌, ◌++◌, arith, elem, any, ◌⊎◌, elem-dedupe, elem-filter, dedupe, ltb, ◌==◌, eq→≡, eq_self,
  Bool-cases, Option-cases, IsDistinct, keys, lookup, lookup→In, lookup_none→keys, elem-append,
  In→keys,
}
use army_of_god.Text.{Text, text_eq}
use army_of_god.Scope.Paths.{elem-sort_paths, sort_paths}
use army_of_god.Snapshot.{
  FileStamp, WorkspaceSnapshot, Listing, modified, compare_files, deleted, diff_workspace,
  snapshot_workspace, paths_named_by_commands, names_file, named_by_words, named_by_commands,
  token_of, shell_words,
}
use army_of_god.Snapshot.Seen.{snapshot_workspace-IsDistinct}

elem-sorted_set : (p : Text) (qs : List Text) → elem p (sort_paths (dedupe qs)) ≡ elem p qs
elem-sorted_set p qs = elem-sort_paths p (dedupe qs) ∙ elem-dedupe p qs

-- A file is written where it is new, gone, or has another size or time of modification.
abbrev pub was_written : Option FileStamp → Option FileStamp → Bool
was_written none none = false
was_written none (some stamp) = true
was_written (some previous) none = true
was_written (some previous) (some stamp) = modified previous stamp

-- A file is read where it is not written and its time of access is later.
abbrev pub was_read : Option FileStamp → Option FileStamp → Bool
was_read (some previous) (some stamp) =
    not (modified previous stamp) && ltb previous.atime_ms stamp.atime_ms
was_read _ _ = false

-- What the first loop finds, for a path that it meets.
abbrev met :
    (Option FileStamp → Option FileStamp → Bool)
    → WorkspaceSnapshot
    → WorkspaceSnapshot
    → Text
    → Bool
met test before after p = elem p (keys after) && test (lookup p before) (lookup p after)

-- One round of the first loop.
compare_round :
    (before after : WorkspaceSnapshot) (q : Text) (stamp : FileStamp) (p : Text)
    → (elem p (compare_files before ((q, stamp) ∷ after)).0 ≡ (
        (p == q && was_written (lookup q before) (some stamp))
        || elem p (compare_files before after).0))
      × (elem p (compare_files before ((q, stamp) ∷ after)).1 ≡ (
          (p == q && was_read (lookup q before) (some stamp))
          || elem p (compare_files before after).1))
unfolding compare_files
compare_round before after q stamp p = elim (Option-cases (lookup q before)) [
  | inl e ↦ rw e (ground arith)
  | inr (previous, e) ↦ rw e (ground arith)
]

compare_files_lem :
    (before after : WorkspaceSnapshot) (p : Text)
    → IsDistinct (keys after)
    → (elem p (compare_files before after).0 ≡ met was_written before after p)
      × (elem p (compare_files before after).1 ≡ met was_read before after p)
unfolding compare_files
compare_files_lem before [] p d = (refl, refl)
compare_files_lem before ((q, stamp) ∷ after) p d =
    let r = compare_files_lem before after p d.1 in
    let round = compare_round before after q stamp p in
    elim (Bool-cases (p == q)) [
      | inl same ↦
          let at : p ≡ q = eq→≡ p q same in
          let gone : elem p (keys after) ≡ false = rw at d.0 in
          (
            round.0 ∙ rw (same, r.0, gone, ap (λ x. lookup x before) at) (ground arith),
            round.1 ∙ rw (same, r.1, gone, ap (λ x. lookup x before) at) (ground arith),
          )
      | inr apart ↦ (round.0 ∙ rw (apart, r.0) refl, round.1 ∙ rw (apart, r.1) refl)
    ]

-- Both loops together.
module _ (before after : WorkspaceSnapshot) (p : Text) where
  key_test :
      (m : WorkspaceSnapshot)
      → ((lookup p m ≡ none) × (elem p (keys m) ≡ false))
        ⊎ ((v : FileStamp) × (lookup p m ≡ some v) × (elem p (keys m) ≡ true))
  key_test m = elim (Option-cases (lookup p m)) [
    | inl e ↦ inl (e, lookup_none→keys p m e)
    | inr (v, e) ↦ inr (v, e, In→keys p v m (lookup→In p v m e))
  ]

  either_loop :
      ((met was_written before after p) || (elem p (keys before) && not (elem p (keys after))))
      ≡ was_written (lookup p before) (lookup p after)
  either_loop = elim (key_test before) [
    | inl (e, k) ↦ elim (key_test after) [
      | inl (f, l) ↦ rw (e, k, f, l) refl
      | inr (w, f, l) ↦ rw (e, k, f, l) refl
    ]
    | inr (v, e, k) ↦ elim (key_test after) [
      | inl (f, l) ↦ rw (e, k, f, l) refl
      | inr (w, f, l) ↦ rw (e, k, f, l) (ground arith)
    ]
  ]

  second_test : met was_read before after p ≡ was_read (lookup p before) (lookup p after)
  second_test = elim (key_test before) [
    | inl (e, k) ↦ rw e (ground arith)
    | inr (v, e, k) ↦ elim (key_test after) [
      | inl (f, l) ↦ rw (e, f, l) refl
      | inr (w, f, l) ↦ rw (e, f, l) refl
    ]
  ]

  diff_lem :
      IsDistinct (keys after)
      → (elem p (diff_workspace before after).paths_written
          ≡ was_written (lookup p before) (lookup p after))
        × (elem p (diff_workspace before after).paths_read
            ≡ was_read (lookup p before) (lookup p after))
  unfolding diff_workspace
  diff_lem d =
      let r = compare_files_lem before after p d in
      (
        elem-sorted_set p ((compare_files before after).0 ++ deleted before after)
            ∙ elem-append p (compare_files before after).0 (deleted before after)
            ∙ rw (r.0, elem-filter (λ path. not (elem path (keys after))) p (keys before))
                either_loop,
        elem-sorted_set p (compare_files before after).1 ∙ r.1 ∙ second_test,
      )

-- Between any two snapshots of a workspace, a path is reported as written exactly when its file is
-- new, gone, or has another size or time of modification, and as read exactly when it is there
-- before and after, unchanged in both, and its time of access is later.
pub diff_workspace_lem :
    (old new : Option Listing) (p : Text)
    → (elem p (diff_workspace (snapshot_workspace old) (snapshot_workspace new)).paths_written
        ≡ was_written (lookup p (snapshot_workspace old)) (lookup p (snapshot_workspace new)))
      × (elem p (diff_workspace (snapshot_workspace old) (snapshot_workspace new)).paths_read
          ≡ was_read (lookup p (snapshot_workspace old)) (lookup p (snapshot_workspace new)))
diff_workspace_lem old new p =
    diff_lem (snapshot_workspace old) (snapshot_workspace new) p (snapshot_workspace-IsDistinct new)

-- Among the pieces of some command there is one whose token is this path.
abbrev pub is_token : Text → Text → Bool
is_token p raw = not (raw == []) && p == token_of raw

named_by_words_lem :
    (present : WorkspaceSnapshot) (words : List Text) (p : Text)
    → elem p (named_by_words present words) ≡ (any (is_token p) words && names_file present p)
named_by_words_lem present [] p = refl
named_by_words_lem present (raw ∷ words) p = elim (Bool-cases (raw == [])) [
  | inl empty ↦ rw empty (named_by_words_lem present words p)
  | inr word ↦ elim (Bool-cases (p == token_of raw)) [
    | inl same ↦
        rw (word, same)
          (rw (← eq→≡ p (token_of raw) same) (elim (Bool-cases (names_file present p)) [
            | inl held ↦ rw held (ground (arith, eq_self p))
            | inr lacks ↦ rw lacks (named_by_words_lem present words p ∙ rw lacks (ground arith))
          ]))
    | inr apart ↦ elim (Bool-cases (names_file present (token_of raw))) [
      | inl held ↦ rw (word, held, apart) (ground (arith, named_by_words_lem present words p))
      | inr lacks ↦ rw (word, lacks, apart) (ground (arith, named_by_words_lem present words p))
    ]
  ]
]

named_by_commands_lem :
    (present : WorkspaceSnapshot) (commands : List Text) (p : Text)
    → elem p (named_by_commands present commands)
      ≡ (any (λ c. any (is_token p) (shell_words c)) commands && names_file present p)
named_by_commands_lem present [] p = refl
named_by_commands_lem present (c ∷ commands) p =
    elem-append p (named_by_words present (shell_words c)) (named_by_commands present commands)
    ∙ rw (named_by_words_lem present (shell_words c) p, named_by_commands_lem present commands p)
        (ground arith)

-- A path is reported as named by the commands exactly when some piece of some command reads as that
-- path, the path is in the snapshot, is not empty and does not begin with a dash: a text that only
-- looks like a path adds nothing.
pub paths_named_by_commands_lem :
    (commands : List Text) (present : WorkspaceSnapshot) (p : Text)
    → elem p (paths_named_by_commands commands present)
      ≡ (any (λ c. any (is_token p) (shell_words c)) commands && names_file present p)
unfolding paths_named_by_commands
paths_named_by_commands_lem commands present p =
    elem-sorted_set p (named_by_commands present commands)
    ∙ named_by_commands_lem present commands p
