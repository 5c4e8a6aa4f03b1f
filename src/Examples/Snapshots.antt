-- ===== src/Examples/Snapshots.antt =====
-- A workspace before and after a run that changes one file, deletes one and reads one.
use army_of_god.Prelude.{
  ℕ, ◌≡◌, refl, ◌↔◌, ◌<◌, true, none, some, [], ◌∷◌, arith, dedupe, length, elem, keys, lookup,
}
use army_of_god.Text.{codes, text_eq, text_le}
use army_of_god.Scope.Paths.{sort_paths}
use army_of_god.Snapshot.{
  FileStamp, Listing, end, file, directory, unreadable, other, snapshot_workspace, diff_workspace,
  max_entries,
}
use army_of_god.Snapshot.Seen.{IsSeen, snapshot_workspace_iff}
use army_of_god.Snapshot.Compare.{was_written, was_read, diff_workspace_lem}

abbrev stamp : ℕ → ℕ → FileStamp
stamp m a = record { size = 1; mtime_ms = m; atime_ms = a }

abbrev old_root : Listing
old_root = file (codes "AGENTS.md") (some (stamp 1 1)) (
    directory (codes "a")
      (file (codes "x") (some (stamp 1 1)) (file (codes "y") (some (stamp 1 1)) end))
      (directory (codes ".git") (file (codes "z") (some (stamp 1 1)) end) (
        other (codes "l")
          (file (codes "gone") (some (stamp 1 1)) (file (codes "raced") none end)))))

abbrev new_root : Listing
new_root =
    directory (codes "a")
      (file (codes "x") (some (stamp 2 2)) (file (codes "y") (some (stamp 1 5)) end))
      (unreadable (codes "b") end)

written_and_read :
    diff_workspace (snapshot_workspace (some old_root)) (snapshot_workspace (some new_root))
    ≡ record { paths_written = codes "a/x" ∷ codes "gone" ∷ []; paths_read = codes "a/y" ∷ [] }
unfolding diff_workspace snapshot_workspace sort_paths dedupe text_le
written_and_read = refl

few_files : length (snapshot_workspace (some old_root)) < max_entries
unfolding snapshot_workspace
few_files = omega arith

snapshot_workspace_iff_example :
    (elem (codes "a/x") (keys (snapshot_workspace (some old_root))) ≡ true)
    ↔ IsSeen [] old_root (codes "a/x")
snapshot_workspace_iff_example = snapshot_workspace_iff old_root (codes "a/x") few_files

diff_workspace_lem_example :
    (elem
        (codes "a/x")
        (diff_workspace
          (snapshot_workspace (some old_root))
          (snapshot_workspace (some new_root))).paths_written
      ≡ was_written
          (lookup (codes "a/x") (snapshot_workspace (some old_root)))
          (lookup (codes "a/x") (snapshot_workspace (some new_root))))
    × (elem
          (codes "a/x")
          (diff_workspace
            (snapshot_workspace (some old_root))
            (snapshot_workspace (some new_root))).paths_read
        ≡ was_read
            (lookup (codes "a/x") (snapshot_workspace (some old_root)))
            (lookup (codes "a/x") (snapshot_workspace (some new_root))))
diff_workspace_lem_example = diff_workspace_lem (some old_root) (some new_root) (codes "a/x")
