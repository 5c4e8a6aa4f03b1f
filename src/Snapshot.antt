-- ===== src/Snapshot.antt =====
-- apps/server/src/codify/workspace-diff.ts: what a run touched in its workspace. A directory is
-- given as what `readdir` and `stat` say of it; sizes and times are counted in whole units.
pub mod Seen
pub mod Compare
use army_of_god.Prelude.{
  ℕ, Bool, true, false, ◌&&◌, ◌||◌, not, Option, none, some, List, [], ◌∷◌, ◌++◌, length, filter,
  any, elem, dedupe, nat_beq, ltb, leb, ◌==◌, if◌then◌else◌, lookup, put, keys, nat_eq,
}
use army_of_god.Text.{Text, codes, text_eq, slash, is_space, starts_with}
use army_of_god.Scope.Paths.{sort_paths}

pub record FileStamp : Type 0 where
  pub size : ℕ
  pub mtime_ms : ℕ
  pub atime_ms : ℕ

abbrev pub WorkspaceSnapshot : Type 0
WorkspaceSnapshot = List (Text × FileStamp)

-- The entries of a directory, in the order of `readdir`: a file with what `stat` returns, if it does;
-- a directory with its own entries; one that cannot be read; a symbolic link or another kind.
pub data Listing : Type 0 where
  end : Listing
  file : Text → Option FileStamp → Listing → Listing
  directory : Text → Listing → Listing → Listing
  unreadable : Text → Listing → Listing
  other : Text → Listing → Listing

abbrev pub ignored_directories : List Text
ignored_directories =
    codes "node_modules"
    ∷ codes ".git"
    ∷ codes ".codex"
    ∷ codes "dist"
    ∷ codes "build"
    ∷ codes ".cache"
    ∷ []

abbrev pub ignored_files : List Text
ignored_files = codes ".codex" ∷ codes "AGENTS.md" ∷ []

abbrev pub max_entries : ℕ
max_entries = 5000

-- `relative ? relative + "/" + entry.name : entry.name`
abbrev pub relative_path : Text → Text → Text
relative_path [] name = name
relative_path (c ∷ cs) name = (c ∷ cs) ++ slash ∷ name

-- `!relative && IGNORED_FILES.has(entry.name)`
abbrev pub platform_file : Text → Text → Bool
platform_file relative name = relative == [] && elem name ignored_files

abbrev add_file : Text → Text → Option FileStamp → WorkspaceSnapshot → WorkspaceSnapshot
add_file relative name none s = s
add_file relative name (some stamp) s =
    if platform_file relative name then s else put (relative_path relative name) stamp s

pub walk : Text → Listing → WorkspaceSnapshot → WorkspaceSnapshot
walk relative end s = s
walk relative (file name stamp rest) s =
    let next = walk relative rest (add_file relative name stamp s) in
    if leb max_entries (length s) then s else next
walk relative (directory name inner rest) s =
    let skipped = walk relative rest s in
    let next = walk relative rest (walk (relative_path relative name) inner s) in
    if leb max_entries (length s)
    then s
    else if elem name ignored_directories
    then skipped
    else next
walk relative (unreadable name rest) s =
    let next = walk relative rest s in if leb max_entries (length s) then s else next
walk relative (other name rest) s =
    let next = walk relative rest s in if leb max_entries (length s) then s else next

-- The root's entries; `none` where it cannot be read.
unfoldable pub snapshot_workspace : Option Listing → WorkspaceSnapshot
unfolding walk
snapshot_workspace none = []
snapshot_workspace (some root) = walk [] root []

pub record WorkspaceDelta : Type 0 where
  pub paths_written : List Text
  pub paths_read : List Text

abbrev pub modified : FileStamp → FileStamp → Bool
modified previous stamp =
    not (nat_beq previous.mtime_ms stamp.mtime_ms) || not (nat_beq previous.size stamp.size)

-- The first loop: `written` and `read`.
pub compare_files : WorkspaceSnapshot → WorkspaceSnapshot → List Text × List Text
compare_files before [] = ([], [])
compare_files before ((path, stamp) ∷ rest) =
    let later = compare_files before rest in
    elim (lookup path before) [
      | none ↦ (path ∷ later.0, later.1)
      | some previous ↦
          if modified previous stamp
          then (path ∷ later.0, later.1)
          else if ltb previous.atime_ms stamp.atime_ms
          then (later.0, path ∷ later.1)
          else later
    ]

-- The second loop: the paths that are gone.
abbrev pub deleted : WorkspaceSnapshot → WorkspaceSnapshot → List Text
deleted before after = filter (λ path. not (elem path (keys after))) (keys before)

unfoldable pub diff_workspace : WorkspaceSnapshot → WorkspaceSnapshot → WorkspaceDelta
unfolding compare_files
diff_workspace before after = record {
  paths_written = sort_paths (dedupe ((compare_files before after).0 ++ deleted before after));
  paths_read = sort_paths (dedupe ((compare_files before after).1));
}

-- White space, quotes and the punctuation of the shell: `[\s'"`;|&()<>]`.
abbrev shell_mark : ℕ → Bool
shell_mark c = is_space c || elem c (codes "'\"`;|&()<>")

abbrev onto_first : ℕ → List Text → List Text
onto_first c [] = (c ∷ []) ∷ []
onto_first c (word ∷ words) = (c ∷ word) ∷ words

-- `command.split(/[\s'"`;|&()<>]+/)`, but for empty pieces.
pub shell_words : Text → List Text
shell_words [] = [] ∷ []
shell_words (c ∷ cs) =
    let rest = shell_words cs in if shell_mark c then [] ∷ rest else onto_first c rest

-- `.replace(/^\.\//, "")`
pub drop_dot_slash : Text → Text
drop_dot_slash (c ∷ d ∷ s) = if nat_beq c b'.' && nat_beq d slash then s else c ∷ d ∷ s
drop_dot_slash s = s

-- `.replace(/[,:]+$/, "")`
pub drop_marks : Text → Text
drop_marks [] = []
drop_marks (c ∷ s) =
    let rest = drop_marks s in
    if rest == [] && (nat_beq c b',' || nat_beq c b':') then [] else c ∷ rest

unfoldable pub token_of : Text → Text
unfolding drop_dot_slash drop_marks
token_of raw = drop_marks (drop_dot_slash raw)

abbrev pub names_file : WorkspaceSnapshot → Text → Bool
names_file present token =
    not (token == [] || starts_with (codes "-") token) && elem token (keys present)

abbrev named_by_words : WorkspaceSnapshot → List Text → List Text
named_by_words present [] = []
named_by_words present (raw ∷ words) =
    let rest = named_by_words present words in
    if raw == []
    then rest
    else if names_file present (token_of raw)
    then token_of raw ∷ rest
    else rest

abbrev named_by_commands : WorkspaceSnapshot → List Text → List Text
named_by_commands present [] = []
named_by_commands present (command ∷ commands) =
    named_by_words present (shell_words command) ++ named_by_commands present commands

unfoldable pub paths_named_by_commands : List Text → WorkspaceSnapshot → List Text
unfolding shell_words
paths_named_by_commands commands present = sort_paths (dedupe (named_by_commands present commands))
