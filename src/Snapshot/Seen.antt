-- ===== src/Snapshot/Seen.antt =====
-- What `snapshotWorkspace` of apps/server/src/codify/workspace-diff.ts records.
use army_of_god.Prelude.{
  ◌≤◌, ◌<◌, ◌≡◌, ◌↔◌, ◌⊎◌, inl, inr, true, false, Option, none, some, [], arith, length, elem, leb,
  leb_false→lt, ◌==◌, eq→≡, eq_self, Bool-cases, IsDistinct, keys, put, keys-put, put-IsDistinct,
  length-put, length-le-put,
}
use army_of_god.Text.{Text, text_eq}
use army_of_god.Snapshot.{
  FileStamp, WorkspaceSnapshot, Listing, end, file, directory, unreadable, other,
  ignored_directories, max_entries, relative_path, platform_file, add_file, walk,
  snapshot_workspace,
}

-- A file that `stat` describes stands at this path, under directories that are not ignored, and is
-- not one that the platform writes.
abbrev pub IsSeen : Text → Listing → Text → Type 0
IsSeen relative end p = ⊥
IsSeen relative (file name none rest) p = IsSeen relative rest p
IsSeen relative (file name (some stamp) rest) p =
    ((platform_file relative name ≡ false) × (p ≡ relative_path relative name))
    ⊎ IsSeen relative rest p
IsSeen relative (directory name inner rest) p =
    ((elem name ignored_directories ≡ false) × IsSeen (relative_path relative name) inner p)
    ⊎ IsSeen relative rest p
IsSeen relative (unreadable name rest) p = IsSeen relative rest p
IsSeen relative (other name rest) p = IsSeen relative rest p

abbrev Has : Text → WorkspaceSnapshot → Type 0
Has p s = elem p (keys s) ≡ true

-- A property of snapshots that one round of the loop keeps, the walk keeps.
module _ (P : WorkspaceSnapshot → Type 0)
    (add : (p : Text) (stamp : FileStamp) (s : WorkspaceSnapshot)
      → length s < max_entries
      → P s
      → P (put p stamp s)) where
  add_file-keeps :
      (relative name : Text) (stamp : Option FileStamp) (s : WorkspaceSnapshot)
      → length s < max_entries
      → P s
      → P (add_file relative name stamp s)
  add_file-keeps relative name none s few h = h
  add_file-keeps relative name (some stamp) s few h =
      elim (Bool-cases (platform_file relative name)) [
        | inl own ↦ rw own h
        | inr task ↦ rw task (add (relative_path relative name) stamp s few h)
      ]

  walk-keeps : (relative : Text) (l : Listing) (s : WorkspaceSnapshot) → P s → P (walk relative l s)
  unfolding walk
  walk-keeps relative end s h = h
  walk-keeps relative (file name stamp rest) s h = elim (Bool-cases (leb max_entries (length s))) [
    | inl full ↦ rw full h
    | inr room ↦ rw room (
        walk-keeps relative rest (add_file relative name stamp s)
          (add_file-keeps relative name stamp s (leb_false→lt max_entries (length s) room) h))
  ]
  walk-keeps relative (directory name inner rest) s h =
      elim (Bool-cases (leb max_entries (length s))) [
        | inl full ↦ rw full h
        | inr room ↦ elim (Bool-cases (elem name ignored_directories)) [
          | inl skip ↦ rw (room, skip) (walk-keeps relative rest s h)
          | inr enter ↦
              rw (room, enter)
                (walk-keeps relative rest (walk (relative_path relative name) inner s)
                  (walk-keeps (relative_path relative name) inner s h))
        ]
      ]
  walk-keeps relative (unreadable name rest) s h = elim (Bool-cases (leb max_entries (length s))) [
    | inl full ↦ rw full h
    | inr room ↦ rw room (walk-keeps relative rest s h)
  ]
  walk-keeps relative (other name rest) s h = elim (Bool-cases (leb max_entries (length s))) [
    | inl full ↦ rw full h
    | inr room ↦ rw room (walk-keeps relative rest s h)
  ]

length-walk :
    (relative : Text) (l : Listing) (s : WorkspaceSnapshot) → length s ≤ length (walk relative l s)
length-walk relative l s =
    walk-keeps (λ t. length s ≤ length t)
      (λ p stamp t few h. omega (arith, h, length-le-put p stamp t)) relative l s (omega arith)

Has-walk :
    (p relative : Text) (l : Listing) (s : WorkspaceSnapshot) → Has p s → Has p (walk relative l s)
Has-walk p relative l s h =
    walk-keeps (λ t. Has p t) (λ q stamp t few i. ground (arith, keys-put p q stamp t, i)) relative
      l s h

pub snapshot_workspace-IsDistinct :
    (root : Option Listing) → IsDistinct (keys (snapshot_workspace root))
unfolding snapshot_workspace
snapshot_workspace-IsDistinct none = tt
snapshot_workspace-IsDistinct (some l) =
    walk-keeps (λ t. IsDistinct (keys t)) (λ p stamp t few d. put-IsDistinct p stamp t d) [] l [] tt

-- A snapshot has at most `MAX_ENTRIES` entries, however many files the workspace has.
pub length-snapshot-le-max :
    (root : Option Listing) → length (snapshot_workspace root) ≤ max_entries
unfolding snapshot_workspace
length-snapshot-le-max none = omega arith
length-snapshot-le-max (some l) =
    walk-keeps (λ t. length t ≤ max_entries)
      (λ p stamp t few h. omega (arith, few, length-put p stamp t)) [] l [] (omega arith)

seen_file :
    (p relative name : Text) (stamp : FileStamp) (s : WorkspaceSnapshot)
    → Has p (add_file relative name (some stamp) s)
    → Has p s ⊎ ((platform_file relative name ≡ false) × (p ≡ relative_path relative name))
seen_file p relative name stamp s h = elim (Bool-cases (platform_file relative name)) [
  | inl own ↦ inl (rw own at h)
  | inr task ↦
      let k : Has p (put (relative_path relative name) stamp s) = rw task at h in
      elim (Bool-cases (p == relative_path relative name)) [
        | inl same ↦ inr (task, eq→≡ p (relative_path relative name) same)
        | inr apart ↦ inl (ground (arith, keys-put p (relative_path relative name) stamp s, k))
      ]
]

walk-IsSeen :
    (p relative : Text) (l : Listing) (s : WorkspaceSnapshot)
    → Has p (walk relative l s)
    → Has p s ⊎ IsSeen relative l p
unfolding walk
walk-IsSeen p relative end s h = inl h
walk-IsSeen p relative (file name none rest) s h = elim (Bool-cases (leb max_entries (length s))) [
  | inl full ↦ inl (rw full at h)
  | inr room ↦ walk-IsSeen p relative rest s (rw room at h)
]
walk-IsSeen p relative (file name (some stamp) rest) s h =
    elim (Bool-cases (leb max_entries (length s))) [
      | inl full ↦ inl (rw full at h)
      | inr room ↦
          elim (walk-IsSeen p relative rest (add_file relative name (some stamp) s)
            (rw room at h)) [
              | inl here ↦ elim (seen_file p relative name stamp s here) [
                | inl old ↦ inl old
                | inr new ↦ inr (inl new)
              ]
              | inr later ↦ inr (inr later)
            ]
    ]
walk-IsSeen p relative (directory name inner rest) s h =
    elim (Bool-cases (leb max_entries (length s))) [
      | inl full ↦ inl (rw full at h)
      | inr room ↦ elim (Bool-cases (elem name ignored_directories)) [
        | inl skip ↦ elim (walk-IsSeen p relative rest s (rw (room, skip) at h)) [
          | inl old ↦ inl old
          | inr later ↦ inr (inr later)
        ]
        | inr enter ↦
            elim (walk-IsSeen p relative rest (walk (relative_path relative name) inner s)
              (rw (room, enter) at h)) [
                | inl here ↦ elim (walk-IsSeen p (relative_path relative name) inner s here) [
                  | inl old ↦ inl old
                  | inr new ↦ inr (inl (enter, new))
                ]
                | inr later ↦ inr (inr later)
              ]
      ]
    ]
walk-IsSeen p relative (unreadable name rest) s h = elim (Bool-cases (leb max_entries (length s))) [
  | inl full ↦ inl (rw full at h)
  | inr room ↦ walk-IsSeen p relative rest s (rw room at h)
]
walk-IsSeen p relative (other name rest) s h = elim (Bool-cases (leb max_entries (length s))) [
  | inl full ↦ inl (rw full at h)
  | inr room ↦ walk-IsSeen p relative rest s (rw room at h)
]

full_not-lt :
    (s : WorkspaceSnapshot) → leb max_entries (length s) ≡ true → length s < max_entries → ⊥
full_not-lt s h few = ground (arith, h, few)

-- Where the walk ends below the limit, it never was at it.
IsSeen-walk :
    (p relative : Text) (l : Listing) (s : WorkspaceSnapshot)
    → length (walk relative l s) < max_entries
    → IsSeen relative l p
    → Has p (walk relative l s)
unfolding walk
IsSeen-walk p relative end s few i = absurd i
IsSeen-walk p relative (file name none rest) s few i =
    elim (Bool-cases (leb max_entries (length s))) [
      | inl full ↦ absurd (full_not-lt s full (rw full at few))
      | inr room ↦ rw room (IsSeen-walk p relative rest s (rw room at few) i)
    ]
IsSeen-walk p relative (file name (some stamp) rest) s few i =
    elim (Bool-cases (leb max_entries (length s))) [
      | inl full ↦ absurd (full_not-lt s full (rw full at few))
      | inr room ↦ elim i [
        | inl (task, at) ↦ rw room (
            Has-walk p relative rest (add_file relative name (some stamp) s) (
              rw task
                (ground (arith, keys-put p (relative_path relative name) stamp s, at, eq_self p))))
        | inr later ↦ rw room (
            IsSeen-walk p relative rest (add_file relative name (some stamp) s) (rw room at few)
              later)
      ]
    ]
IsSeen-walk p relative (directory name inner rest) s few i =
    elim (Bool-cases (leb max_entries (length s))) [
      | inl full ↦ absurd (full_not-lt s full (rw full at few))
      | inr room ↦ elim (Bool-cases (elem name ignored_directories)) [
        | inl skip ↦ elim i [
          | inl (entered, j) ↦ cc (skip, entered)
          | inr later ↦
              rw (room, skip) (IsSeen-walk p relative rest s (rw (room, skip) at few) later)
        ]
        | inr enter ↦
            let few' : length (walk relative rest (walk (relative_path relative name) inner s))
                < max_entries =
              rw (room, enter) at few in
            elim i [
              | inl (entered, j) ↦
                  rw (room, enter)
                    (Has-walk p relative rest (walk (relative_path relative name) inner s) (
                      IsSeen-walk p (relative_path relative name) inner s
                        (omega (
                          arith,
                          few',
                          length-walk relative rest (walk (relative_path relative name) inner s),
                        ))
                        j))
              | inr later ↦
                  rw (room, enter)
                    (IsSeen-walk p relative rest (walk (relative_path relative name) inner s) few'
                      later)
            ]
      ]
    ]
IsSeen-walk p relative (unreadable name rest) s few i =
    elim (Bool-cases (leb max_entries (length s))) [
      | inl full ↦ absurd (full_not-lt s full (rw full at few))
      | inr room ↦ rw room (IsSeen-walk p relative rest s (rw room at few) i)
    ]
IsSeen-walk p relative (other name rest) s few i = elim (Bool-cases (leb max_entries (length s))) [
  | inl full ↦ absurd (full_not-lt s full (rw full at few))
  | inr room ↦ rw room (IsSeen-walk p relative rest s (rw room at few) i)
]

-- Where the snapshot stays below `MAX_ENTRIES`, it has exactly the paths at which a file stands that
-- can be read and is not the platform's own, under directories that are not ignored.
pub snapshot_workspace_iff :
    (root : Listing) (p : Text)
    → length (snapshot_workspace (some root)) < max_entries
    → (elem p (keys (snapshot_workspace (some root))) ≡ true) ↔ IsSeen [] root p
unfolding snapshot_workspace
snapshot_workspace_iff root p few = (
  λ h. elim (walk-IsSeen p [] root [] h) [
    | inl old ↦ absurd (ground (arith, old))
    | inr seen ↦ seen
  ],
  λ i. IsSeen-walk p [] root [] few i,
)
