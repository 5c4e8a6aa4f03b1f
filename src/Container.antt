-- ===== src/Container.antt =====
-- apps/server/src/container-codex-runner.ts: the arguments with which a container is started, and
-- `buildCodexArgs` of apps/server/src/codex-runner.ts. `lower` is `toLowerCase`; `join` and
-- `posix_join` are those of the module `path`. Numbers of the configuration are texts already.
pub mod Writable
use army_of_god.Prelude.{
  ℕ, Bool, true, false, ◌&&◌, ◌||◌, not, Option, none, some, List, [], ◌∷◌, ◌++◌, map, any, filter,
  take, leb, nat_beq, elem, ◌==◌, if◌then◌else◌, nat_eq,
}
use army_of_god.Text.{Text, codes, text_eq, slash}
use army_of_god.Records.{CapabilityScope, PathGrant, Mode, ro}

abbrev pub is_writable : Mode → Bool
is_writable Mode.rw = true
is_writable ro = false

abbrev is_alphanumeric : ℕ → Bool
is_alphanumeric c =
    (leb b'0' c && leb c b'9') || ((leb b'a' c && leb c b'z') || (leb b'A' c && leb c b'Z'))

-- `.replace(/[^a-zA-Z0-9_.-]/g, "-")`
abbrev safe_name : Text → Text
safe_name s = map (λ c. if is_alphanumeric c || elem c (codes "_.-") then c else b'-') s

abbrev run_suffix : Option Text → Text
run_suffix none = []
run_suffix (some []) = []
run_suffix (some (c ∷ cs)) = codes "-" ++ take 12 (filter is_alphanumeric (c ∷ cs))

-- `containerName`
unfoldable pub container_name : Text → Text → Option Text → Text
container_name agent_id instance_id run_id =
    codes "launchpad-"
    ++ take 32 (safe_name instance_id)
    ++ codes "-"
    ++ take 48 (safe_name agent_id)
    ++ run_suffix run_id

-- `scopeCoversWholeWorkspace`
abbrev pub scope_covers_whole_workspace : CapabilityScope → Bool
scope_covers_whole_workspace scope =
    any (λ g. is_writable g.mode && g.path == codes ".") scope.paths

-- `writableScopePaths`
abbrev pub writable_scope_paths : CapabilityScope → List Text
writable_scope_paths scope =
    map (λ g. g.path)
      (filter (λ g. is_writable g.mode && (not (g.path == codes ".") && not (g.path == [])))
        scope.paths)

-- A value of `--mount`, taken apart.
pub record BindMount : Type 0 where
  pub src : Text
  pub dst : Text
  pub readonly : Bool

abbrev mount_args : List BindMount → List Text
mount_args [] = []
mount_args (m ∷ ms) =
    codes "--mount"
    ∷ (codes "type=bind,src="
        ++ m.src
        ++ codes ",dst="
        ++ m.dst
        ++ (if m.readonly then codes ",readonly" else []))
    ∷ mount_args ms

abbrev pub whole_workspace : Text → Bool → BindMount
whole_workspace path readonly = record { src = path; dst = codes "/workspace"; readonly = readonly }

module _ (join posix_join : Text → Text → Text) where
  abbrev pub layered : Text → Text → BindMount
  layered workspace relative = record {
    src = join workspace relative;
    dst = posix_join (codes "/workspace") relative;
    readonly = false;
  }

  -- `workspaceMounts`
  unfoldable pub workspace_mounts : Text → CapabilityScope → List BindMount
  workspace_mounts workspace scope =
      if scope_covers_whole_workspace scope
      then whole_workspace workspace false ∷ []
      else whole_workspace workspace true ∷ map (layered workspace) (writable_scope_paths scope)

pub record RunnerRequest : Type 0 where
  pub agent_id : Text
  pub run_id : Text
  pub workspace_path : Text
  pub prompt : Text
  pub thread_id : Option Text

-- The settings that a launch reads.
pub record LaunchConfig : Type 0 where
  pub runtime_instance_id : Text
  pub container_engine : Text
  pub codex_home : Text
  pub container_cpu_limit : Text
  pub container_memory_limit : Text
  pub container_pids_limit : Text
  pub container_user : Text
  pub container_runtime_image : Text
  pub codex_sandbox_mode : Text

pub record ScopedLaunch : Type 0 where
  pub network_name : Text
  pub proxy_environment : List (Text × Text)
  pub scope : CapabilityScope
  pub codex_home : Text
  pub secret_names : List Text

-- `buildCodexArgs`; an empty thread counts as none.
unfoldable pub build_codex_args : RunnerRequest → Text → Text → List Text
build_codex_args request sandbox workspace =
    codes "exec"
    ∷ codes "--json"
    ∷ codes "--sandbox"
    ∷ sandbox
    ∷ codes "--skip-git-repo-check"
    ∷ codes "-C"
    ∷ workspace
    ∷ elim request.thread_id [
      | none ↦ request.prompt ∷ []
      | some t ↦ if t == [] then request.prompt ∷ [] else codes "resume" ∷ t ∷ request.prompt ∷ []
    ]

abbrev env_names : List Text → List Text
env_names [] = []
env_names (s ∷ ss) = codes "--env" ∷ s ∷ env_names ss

abbrev env_values : List (Text × Text) → List Text
env_values [] = []
env_values ((k, v) ∷ rest) = codes "--env" ∷ (k ++ codes "=" ++ v) ∷ env_values rest

-- `containerEngine.split(/[\\/]/).at(-1)`
abbrev last_segment : Text → Text → Text
last_segment read [] = read
last_segment read (c ∷ cs) =
    last_segment (if nat_beq c slash || nat_beq c b'\\' then [] else read ++ c ∷ []) cs

abbrev of_launch : {A : Type 0} → Option ScopedLaunch → A → (ScopedLaunch → A) → A
of_launch none x f = x
of_launch (some l) x f = f l

module _ (lower : Text → Text) (join posix_join : Text → Text → Text) where
  -- `buildContainerRunArgs`
  unfoldable pub build_container_run_args :
      RunnerRequest → LaunchConfig → Option ScopedLaunch → List Text
  unfolding container_name workspace_mounts build_codex_args
  build_container_run_args request config launch =
      codes "run"
        ∷ codes "--rm"
        ∷ codes "--init"
        ∷ codes "--name"
        ∷ container_name request.agent_id config.runtime_instance_id (some request.run_id)
        ∷ codes "--label"
        ∷ codes "io.codejam.launchpad=agent-runtime"
        ∷ codes "--label"
        ∷ (codes "io.codejam.agent-id=" ++ request.agent_id)
        ∷ codes "--label"
        ∷ (codes "io.codejam.instance-id=" ++ config.runtime_instance_id)
        ∷ (if lower (last_segment [] config.container_engine) == codes "podman"
            then codes "--userns" ∷ codes "keep-id" ∷ []
            else [])
      ++ codes "--network"
        ∷ of_launch launch (codes "bridge") (λ l. l.network_name)
        ∷ codes "--security-opt"
        ∷ codes "no-new-privileges"
        ∷ codes "--cap-drop"
        ∷ codes "ALL"
        ∷ codes "--cpus"
        ∷ config.container_cpu_limit
        ∷ codes "--memory"
        ∷ config.container_memory_limit
        ∷ codes "--pids-limit"
        ∷ config.container_pids_limit
        ∷ codes "--user"
        ∷ config.container_user
        ∷ codes "--env"
        ∷ codes "ARK_API_KEY"
        ∷ of_launch launch [] (λ l. env_names l.secret_names)
      ++ of_launch launch [] (λ l. env_values l.proxy_environment)
      ++ codes "--env"
        ∷ codes "CODEX_HOME=/codex-home"
        ∷ codes "--env"
        ∷ codes "HOME=/tmp"
        ∷ codes "--env"
        ∷ codes "NO_COLOR=1"
        ∷ mount_args (
            of_launch launch (whole_workspace request.workspace_path false ∷ [])
              (λ l. workspace_mounts join posix_join request.workspace_path l.scope))
      ++ codes "--mount"
        ∷ (codes "type=bind,src="
            ++ of_launch launch config.codex_home (λ l. l.codex_home)
            ++ codes ",dst=/codex-home")
        ∷ codes "--workdir"
        ∷ codes "/workspace"
        ∷ config.container_runtime_image
        ∷ codes "codex"
        ∷ build_codex_args request config.codex_sandbox_mode (codes "/workspace")
