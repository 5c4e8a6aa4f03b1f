-- ===== src/Examples/Containers.antt =====
-- A scope with one directory to write and one to read.
use army_of_god.Prelude.{◌≡◌, refl, ◌++◌, true, false, [], ◌∷◌}
use army_of_god.Text.{Text, codes, text_eq}
use army_of_god.Records.{CapabilityScope, Mode}
use army_of_god.Container.{workspace_mounts, whole_workspace}
use army_of_god.Container.Writable.{IsBounded, workspace_mounts-IsBounded}

abbrev joined : Text → Text → Text
joined a b = a ++ codes "/" ++ b

abbrev scope : CapabilityScope
scope = record {
  paths =
      record { path = codes "out"; mode = Mode.rw }
      ∷ record { path = codes "docs"; mode = Mode.ro }
      ∷ [];
  domains = [];
  secrets = [];
}

one_writable_layer :
    workspace_mounts joined joined (codes "ws") scope
    ≡ whole_workspace (codes "ws") true
      ∷ record { src = codes "ws/out"; dst = codes "/workspace/out"; readonly = false }
      ∷ []
unfolding workspace_mounts
one_writable_layer = refl

workspace_mounts-IsBounded_example :
    IsBounded joined joined (codes "ws") scope (workspace_mounts joined joined (codes "ws") scope)
workspace_mounts-IsBounded_example = workspace_mounts-IsBounded joined joined (codes "ws") scope
