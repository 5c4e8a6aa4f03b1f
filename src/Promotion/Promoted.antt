-- ===== src/Promotion/Promoted.antt =====
-- The contracts that calls of apps/server/src/codify/service.ts lead to, over any sequence of them.
use Prim.Native.String.{String}
use army_of_god.Prelude.{string_eq}
use army_of_god.Text.{Text}
