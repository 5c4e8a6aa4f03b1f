-- ===== src/Trace/Once.antt =====
-- The one write of a tracer (apps/server/src/codify/trace.ts), among any of its calls.
use Prim.Native.String.{String}
use army_of_god.Prelude.{ℕ, Bool, List, map, string_eq}
use army_of_god.Trace.{TraceSpan, RunTracer, shut, collected}

module _ {V : Type 0} (elapsed : String → String → ℕ) (le : String → String → Bool) where
  -- What a flush would write: the spans that were collected, in order, those still open shut.
  abbrev pub batch_of : (TraceSpan V → String) → RunTracer V → List (TraceSpan V)
  batch_of now t = map (shut elapsed now) (collected le t)
