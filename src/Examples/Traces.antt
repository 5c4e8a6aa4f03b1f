-- ===== src/Examples/Traces.antt =====
-- A tracer that takes a span it never closes, an event, and two flushes.
use Prim.Native.String.{String}
use army_of_god.Prelude.{
  ℕ, ◌≡◌, refl, Bool, true, none, List, [], ◌∷◌, ◌++◌, length, sort_by, string_eq,
}
use army_of_god.Store.{mutate}
use army_of_god.Trace.{
  TraceSpan, TraceCall, opened, closed, happened, flushed, OpenSpanOptions, SpanCategory, RunTracer,
  new_tracer, run_calls, run_call, flush, open_span, event, close_span, collected,
}
use army_of_god.Trace.Lasting.{IsStored, flushed-IsStored}

abbrev no_time : String → String → ℕ
no_time a b = 0

abbrev in_order : String → String → Bool
in_order a b = true

abbrev options : OpenSpanOptions ℕ
options = record {
  name = "turn";
  category = SpanCategory.orchestration;
  parent_id = none;
  attributes = none;
}

abbrev earlier : List (TraceCall ℕ)
earlier = opened "t1" "a" options ∷ happened "t2" "b" none options ∷ closed "t3" "b" none ∷ []

abbrev clock : TraceSpan ℕ → String
clock s = "t4"

abbrev later : List (TraceCall ℕ)
later = flushed clock true ∷ []

flushed-IsStored_example :
    IsStored no_time in_order "run" "a"
      (run_calls no_time in_order
        (earlier ++ flushed clock true ∷ later)
        (new_tracer "trace" "run" "agent", [])).1
flushed-IsStored_example =
    flushed-IsStored no_time in_order "trace" "run" "agent" "a" earlier later clock [] refl refl

abbrev start : RunTracer ℕ
start = new_tracer "trace" "run" "agent"

two_spans :
    length (run_calls no_time in_order (earlier ++ flushed clock true ∷ later) (start, [])).1 ≡ 2
unfolding run_calls run_call flush open_span event close_span collected mutate sort_by
two_spans = refl
