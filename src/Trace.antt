-- ===== src/Trace.antt =====
-- apps/server/src/codify/trace.ts: the spans of a run, collected in memory and written once. Times
-- and new ids are arguments; `elapsed` is the milliseconds between two timestamps, at least 0, and
-- `not_after` says that `localeCompare` does not put the first string after the second. The spans
-- of the store are apart from the tracer's here; the code pushes the tracer's own objects, so that
-- an `end` after the flush also changes what the store holds of them in memory.
pub mod Written
pub mod Lasting
pub mod Once
use Prim.Native.String.{String}
use army_of_god.Prelude.{
  ℕ, Bool, true, false, ◌&&◌, not, Option, none, some, List, [], ◌∷◌, ◌++◌, map, length, filter,
  elem, any, update_first, ◌==◌, if◌then◌else◌, string_eq, put, sort_by,
}
use army_of_god.Store.{Result, mutate}
use army_of_god.Records.{truthy_id}

pub data SpanCategory : Type 0 where
  orchestration policy_decision budget_check delegation : SpanCategory
  sandbox_execution model_call egress workspace : SpanCategory

pub data SpanStatus : Type 0 where
  ok denied error : SpanStatus

-- `V` is the type of an attribute's value: a string, a number or a Boolean.
pub record TraceSpan (V : Type 0) : Type 0 where
  pub id : String
  pub trace_id : String
  pub run_id : String
  pub agent_id : String
  pub parent_id : Option String
  pub name : String
  pub category : SpanCategory
  pub status : SpanStatus
  pub started_at : String
  pub ended_at : Option String
  pub duration_ms : Option ℕ
  pub attributes : Option (List (String × V))

pub record OpenSpanOptions (V : Type 0) : Type 0 where
  pub name : String
  pub category : SpanCategory
  pub parent_id : Option String
  pub attributes : Option (List (String × V))

pub record Outcome (V : Type 0) : Type 0 where
  pub status : Option SpanStatus
  pub attributes : Option (List (String × V))

-- `RunTracer`, with the handles that were ended: the flag that each keeps.
pub record RunTracer (V : Type 0) : Type 0 where
  pub trace_id : String
  pub run_id : String
  pub agent_id : String
  pub spans : List (String × TraceSpan V)
  pub ended : List String
  pub flushed : Bool

abbrev status_or : Option SpanStatus → SpanStatus → SpanStatus
status_or none old = old
status_or (some s) old = s

abbrev pub is_denied : SpanStatus → Bool
is_denied denied = true
is_denied _ = false

abbrev pub is_error : SpanStatus → Bool
is_error error = true
is_error _ = false

module _ {V : Type 0} where
  -- `new RunTracer(...)`
  abbrev pub new_tracer : String → String → String → RunTracer V
  new_tracer trace_id run_id agent_id = record {
    trace_id = trace_id;
    run_id = run_id;
    agent_id = agent_id;
    spans = [];
    ended = [];
    flushed = false;
  }

  -- `{ ...(old ?? {}), ...new }`
  abbrev merge_into : List (String × V) → List (String × V) → List (String × V)
  merge_into old [] = old
  merge_into old ((k, v) ∷ new) = merge_into (put k v old) new

  abbrev merged :
      Option (List (String × V)) → Option (List (String × V)) → Option (List (String × V))
  merged old none = old
  merged none (some new) = some (merge_into [] new)
  merged (some old) (some new) = some (merge_into old new)

  -- `if (!span.endedAt)`: an empty string counts as absent.
  abbrev pub is_ended : TraceSpan V → Bool
  is_ended s = elim (truthy_id s.ended_at) [ none ↦ false | some t ↦ true ]

  abbrev pub at_span :
      String
      → (TraceSpan V → TraceSpan V)
      → List (String × TraceSpan V)
      → List (String × TraceSpan V)
  at_span id f spans = update_first (λ p. p.0 == id) (λ p. (p.0, f p.1)) spans

  abbrev pub new_span : String → String → OpenSpanOptions V → RunTracer V → TraceSpan V
  new_span now id o t = record {
    id = id;
    trace_id = t.trace_id;
    run_id = t.run_id;
    agent_id = t.agent_id;
    parent_id = truthy_id o.parent_id;
    name = o.name;
    category = o.category;
    status = ok;
    started_at = now;
    ended_at = none;
    duration_ms = none;
    attributes = o.attributes;
  }

  -- `open`, under the new id.
  unfoldable pub open_span : String → String → OpenSpanOptions V → RunTracer V → RunTracer V
  open_span now id o t = record t { spans = put id (new_span now id o t) t.spans }

  abbrev instant : String → SpanStatus → TraceSpan V → TraceSpan V
  instant at status s = record s {
    status = status;
    started_at = at;
    ended_at = some at;
    duration_ms = some 0;
  }

  -- `event`: `at` is `options.at ?? now()`.
  unfoldable pub event :
      String → String → Option SpanStatus → OpenSpanOptions V → RunTracer V → RunTracer V
  event at id status o t = record t {
    spans = put id (instant at (status_or status ok) (new_span at id o t)) t.spans;
  }

module _ {V : Type 0} (elapsed : String → String → ℕ) where
  abbrev pub stop_at : String → TraceSpan V → TraceSpan V
  stop_at now s = record s { ended_at = some now; duration_ms = some (elapsed s.started_at now) }

  abbrev pub settled_span : String → Option (Outcome V) → TraceSpan V → TraceSpan V
  settled_span now none s = stop_at now s
  settled_span now (some o) s = record (stop_at now s) {
    status = status_or o.status s.status;
    attributes = merged s.attributes o.attributes;
  }

  -- `end` of the handle that `open` returned under this id.
  unfoldable pub end_span : String → String → Option (Outcome V) → RunTracer V → RunTracer V
  end_span now id outcome t =
      if elem id t.ended
      then t
      else record t { ended = id ∷ t.ended; spans = at_span id (settled_span now outcome) t.spans }

  -- `close`
  unfoldable pub close_span : String → String → Option (Outcome V) → RunTracer V → RunTracer V
  close_span now id outcome t = record t {
    spans = at_span id (λ s. if is_ended s then s else settled_span now outcome s) t.spans;
  }

  -- One round of the loop in `flush`.
  abbrev pub shut : (TraceSpan V → String) → TraceSpan V → TraceSpan V
  shut now s = if is_ended s then s else record (stop_at (now s) s) { status = error }

module _ {V : Type 0} (not_after : String → String → Bool) where
  abbrev pub precedes : TraceSpan V → TraceSpan V → Bool
  precedes a b =
      if a.started_at == b.started_at
      then not_after a.id b.id
      else not_after a.started_at b.started_at

  -- `collected`
  unfoldable pub collected : RunTracer V → List (TraceSpan V)
  collected t = sort_by precedes (map (λ p. p.1) t.spans)

  -- `runSpans`
  unfoldable pub run_spans : String → List (TraceSpan V) → List (TraceSpan V)
  run_spans run_id stored = sort_by precedes (filter (λ s. s.run_id == run_id) stored)

-- The calls that a tracer takes.
pub data TraceCall (V : Type 0) : Type 0 where
  opened : String → String → OpenSpanOptions V → TraceCall V
  ended closed : String → String → Option (Outcome V) → TraceCall V
  happened : String → String → Option SpanStatus → OpenSpanOptions V → TraceCall V
  flushed : (TraceSpan V → String) → Bool → TraceCall V

module _ {V : Type 0} (elapsed : String → String → ℕ) (not_after : String → String → Bool) where
  -- The mutation of `flush`; one that is not written is swallowed.
  abbrev write_spans : Bool → List (TraceSpan V) → List (TraceSpan V) → List (TraceSpan V)
  write_spans persisted [] stored = stored
  write_spans persisted (s ∷ ss) stored =
      (mutate {E = ⊥} persisted (λ database. Result.ok (tt {0}, database ++ s ∷ ss)) stored).1

  abbrev pub first_flush :
      (TraceSpan V → String)
      → Bool
      → RunTracer V × List (TraceSpan V)
      → RunTracer V × List (TraceSpan V)
  first_flush now persisted (t, stored) = (
    record t { flushed = true; spans = map (λ p. (p.0, shut elapsed now p.1)) t.spans },
    write_spans persisted (map (shut elapsed now) (collected not_after t)) stored,
  )

  -- `flush`, on the tracer and the spans of the store. The spans that it shuts are the tracer's own.
  unfoldable pub flush :
      (TraceSpan V → String)
      → Bool
      → RunTracer V × List (TraceSpan V)
      → RunTracer V × List (TraceSpan V)
  flush now persisted s = if s.0.flushed then s else first_flush now persisted s

  unfoldable pub run_call :
      TraceCall V → RunTracer V × List (TraceSpan V) → RunTracer V × List (TraceSpan V)
  unfolding flush
  run_call (opened now id o) (t, stored) = (open_span now id o t, stored)
  run_call (ended now id outcome) (t, stored) = (end_span elapsed now id outcome t, stored)
  run_call (closed now id outcome) (t, stored) = (close_span elapsed now id outcome t, stored)
  run_call (happened at id status o) (t, stored) = (event at id status o t, stored)
  run_call (flushed now persisted) s = flush now persisted s

  unfoldable pub run_calls :
      List (TraceCall V) → RunTracer V × List (TraceSpan V) → RunTracer V × List (TraceSpan V)
  run_calls [] s = s
  run_calls (c ∷ cs) s = run_calls cs (run_call c s)

pub record TraceSummary (V : Type 0) : Type 0 where
  pub trace_id : String
  pub run_id : String
  pub agent_id : String
  pub started_at : String
  pub ended_at : String
  pub duration_ms : ℕ
  pub span_count : ℕ
  pub denied : ℕ
  pub errored : ℕ
  pub spans : List (TraceSpan V)

abbrev later_of : (String → String → Bool) → String → Option String → String
later_of above latest none = latest
later_of above latest (some t) = if above t latest then t else latest

module _ {V : Type 0} (elapsed : String → String → ℕ)
    (not_after above : String → String → Bool) where
  -- `spans.reduce(...)`; `above` is `>` on strings.
  abbrev latest_end : String → List (TraceSpan V) → String
  latest_end latest [] = latest
  latest_end latest (s ∷ ss) = latest_end (later_of above latest (truthy_id s.ended_at)) ss

  abbrev summary_of : String → List (TraceSpan V) → Option (TraceSummary V)
  summary_of run_id [] = none
  summary_of run_id (first ∷ rest) = some (record {
    trace_id = first.trace_id;
    run_id = run_id;
    agent_id = first.agent_id;
    started_at = first.started_at;
    ended_at = latest_end first.started_at (first ∷ rest);
    duration_ms = elapsed first.started_at (latest_end first.started_at (first ∷ rest));
    span_count = length (first ∷ rest);
    denied = length (filter (λ s. is_denied s.status) (first ∷ rest));
    errored = length (filter (λ s. is_error s.status) (first ∷ rest));
    spans = first ∷ rest;
  })

  -- `traceForRun`
  unfoldable pub trace_for_run : String → List (TraceSpan V) → Option (TraceSummary V)
  trace_for_run run_id stored = summary_of run_id (run_spans not_after run_id stored)
