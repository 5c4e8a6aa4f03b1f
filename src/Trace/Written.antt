-- ===== src/Trace/Written.antt =====
-- What the tracer of apps/server/src/codify/trace.ts writes, over any sequence of its calls.
use Prim.Native.String.{String}
use army_of_god.Prelude.{
  ℕ, ◌≡◌, ◌≢◌, refl, ap, ◌∙◌, ◌⊎◌, inl, inr, Bool, true, false, Option, none, List, [], ◌∷◌, ◌++◌,
  append-nil, map, arith, elem, All, if◌then◌else◌, string_eq, Bool-cases,
}
use army_of_god.Store.{mutate}
use army_of_god.Trace.{
  TraceSpan, Outcome, RunTracer, is_ended, open_span, event, end_span, close_span, shut, collected,
  write_spans, first_flush, flush, TraceCall, opened, ended, closed, happened, flushed, run_call,
  run_calls,
}

module _ {V : Type 0} where
  -- The span has a time at which it ended.
  abbrev pub HasEnd : TraceSpan V → Type 0
  HasEnd s = s.ended_at ≢ none

module _ {V : Type 0} (elapsed : String → String → ℕ) where
  pub shut-HasEnd : (now : TraceSpan V → String) (s : TraceSpan V) → HasEnd (shut elapsed now s)
  shut-HasEnd now s none_at = elim (Bool-cases (is_ended s)) [
    | inl over ↦ cc (rw over at none_at, over)
    | inr running ↦ cc (rw running at none_at)
  ]

  pub All-shut :
      (now : TraceSpan V → String) (ss : List (TraceSpan V))
      → All HasEnd (map (shut elapsed now) ss)
  All-shut now [] = tt
  All-shut now (s ∷ ss) = (shut-HasEnd now s, All-shut now ss)

module _ {V : Type 0} (elapsed : String → String → ℕ) (le : String → String → Bool) where
  -- What one call adds to the store, and when.
  record IsBatch (t t' : RunTracer V) (stored stored' batch : List (TraceSpan V)) : Type 0 where
    added : stored' ≡ stored ++ batch
    over : All HasEnd batch
    once : t.flushed ≡ true → (batch ≡ []) × (t'.flushed ≡ true)
    then_flushed : (batch ≡ []) ⊎ (t'.flushed ≡ true)

  nothing :
      (t t' : RunTracer V) (stored : List (TraceSpan V))
      → t'.flushed ≡ t.flushed
      → IsBatch t t' stored stored []
  nothing t t' stored same = record {
    added = ground (arith, append-nil stored);
    over = tt;
    once = λ h. (refl, same ∙ h);
    then_flushed = inl refl;
  }

  written :
      (persisted : Bool) (now : TraceSpan V → String) (ss stored : List (TraceSpan V))
      → (batch : List (TraceSpan V)) × (write_spans elapsed le persisted
            (map (shut elapsed now) ss)
            stored
          ≡ stored ++ batch)
        × All HasEnd batch
  unfolding mutate
  written persisted now [] stored = ([], ground (arith, append-nil stored), tt)
  written true now (s ∷ ss) stored =
      (map (shut elapsed now) (s ∷ ss), refl, All-shut elapsed now (s ∷ ss))
  written false now (s ∷ ss) stored = ([], ground (arith, append-nil stored), tt)

  flush_branch :
      (b : Bool) (now : TraceSpan V → String) (persisted : Bool) (t : RunTracer V)
      (stored : List (TraceSpan V))
      → t.flushed ≡ b
      → (batch : List (TraceSpan V)) × IsBatch t
          (if b then (t, stored) else first_flush elapsed le now persisted (t, stored)).0
          stored
          (if b then (t, stored) else first_flush elapsed le now persisted (t, stored)).1
          batch
  flush_branch true now persisted t stored e = ([], nothing t t stored refl)
  flush_branch false now persisted t stored e =
      let (batch, f, ends) = written persisted now (collected le t) stored in
      (batch, record { added = f; over = ends; once = λ h. cc (h, e); then_flushed = inr refl })

  ended_flag :
      (now id : String) (o : Option (Outcome V)) (t : RunTracer V)
      → (end_span elapsed now id o t).flushed ≡ t.flushed
  unfolding end_span
  ended_flag now id o t = elim (Bool-cases (elem id t.ended)) [
    | inl h ↦ rw h refl
    | inr h ↦ rw h refl
  ]

  call-IsBatch :
      (c : TraceCall V) (t : RunTracer V) (stored : List (TraceSpan V))
      → (batch : List (TraceSpan V)) × IsBatch t
          (run_call elapsed le c (t, stored)).0
          stored
          (run_call elapsed le c (t, stored)).1
          batch
  unfolding run_call flush open_span close_span event
  call-IsBatch (opened now id o) t stored = ([], nothing t _ stored refl)
  call-IsBatch (ended now id o) t stored =
      ([], nothing t (end_span elapsed now id o t) stored (ended_flag now id o t))
  call-IsBatch (closed now id o) t stored = ([], nothing t _ stored refl)
  call-IsBatch (happened at id status o) t stored = ([], nothing t _ stored refl)
  call-IsBatch (flushed now persisted) t stored = flush_branch t.flushed now persisted t stored refl

  calls-IsBatch :
      (cs : List (TraceCall V)) (t : RunTracer V) (stored : List (TraceSpan V))
      → (batch : List (TraceSpan V)) × IsBatch t
          (run_calls elapsed le cs (t, stored)).0
          stored
          (run_calls elapsed le cs (t, stored)).1
          batch
  unfolding run_calls
  calls-IsBatch [] t stored = ([], nothing t t stored refl)
  calls-IsBatch (c ∷ cs) t stored =
      let (first, one) = call-IsBatch c t stored in
      let next = run_call elapsed le c (t, stored) in
      let (later, more) = calls-IsBatch cs next.0 next.1 in
      elim one.then_flushed [
        | inl e ↦ (
          later,
          record {
            added =
                more.added
                ∙ ap (λ l. l ++ later) (one.added ∙ ap (λ b. stored ++ b) e ∙ append-nil stored);
            over = more.over;
            once = λ h. more.once (one.once h).1;
            then_flushed = more.then_flushed;
          },
        )
        | inr done ↦ (
          first,
          record {
            added =
                more.added
                ∙ ap (λ b. next.1 ++ b) (more.once done).0
                ∙ append-nil next.1
                ∙ one.added;
            over = one.over;
            once = λ h. ((one.once h).0, (more.once done).1);
            then_flushed = inr (more.once done).1;
          },
        )
      ]

  -- What the calls of a tracer add stands at the end of the store, with times at which it ended, and
  -- a tracer that was flushed adds nothing.
  pub calls_add :
      (cs : List (TraceCall V)) (t : RunTracer V) (stored : List (TraceSpan V))
      → (batch : List (TraceSpan V)) × ((run_calls elapsed le cs (t, stored)).1 ≡ stored ++ batch)
        × All HasEnd batch
        × (t.flushed ≡ true → batch ≡ [])
  calls_add cs t stored =
      let (batch, b) = calls-IsBatch cs t stored in (batch, b.added, b.over, λ h. (b.once h).0)

  pub calls_add_nothing :
      (cs : List (TraceCall V)) (t : RunTracer V) (stored : List (TraceSpan V))
      → t.flushed ≡ true
      → (run_calls elapsed le cs (t, stored)).1 ≡ stored
  calls_add_nothing cs t stored h =
      let (batch, added, over, once) = calls_add cs t stored in
      added ∙ ap (λ b. stored ++ b) (once h) ∙ append-nil stored
