-- ===== src/Trace/Lasting.antt =====
-- The spans of a run from their opening to the store (apps/server/src/codify/trace.ts).
use Prim.Native.String.{String}
use mathlib.Core.Path.{subst}
use army_of_god.Prelude.{
  ℕ, ◌≡◌, refl, ap, sym, ◌∙◌, inl, inr, Bool, true, false, ◌||◌, Option, none, some, List, [], ◌∷◌,
  ◌++◌, map, arith, any, elem, In, In-map, In-append_left, In-append_right, All, All→In, ◌==◌, eq→≡,
  if◌then◌else◌, string_eq, Bool-cases, keys, put, keys-put, keys→lookup, lookup→In, In-sort_by,
}
use army_of_god.Store.{mutate}
use army_of_god.Trace.{
  TraceSpan, Outcome, RunTracer, SpanStatus, new_tracer, is_ended, at_span, open_span, event,
  end_span, close_span, shut, settled_span, precedes, new_span, instant, status_or, collected,
  write_spans, first_flush, flush, TraceCall, opened, ended, closed, happened, flushed, run_call,
  run_calls,
}
use army_of_god.Trace.Written.{HasEnd, shut-HasEnd, calls_add}

-- Before the flush: every span that was opened is collected under its id.
module _ {V : Type 0} where
  -- A span of this run, under the key that is its id.
  abbrev IsKeyed : String → String × TraceSpan V → Type 0
  IsKeyed run_id p = (p.1.id ≡ p.0) × (p.1.run_id ≡ run_id)

  module _ (P : String × TraceSpan V → Type 0) where
    All-put :
        (k : String) (s : TraceSpan V) (m : List (String × TraceSpan V))
        → All P m
        → P (k, s)
        → All P (put k s m)
    All-put k s [] a h = (h, tt)
    All-put k s ((l, u) ∷ m) a h = elim (Bool-cases (k == l)) [
      | inl same ↦ rw same (rw (eq→≡ k l same) at h, a.1)
      | inr other ↦ rw other (a.0, All-put k s m a.1 h)
    ]

    All-at_span :
        (id : String) (f : TraceSpan V → TraceSpan V) (m : List (String × TraceSpan V))
        → ((k : String) (s : TraceSpan V) → P (k, s) → P (k, f s))
        → All P m
        → All P (at_span id f m)
    All-at_span id f [] h a = tt
    All-at_span id f ((l, u) ∷ m) h a = elim (Bool-cases (l == id)) [
      | inl hit ↦ rw hit (h l u a.0, a.1)
      | inr miss ↦ rw miss (a.0, All-at_span id f m h a.1)
    ]

  keys-at_span :
      (id : String) (f : TraceSpan V → TraceSpan V) (m : List (String × TraceSpan V))
      → keys (at_span id f m) ≡ keys m
  keys-at_span id f [] = refl
  keys-at_span id f ((l, u) ∷ m) = elim (Bool-cases (l == id)) [
    | inl hit ↦ rw hit refl
    | inr miss ↦ rw miss (ap (λ ks. l ∷ ks) (keys-at_span id f m))
  ]

-- The ids under which calls open spans or record events, and whether a call flushes.
abbrev pub opened_ids : {V : Type 0} → List (TraceCall V) → List String
opened_ids [] = []
opened_ids (opened now id o ∷ cs) = id ∷ opened_ids cs
opened_ids (happened at id status o ∷ cs) = id ∷ opened_ids cs
opened_ids (_ ∷ cs) = opened_ids cs

abbrev pub flushes : {V : Type 0} → TraceCall V → Bool
flushes (flushed now persisted) = true
flushes _ = false

module _ {V : Type 0} (elapsed : String → String → ℕ) (le : String → String → Bool) where
  -- What calls that do not flush keep, and the ids that they add.
  pub record IsCollecting (run_id : String) (t t' : RunTracer V)
      (stored stored' : List (TraceSpan V)) (ids : List String) : Type 0 where
    pub open_still : t'.flushed ≡ t.flushed
    pub same_run : t'.run_id ≡ t.run_id
    pub unwritten : stored' ≡ stored
    pub keyed : t.run_id ≡ run_id → All (IsKeyed run_id) t.spans → All (IsKeyed run_id) t'.spans
    pub known :
        (id : String)
        → elem id ids || elem id (keys t.spans) ≡ true
        → elem id (keys t'.spans) ≡ true

  keep-IsKeyed :
      (run_id : String) (now : String) (o : Option (Outcome V)) (k : String) (s : TraceSpan V)
      → IsKeyed run_id (k, s)
      → IsKeyed run_id (k, settled_span elapsed now o s)
  keep-IsKeyed run_id now none k s h = h
  keep-IsKeyed run_id now (some o) k s h = h

  added_span :
      (run_id : String) (t : RunTracer V) (s : TraceSpan V) (id : String)
      (stored : List (TraceSpan V))
      → s.id ≡ id
      → s.run_id ≡ t.run_id
      → IsCollecting run_id t (record t { spans = put id s t.spans }) stored stored (id ∷ [])
  added_span run_id t s id stored e f = record {
    open_still = refl;
    same_run = refl;
    unwritten = refl;
    keyed = λ r a. All-put (IsKeyed run_id) id s t.spans a (e, f ∙ r);
    known = λ j h. ground (arith, keys-put j id s t.spans, h);
  }

  changed_span :
      (run_id : String) (t : RunTracer V) (f : TraceSpan V → TraceSpan V) (id : String)
      (over : List String) (stored : List (TraceSpan V))
      → ((k : String) (s : TraceSpan V) → IsKeyed run_id (k, s) → IsKeyed run_id (k, f s))
      → IsCollecting run_id t
          (record t { ended = over; spans = at_span id f t.spans })
          stored
          stored
          []
  changed_span run_id t f id over stored h = record {
    open_still = refl;
    same_run = refl;
    unwritten = refl;
    keyed = λ r a. All-at_span (IsKeyed run_id) id f t.spans h a;
    known = λ j k. rw (keys-at_span id f t.spans) k;
  }

  unchanged :
      (run_id : String) (t : RunTracer V) (stored : List (TraceSpan V))
      → IsCollecting run_id t t stored stored []
  unchanged run_id t stored = record {
    open_still = refl;
    same_run = refl;
    unwritten = refl;
    keyed = λ r a. a;
    known = λ j k. k;
  }

  ended_case :
      (run_id now id : String) (o : Option (Outcome V)) (t : RunTracer V)
      (stored : List (TraceSpan V)) (b : Bool)
      → IsCollecting run_id t
          (if b then t else record t {
            ended = id ∷ t.ended;
            spans = at_span id (settled_span elapsed now o) t.spans;
          })
          stored
          stored
          []
  ended_case run_id now id o t stored true = unchanged run_id t stored
  ended_case run_id now id o t stored false =
      changed_span run_id t (settled_span elapsed now o) id (id ∷ t.ended) stored
        (keep-IsKeyed run_id now o)

  opened_ids_cons :
      (id : String) (c : TraceCall V) (cs : List (TraceCall V))
      → elem id (opened_ids (c ∷ cs)) ≡ (elem id (opened_ids (c ∷ [])) || elem id (opened_ids cs))
  opened_ids_cons id (opened now i o) cs = ground arith
  opened_ids_cons id (ended now i o) cs = refl
  opened_ids_cons id (closed now i o) cs = refl
  opened_ids_cons id (happened at i status o) cs = ground arith
  opened_ids_cons id (flushed now persisted) cs = refl

  call_collects :
      (run_id : String) (c : TraceCall V) (t : RunTracer V) (stored : List (TraceSpan V))
      → flushes c ≡ false
      → IsCollecting run_id t
          (run_call elapsed le c (t, stored)).0
          stored
          (run_call elapsed le c (t, stored)).1
          (opened_ids (c ∷ []))
  unfolding run_call open_span close_span end_span event
  call_collects run_id (opened now id o) t stored h =
      added_span run_id t (new_span now id o t) id stored refl refl
  call_collects run_id (ended now id o) t stored h =
      ended_case run_id now id o t stored (elem id t.ended)
  call_collects run_id (closed now id o) t stored h =
      changed_span run_id t (λ s. if is_ended s then s else settled_span elapsed now o s) id t.ended
        stored
        (λ k s i. elim (Bool-cases (is_ended s)) [
          | inl over ↦ rw over i
          | inr running ↦ rw running (keep-IsKeyed run_id now o k s i)
        ])
  call_collects run_id (happened at id status o) t stored h =
      added_span run_id t (instant at (status_or status SpanStatus.ok) (new_span at id o t)) id
        stored refl refl
  call_collects run_id (flushed now persisted) t stored h = cc

  pub calls_collect :
      (run_id : String) (cs : List (TraceCall V)) (t : RunTracer V) (stored : List (TraceSpan V))
      → any flushes cs ≡ false
      → IsCollecting run_id t
          (run_calls elapsed le cs (t, stored)).0
          stored
          (run_calls elapsed le cs (t, stored)).1
          (opened_ids cs)
  unfolding run_calls
  calls_collect run_id [] t stored h = unchanged run_id t stored
  calls_collect run_id (c ∷ cs) t stored h =
      let next = run_call elapsed le c (t, stored) in
      let one = call_collects run_id c t stored (ground (arith, h)) in
      let more = calls_collect run_id cs next.0 next.1 (ground (arith, h)) in
      record {
        open_still = more.open_still ∙ one.open_still;
        same_run = more.same_run ∙ one.same_run;
        unwritten = more.unwritten ∙ one.unwritten;
        keyed = λ r a. more.keyed (one.same_run ∙ r) (one.keyed r a);
        known = λ id k. more.known id (ground (arith, one.known id, opened_ids_cons id c cs, k));
      }

  pub run_calls-append :
      (cs ds : List (TraceCall V)) (s : RunTracer V × List (TraceSpan V))
      → run_calls elapsed le (cs ++ ds) s ≡ run_calls elapsed le ds (run_calls elapsed le cs s)
  unfolding run_calls
  run_calls-append [] ds s = refl
  run_calls-append (c ∷ cs) ds s = run_calls-append cs ds (run_call elapsed le c s)

  -- A span of this run, with this id and a time at which it ended.
  abbrev pub IsStored : String → String → List (TraceSpan V) → Type 0
  IsStored run_id id stored =
      (s : TraceSpan V) × In s stored × (s.id ≡ id) × (s.run_id ≡ run_id) × HasEnd s

  written_all :
      (ss stored : List (TraceSpan V))
      → (x : TraceSpan V) → In x ss
      → In x (write_spans elapsed le true ss stored)
  unfolding mutate
  written_all [] stored x i = absurd i
  written_all (s ∷ ss) stored x i = In-append_right x stored (s ∷ ss) i

  shut_same :
      (now : TraceSpan V → String) (s : TraceSpan V)
      → ((shut elapsed now s).id ≡ s.id) × ((shut elapsed now s).run_id ≡ s.run_id)
  shut_same now s = elim (Bool-cases (is_ended s)) [
    | inl over ↦ rw over (refl, refl)
    | inr running ↦ rw running (refl, refl)
  ]

  first_flush-IsStored :
      (run_id id : String) (now : TraceSpan V → String) (t : RunTracer V)
      (stored : List (TraceSpan V))
      → All (IsKeyed run_id) t.spans
      → elem id (keys t.spans) ≡ true
      → IsStored run_id id (first_flush elapsed le now true (t, stored)).1
  unfolding collected
  first_flush-IsStored run_id id now t stored a h =
      let (s, e) = keys→lookup id t.spans h in
      let at = lookup→In id s t.spans e in
      let k : IsKeyed run_id (id, s) = All→In (IsKeyed run_id) t.spans a at in
      let there =
        In-sort_by (precedes le) s (map (λ p. p.1) t.spans)
          (In-map (λ (p : String × TraceSpan V). p.1) (id, s) t.spans at) in
      let same = shut_same now s in
      (
        shut elapsed now s,
        written_all (map (shut elapsed now) (collected le t)) stored (shut elapsed now s)
            (In-map (shut elapsed now) s (collected le t) there),
        same.0 ∙ k.0,
        same.1 ∙ k.1,
        shut-HasEnd elapsed now s,
      )

  flush_of_open :
      (now : TraceSpan V → String) (t : RunTracer V) (stored : List (TraceSpan V))
      → t.flushed ≡ false
      → run_call elapsed le (flushed now true) (t, stored)
        ≡ first_flush elapsed le now true (t, stored)
  unfolding run_call flush
  flush_of_open now t stored h =
      ap (λ (b : Bool). if b then (t, stored) else first_flush elapsed le now true (t, stored)) h

  -- Once a run's tracer is flushed and the store takes the write, every span that was opened and
  -- every event that was recorded before is in the store, under its id and its run, with a time at
  -- which it ended, whatever the calls before did and whatever calls follow.
  pub flushed-IsStored :
      (trace_id run_id agent_id id : String) (earlier later : List (TraceCall V))
      (now : TraceSpan V → String) (stored : List (TraceSpan V))
      → any flushes earlier ≡ false
      → elem id (opened_ids earlier) ≡ true
      → IsStored run_id id
          (run_calls elapsed le
            (earlier ++ flushed now true ∷ later)
            (new_tracer trace_id run_id agent_id, stored)).1
  unfolding run_calls
  flushed-IsStored trace_id run_id agent_id id earlier later now stored quiet known =
      let start : RunTracer V = new_tracer trace_id run_id agent_id in
      let c = calls_collect run_id earlier start stored quiet in
      let mid = run_calls elapsed le earlier (start, stored) in
      let after_flush = run_call elapsed le (flushed now true) mid in
      let here : IsStored run_id id after_flush.1 =
        subst (λ (x : RunTracer V × List (TraceSpan V)). IsStored run_id id x.1)
          (sym (flush_of_open now mid.0 mid.1 c.open_still))
          (first_flush-IsStored run_id id now mid.0 mid.1 (c.keyed refl tt)
            (c.known id (ground (arith, known)))) in
      let (s, i, e1, e2, e3) = here in
      let (batch, e, q, r) = calls_add elapsed le later after_flush.0 after_flush.1 in
      subst (λ (x : RunTracer V × List (TraceSpan V)). IsStored run_id id x.1)
        (sym (run_calls-append earlier (flushed now true ∷ later) (start, stored)))
        (
          s,
          subst (λ (x : List (TraceSpan V)). In s x) (sym e)
              (In-append_left s after_flush.1 batch i),
          e1,
          e2,
          e3,
        )
