-- ===== src/Store/Atomic.antt =====
-- apps/server/src/store.ts: the outcomes of `mutate`, and of its queue.
use mathlib.Core.Path.{subst}
use army_of_god.Prelude.{◌≡◌, refl, ◌↔◌, Bool, true, false, List, [], ◌∷◌}
use army_of_god.Store.{
  Result, ok, err, MutateError, thrown, not_persisted, commit, mutate, run_queue,
}

module _ {S E A : Type 0} where
  -- What has to hold for each of the three outcomes, the result with the data that is left.
  pub record IsAtomic (persisted : Bool) (m : S → Result E (A × S)) (s : S)
      (o : Result (MutateError E) A × S) : Type 0 where
    -- A value, with new data: the mutation gave both, and they were written.
    pub done : (a : A) (s' : S) → (o ≡ (ok a, s')) ↔ ((persisted ≡ true) × (m s ≡ ok (a, s')))
    -- Not persisted: the mutation gave something that was not written, and the data is the old one.
    pub lost :
        (s' : S)
        → (o ≡ (err not_persisted, s'))
          ↔ ((s' ≡ s) × (persisted ≡ false) × ((a : A) × (t : S) × (m s ≡ ok (a, t))))
    -- What the mutation threw, and the old data, whether or not it could have been written.
    pub failed : (e : E) (s' : S) → (o ≡ (err (thrown e), s')) ↔ ((s' ≡ s) × (m s ≡ err e))

  when_thrown :
      (b : Bool) (m : S → Result E (A × S)) (s : S) (e : E)
      → m s ≡ err e
      → IsAtomic b m s (err (thrown e), s)
  when_thrown b m s e p = record {
    done = λ a s'. (λ h. cc, λ h. cc (p, h.1));
    lost = λ s'. (λ h. cc, λ h. let (a, t, q) = h.2 in cc (p, q));
    failed = λ f s'. (λ h. (cc, cc), λ h. cc (h.0, h.1, p));
  }

  when_written :
      (m : S → Result E (A × S)) (s : S) (a : A) (t : S)
      → m s ≡ ok (a, t)
      → IsAtomic true m s (ok a, t)
  when_written m s a t p = record {
    done = λ b s'. (λ h. (refl, cc), λ h. cc (p, h.1));
    lost = λ s'. (λ h. cc, λ h. cc (h.1));
    failed = λ f s'. (λ h. cc, λ h. cc (p, h.1));
  }

  when_lost :
      (m : S → Result E (A × S)) (s : S) (a : A) (t : S)
      → m s ≡ ok (a, t)
      → IsAtomic false m s (err not_persisted, s)
  when_lost m s a t p = record {
    done = λ b s'. (λ h. cc, λ h. cc (h.0));
    lost = λ s'. (λ h. (cc, refl, (a, t, p)), λ h. cc (h.0));
    failed = λ f s'. (λ h. cc, λ h. cc (p, h.1));
  }

  commit-IsAtomic :
      (b : Bool) (m : S → Result E (A × S)) (s : S) (r : Result E (A × S))
      → m s ≡ r
      → IsAtomic b m s (commit b s r)
  unfolding commit
  commit-IsAtomic b m s (err e) p = when_thrown b m s e p
  commit-IsAtomic true m s (ok (a, t)) p = when_written m s a t p
  commit-IsAtomic false m s (ok (a, t)) p = when_lost m s a t p

  -- `mutate` resolves with a value and new data exactly where the mutation gives both and the write
  -- succeeds; it rejects as not persisted, and the data stays, exactly where the mutation gives both
  -- and the write fails; it rejects with what the mutation throws, and the data stays, exactly where
  -- the mutation throws.
  pub mutate-IsAtomic :
      (persisted : Bool) (m : S → Result E (A × S)) (s : S)
      → IsAtomic persisted m s (mutate persisted m s)
  unfolding mutate
  mutate-IsAtomic persisted m s = commit-IsAtomic persisted m s (m s) refl

  -- The data after a queue: an entry that gave something and was written leads to that, and one
  -- that threw or was not written leads nowhere.
  pub data Leads : List (Bool × (S → Result E (A × S))) → S → S → Type 0 where
    ended : {s : S} → Leads [] s s
    kept :
        {m : S → Result E (A × S)} {ms : List (Bool × (S → Result E (A × S)))} {s t u : S} (a : A)
        → m s ≡ ok (a, t)
        → Leads ms t u
        → Leads ((true, m) ∷ ms) s u
    dropped :
        {m : S → Result E (A × S)} {ms : List (Bool × (S → Result E (A × S)))} {s t u : S} (a : A)
        → m s ≡ ok (a, t)
        → Leads ms s u
        → Leads ((false, m) ∷ ms) s u
    threw :
        {b : Bool} {m : S → Result E (A × S)} {ms : List (Bool × (S → Result E (A × S)))} {s u : S}
        (e : E)
        → m s ≡ err e
        → Leads ms s u
        → Leads ((b, m) ∷ ms) s u

  run_queue_sound :
      (ms : List (Bool × (S → Result E (A × S)))) (s : S) → Leads ms s (run_queue ms s)
  unfolding run_queue mutate commit
  run_queue_sound [] s = ended
  run_queue_sound ((b, m) ∷ ms) s = by_result b (m s) refl (λ t. run_queue_sound ms t)
    where
      by_result :
          (b : Bool) (r : Result E (A × S))
          → m s ≡ r
          → ((t : S) → Leads ms t (run_queue ms t))
          → Leads ((b, m) ∷ ms) s (run_queue ms (commit b s r).1)
      by_result b (err e) p rest = threw e p (rest s)
      by_result true (ok (a, t)) p rest = kept a p (rest t)
      by_result false (ok (a, t)) p rest = dropped a p (rest s)

  run_queue_complete :
      (ms : List (Bool × (S → Result E (A × S)))) (s u : S) → Leads ms s u → run_queue ms s ≡ u
  unfolding run_queue mutate commit
  run_queue_complete _ _ _ ended = refl
  run_queue_complete _ _ u (kept {m} {ms} {s} {t} a p l) = rw p (run_queue_complete ms t u l)
  run_queue_complete _ _ u (dropped {m} {ms} {s} {t} a p l) = rw p (run_queue_complete ms s u l)
  run_queue_complete _ _ u (threw {b} {m} {ms} {s} e p l) = rw p (run_queue_complete ms s u l)

  -- The data after a queue of mutations is exactly that which one entry after another leads to:
  -- an entry that gave new data and was written leads to that data, and one that threw or was not
  -- written changes nothing and does not keep those behind it from being run.
  pub run_queue_iff :
      (ms : List (Bool × (S → Result E (A × S)))) (s u : S) → (run_queue ms s ≡ u) ↔ Leads ms s u
  run_queue_iff ms s u =
      (λ h. subst (λ x. Leads ms s x) h (run_queue_sound ms s), run_queue_complete ms s u)
