-- ===== src/Scope/Frequent.antt =====
-- `frequent` of apps/server/src/codify/scope.ts against a count of the lists that hold a value.
use army_of_god.Prelude.{
  ℕ, zero, suc, ◌+◌, ◌*◌, ◌≤◌, ◌<◌, ◌≡◌, ◌≢◌, refl, sym, ap, ◌∙◌, ◌↔◌, ◌⊎◌, inl, inr, Bool, false,
  List, [], ◌∷◌, map, arith, length, filter, elem, dedupe, In, In-map, In-of_map, In-filter,
  In-filter_intro, In→elem, elem→In, In-dedupe, In-of_dedupe, dedupe-IsDistinct, IsDistinct,
  count_if, nat_beq, leb, leb→le, le→leb, ◌==◌, if◌then◌else◌, Bool-cases, Bool-eq_of_iff,
}
use army_of_god.Text.{Text, text_eq, text_beq_iff}
use army_of_god.Scope.{
  Floor, bump, bump_all, tally, ranks_before, insert_ranked, sort_ranked, frequent,
}

-- In how many lists a value stands.
abbrev pub occurrences : Text → List (List Text) → ℕ
occurrences v ls = count_if (λ l. elem v l) ls

abbrev one_if : Bool → ℕ
one_if b = if b then 1 else 0

-- The count of a value, 0 where it has none.
tallied : Text → List (Text × ℕ) → ℕ
tallied v [] = 0
tallied v ((w, n) ∷ m) = if w == v then n else tallied v m

tallied-bump :
    (v w : Text) (m : List (Text × ℕ)) → tallied w (bump v m) ≡ tallied w m + one_if (v == w)
unfolding tallied bump
tallied-bump v w [] = ground arith
tallied-bump v w ((u, n) ∷ m) =
    ground (arith, tallied-bump v w m, text_beq_iff u v, text_beq_iff u w, text_beq_iff v w)

tallied-bump_all :
    (vs : List Text) (m : List (Text × ℕ)) (w : Text)
    → IsDistinct vs
    → tallied w (bump_all vs m) ≡ tallied w m + one_if (elem w vs)
unfolding bump_all
tallied-bump_all [] m w d = omega arith
tallied-bump_all (v ∷ vs) m w d = ground (
  arith,
  tallied-bump_all vs (bump v m) w d.1,
  tallied-bump v w m,
  text_beq_iff v w,
  text_beq_iff w v,
  d.0,
  same_elem v w vs,
)
  where
    same_elem : (v w : Text) (vs : List Text) → v ≡ w → elem v vs ≡ elem w vs
    same_elem v w vs e = ap (λ x. elem x vs) e

elem-dedupe : (v : Text) (l : List Text) → elem v (dedupe l) ≡ elem v l
elem-dedupe v l =
    Bool-eq_of_iff _ _ (λ h. In→elem v l (In-of_dedupe l v (elem→In v (dedupe l) h)))
      (λ h. In→elem v (dedupe l) (In-dedupe l v (elem→In v l h)))

tallied-tally :
    (ls : List (List Text)) (m : List (Text × ℕ)) (w : Text)
    → tallied w (tally ls m) ≡ tallied w m + occurrences w ls
unfolding tally
tallied-tally [] m w = omega arith
tallied-tally (l ∷ ls) m w = ground (
  arith,
  tallied-tally ls (bump_all (dedupe l) m) w,
  tallied-bump_all (dedupe l) m w (dedupe-IsDistinct l),
  elem-dedupe w l,
)

tallied→In : (v : Text) (n : ℕ) (m : List (Text × ℕ)) → tallied v m ≡ suc n → In (v, suc n) m
unfolding tallied
tallied→In v n [] h = absurd (omega arith)
tallied→In v n ((w, k) ∷ m) h = elim (Bool-cases (w == v)) [
  | inl same ↦ let e : k ≡ suc n = rw same at h in inl (ground (arith, text_beq_iff w v, same))
  | inr other ↦ inr (tallied→In v n m (rw other at h))
]

abbrev keys : List (Text × ℕ) → List Text
keys m = map (λ e. e.0) m

-- Each key stands once, with a positive count.
record IsTally (m : List (Text × ℕ)) : Type 0 where
  distinct : IsDistinct (keys m)
  positive : (e : Text × ℕ) → In e m → 0 < e.1

elem-keys-bump :
    (a v : Text) (m : List (Text × ℕ)) → a ≢ v → elem a (keys (bump v m)) ≡ elem a (keys m)
unfolding bump
elem-keys-bump a v [] ne = ground (arith, text_beq_iff a v)
elem-keys-bump a v ((w, n) ∷ m) ne = ground (arith, elem-keys-bump a v m, text_beq_iff w v)

bump-IsDistinct :
    (v : Text) (m : List (Text × ℕ)) → IsDistinct (keys m) → IsDistinct (keys (bump v m))
unfolding bump
bump-IsDistinct v [] d = (refl, tt)
bump-IsDistinct v ((w, n) ∷ m) d = elim (Bool-cases (w == v)) [
  | inl same ↦ rw same d
  | inr other ↦ rw other (
    elem-keys-bump w v m (λ e. cc (other, (text_beq_iff w v).1 e)) ∙ d.0,
    bump-IsDistinct v m d.1,
  )
]

bump-positive :
    (v : Text) (m : List (Text × ℕ))
    → ((e : Text × ℕ) → In e m → 0 < e.1)
    → (e : Text × ℕ) → In e (bump v m)
    → 0 < e.1
unfolding bump
bump-positive v [] h e (inl p) = rw p (omega arith)
bump-positive v [] h e (inr i) = absurd i
bump-positive v ((w, n) ∷ m) h e i = elim (Bool-cases (w == v)) [
  | inl same ↦
      let j : (e ≡ (w, suc n)) ⊎ In e m = rw same at i in
      elim j [ inl p ↦ rw p (omega arith) | inr k ↦ h e (inr k) ]
  | inr other ↦
      let j : (e ≡ (w, n)) ⊎ In e (bump v m) = rw other at i in
      elim j [ inl p ↦ h e (inl p) | inr k ↦ bump-positive v m (λ x l. h x (inr l)) e k ]
]

bump_all-IsTally : (vs : List Text) (m : List (Text × ℕ)) → IsTally m → IsTally (bump_all vs m)
unfolding bump_all
bump_all-IsTally [] m t = t
bump_all-IsTally (v ∷ vs) m t =
    bump_all-IsTally vs (bump v m) (record {
      distinct = bump-IsDistinct v m t.distinct;
      positive = bump-positive v m t.positive;
    })

tally-IsTally : (ls : List (List Text)) (m : List (Text × ℕ)) → IsTally m → IsTally (tally ls m)
unfolding tally
tally-IsTally [] m t = t
tally-IsTally (l ∷ ls) m t =
    tally-IsTally ls (bump_all (dedupe l) m) (bump_all-IsTally (dedupe l) m t)

In→tallied :
    (m : List (Text × ℕ)) (e : Text × ℕ) → IsDistinct (keys m) → In e m → tallied e.0 m ≡ e.1
unfolding tallied
In→tallied [] e d i = absurd i
In→tallied ((w, n) ∷ m) e d (inl p) =
    ground
      (arith, p, ap (λ (x : Text × ℕ). x.0) p, ap (λ (x : Text × ℕ). x.1) p, text_beq_iff w e.0)
In→tallied ((w, n) ∷ m) e d (inr i) = elim (Bool-cases (w == e.0)) [
  | inl same ↦
      let there = In→elem e.0 (keys m) (In-map (λ (x : Text × ℕ). x.0) e m i) in
      cc (d.0, rw (← (text_beq_iff w e.0).0 same) at there)
  | inr other ↦ rw other (In→tallied m e d.1 i)
]

-- The tally of the lists holds each value that stands in one, with the number of lists.
tally_iff :
    (ls : List (List Text)) (v : Text) (n : ℕ)
    → In (v, n) (tally ls []) ↔ ((occurrences v ls ≡ n) × (0 < n))
tally_iff ls v n = (to, from n)
  where
    start : IsTally (tally ls [])
    start = tally-IsTally ls [] (record { distinct = tt; positive = λ e i. absurd i })

    total : tallied v (tally ls []) ≡ occurrences v ls
    total = unfold tallied in omega (arith, tallied-tally ls [] v)

    to : In (v, n) (tally ls []) → (occurrences v ls ≡ n) × (0 < n)
    to i = (sym total ∙ In→tallied (tally ls []) (v, n) start.distinct i, start.positive (v, n) i)

    from : (k : ℕ) → (occurrences v ls ≡ k) × (0 < k) → In (v, k) (tally ls [])
    from zero h = absurd (omega arith)
    from (suc k) h = tallied→In v k (tally ls []) (total ∙ h.0)

module _ (locale_lt : Text → Text → Bool) where
  In-of_insert_ranked :
      (x e : Text × ℕ) (es : List (Text × ℕ))
      → In x (insert_ranked locale_lt e es)
      → (x ≡ e) ⊎ In x es
  unfolding insert_ranked
  In-of_insert_ranked x e [] i = i
  In-of_insert_ranked x e (f ∷ fs) i = elim (Bool-cases (ranks_before locale_lt e f)) [
    | inl first ↦ let j : (x ≡ e) ⊎ In x (f ∷ fs) = rw first at i in j
    | inr later ↦
        let j : (x ≡ f) ⊎ In x (insert_ranked locale_lt e fs) = rw later at i in
        elim j [
          | inl p ↦ inr (inl p)
          | inr k ↦ elim (In-of_insert_ranked x e fs k) [ inl p ↦ inl p | inr l ↦ inr (inr l) ]
        ]
  ]

  In-insert_ranked :
      (x e : Text × ℕ) (es : List (Text × ℕ))
      → (x ≡ e) ⊎ In x es
      → In x (insert_ranked locale_lt e es)
  unfolding insert_ranked
  In-insert_ranked x e [] i = i
  In-insert_ranked x e (f ∷ fs) i = elim (Bool-cases (ranks_before locale_lt e f)) [
    | inl first ↦ rw first i
    | inr later ↦ rw later (elim i [
      | inl p ↦ inr (In-insert_ranked x e fs (inl p))
      | inr (inl p) ↦ inl p
      | inr (inr k) ↦ inr (In-insert_ranked x e fs (inr k))
    ])
  ]

  In-of_sort_ranked :
      (x : Text × ℕ) (es : List (Text × ℕ)) → In x (sort_ranked locale_lt es) → In x es
  unfolding sort_ranked
  In-of_sort_ranked x [] i = i
  In-of_sort_ranked x (e ∷ es) i = elim (In-of_insert_ranked x e (sort_ranked locale_lt es) i) [
    | inl p ↦ inl p
    | inr k ↦ inr (In-of_sort_ranked x es k)
  ]

  In-sort_ranked : (x : Text × ℕ) (es : List (Text × ℕ)) → In x es → In x (sort_ranked locale_lt es)
  unfolding sort_ranked
  In-sort_ranked x [] i = i
  In-sort_ranked x (e ∷ es) (inl p) = In-insert_ranked x e (sort_ranked locale_lt es) (inl p)
  In-sort_ranked x (e ∷ es) (inr i) =
      In-insert_ranked x e (sort_ranked locale_lt es) (inr (In-sort_ranked x es i))

  abbrev clears : List (List Text) → Floor → Text × ℕ → Bool
  clears lists floor e = leb (length lists * floor.part) (e.1 * floor.whole)

  frequent_sound :
      (lists : List (List Text)) (floor : Floor) (v : Text)
      → In v (frequent locale_lt lists floor)
      → (0 < occurrences v lists) × (length lists * floor.part ≤ occurrences v lists * floor.whole)
  unfolding frequent
  frequent_sound lists floor v i = elim (Bool-cases (nat_beq (length lists) 0)) [
    | inl none_at_all ↦ absurd (rw none_at_all at i)
    | inr some_lists ↦
        let found =
          In-of_map (λ (e : Text × ℕ). e.0) v
            (sort_ranked locale_lt (filter (clears lists floor) (tally lists [])))
            (rw some_lists at i) in
        let kept =
          In-of_sort_ranked found.0 (filter (clears lists floor) (tally lists [])) found.1 in
        let (there, enough) = In-filter (clears lists floor) (tally lists []) kept in
        let (count, positive) = (tally_iff lists (found.0).0 (found.0).1).0 there in
        rw found.2 (omega (arith, count, leb→le _ _ enough, positive), rw count (leb→le _ _ enough))
  ]

  frequent_complete :
      (lists : List (List Text)) (floor : Floor) (v : Text)
      → 0 < occurrences v lists
      → length lists * floor.part ≤ occurrences v lists * floor.whole
      → In v (frequent locale_lt lists floor)
  unfolding frequent
  frequent_complete [] floor v positive enough = absurd (omega arith)
  frequent_complete (l ∷ ls) floor v positive enough =
      let lists = l ∷ ls in
      let e : Text × ℕ = (v, occurrences v lists) in
      let there : In e (tally lists []) =
        (tally_iff lists v (occurrences v lists)).1 (refl, positive) in
      let kept = In-filter_intro (clears lists floor) (tally lists []) there (le→leb _ _ enough) in
      let some_lists : nat_beq (length (l ∷ ls)) 0 ≡ false = ground arith in
      rw some_lists (
        In-map (λ (x : Text × ℕ). x.0) e
          (sort_ranked locale_lt (filter (clears lists floor) (tally lists [])))
          (In-sort_ranked e (filter (clears lists floor) (tally lists [])) kept))

  -- A value is frequent exactly when it stands in some list and in at least the given share of
  -- them.
  pub frequent_iff :
      (lists : List (List Text)) (floor : Floor) (v : Text)
      → In v (frequent locale_lt lists floor) ↔ (
          (0 < occurrences v lists)
          × (length lists * floor.part ≤ occurrences v lists * floor.whole))
  frequent_iff lists floor v =
      (frequent_sound lists floor v, λ h. frequent_complete lists floor v h.0 h.1)
