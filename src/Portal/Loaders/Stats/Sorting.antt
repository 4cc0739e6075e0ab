-- ===== src/Portal/Loaders/Stats/Sorting.antt =====
-- The 95th percentile of the telemetry view: the durations sorted, and the one at the index that
-- app.js reads.
use the_black_hole.Prelude.{
  ℕ, zero, suc, ◌+◌, ◌*◌, ◌/◌, ◌≤◌, ◌<◌, List, [], ◌∷◌, some, Bool, true, ◌≡◌, refl, sym, ap, ◌∙◌,
  length, keep_if, get_elem?, get_elem?-total, leb, All, All-intro, All-map, All-get_elem?, arith,
  if_cases, some-injective,
}
use the_black_hole.Portal.Types.{Log}
use the_black_hole.Portal.Loaders.Stats.{durations, insert_sorted, sort_numbers, p95_latency}

-- Each number is at most every later one.
abbrev pub IsSorted : List ℕ → Type 0
IsSorted [] = Unit
IsSorted (a ∷ rest) = All (λ b. a ≤ b) rest × IsSorted rest

-- How many numbers pass a test.
abbrev pub tally : (ℕ → Bool) → List ℕ → ℕ
tally p xs = length (keep_if p xs)

All-trans : (a b : ℕ) (xs : List ℕ) → a ≤ b → All (λ c. b ≤ c) xs → All (λ c. a ≤ c) xs
All-trans a b [] h i = tt
All-trans a b (x ∷ xs) h i = (omega (arith, i.0), All-trans a b xs h i.1)

All-insert_sorted :
    (c a : ℕ) (xs : List ℕ) → c ≤ a → All (λ b. c ≤ b) xs → All (λ b. c ≤ b) (insert_sorted a xs)
unfolding insert_sorted
All-insert_sorted c a [] h i = (h, tt)
All-insert_sorted c a (b ∷ bs) h i =
    if_cases (All (λ d. c ≤ d)) (leb a b) _ _ (λ _. (h, i))
      (λ _. (i.0, All-insert_sorted c a bs h i.1))

insert_sorted-IsSorted : (a : ℕ) (xs : List ℕ) → IsSorted xs → IsSorted (insert_sorted a xs)
unfolding insert_sorted
insert_sorted-IsSorted a [] s = (tt, tt)
insert_sorted-IsSorted a (b ∷ bs) s =
    if_cases IsSorted (leb a b) _ _ (λ e. ((ground arith, All-trans a b bs (ground arith) s.0), s))
      (λ e. (All-insert_sorted b a bs (ground arith) s.0, insert_sorted-IsSorted a bs s.1))

sort_numbers-IsSorted : (xs : List ℕ) → IsSorted (sort_numbers xs)
unfolding sort_numbers
sort_numbers-IsSorted [] = tt
sort_numbers-IsSorted (a ∷ rest) =
    insert_sorted-IsSorted a (sort_numbers rest) (sort_numbers-IsSorted rest)

tally_cons : (p : ℕ → Bool) (a : ℕ) (xs : List ℕ) → tally p (a ∷ xs) ≡ tally p (a ∷ []) + tally p xs
tally_cons p a xs = ground arith

tally-insert_sorted :
    (p : ℕ → Bool) (a : ℕ) (xs : List ℕ) → tally p (insert_sorted a xs) ≡ tally p (a ∷ xs)
unfolding insert_sorted
tally-insert_sorted p a [] = refl
tally-insert_sorted p a (b ∷ bs) =
    if_cases (λ ys. tally p ys ≡ tally p (a ∷ b ∷ bs)) (leb a b) _ _ (λ _. refl)
      λ _. omega (
        arith,
        tally-insert_sorted p a bs,
        tally_cons p b (insert_sorted a bs),
        tally_cons p a bs,
        tally_cons p a (b ∷ bs),
        tally_cons p b bs,
      )

tally-sort_numbers : (p : ℕ → Bool) (xs : List ℕ) → tally p (sort_numbers xs) ≡ tally p xs
unfolding sort_numbers
tally-sort_numbers p [] = refl
tally-sort_numbers p (a ∷ rest) = omega (
  arith,
  tally-insert_sorted p a (sort_numbers rest),
  tally_cons p a (sort_numbers rest),
  tally_cons p a rest,
  tally-sort_numbers p rest,
)

tally-All : (p : ℕ → Bool) (xs : List ℕ) → All (λ a. p a ≡ true) xs → tally p xs ≡ length xs
tally-All p [] h = refl
tally-All p (x ∷ xs) h = ground (arith, tally-All p xs h.1, h.0)

-- The number at an index of a sorted list: it and those before it are at most it, and it and those
-- behind it at least.
below_elem :
    (xs : List ℕ) (i d : ℕ) → IsSorted xs → get_elem? xs i ≡ some d → i < tally (λ a. leb a d) xs
below_elem [] i d s e = cc
below_elem (x ∷ xs) zero d s e = let same = some-injective _ _ e in ground arith
below_elem (x ∷ xs) (suc i) d s e =
    let rest = below_elem xs i d s.1 e in
    let least = All-get_elem? (λ b. x ≤ b) xs i d s.0 e in ground arith

above_elem :
    (xs : List ℕ) (i d : ℕ)
    → IsSorted xs
    → get_elem? xs i ≡ some d
    → length xs ≤ i + tally (λ a. leb d a) xs
above_elem [] i d s e = omega arith
above_elem (x ∷ xs) zero d s e =
    let same = some-injective _ _ e in
    let others =
      tally-All (λ a. leb d a) xs
        (All-map (λ b. x ≤ b) (λ b. leb d b ≡ true) (λ b h. ground arith) xs s.0) in
    ground arith
above_elem (x ∷ xs) (suc i) d s e = let rest = above_elem xs i d s.1 e in ground arith

-- The number of the audit entries whose duration passes a test.
abbrev pub entries : (ℕ → Bool) → List Log → ℕ
entries p logs = tally p (durations logs)

length-durations : (logs : List Log) → length (durations logs) ≡ length logs
unfolding durations
length-durations [] = refl
length-durations (l ∷ ls) = ap suc (length-durations ls)

length-sort_numbers : (xs : List ℕ) → length (sort_numbers xs) ≡ length xs
length-sort_numbers xs =
    sym (tally-All (λ _. true) (sort_numbers xs) (All-intro _ (λ _. refl) (sort_numbers xs)))
    ∙ tally-sort_numbers (λ _. true) xs
    ∙ tally-All (λ _. true) xs (All-intro _ (λ _. refl) xs)

-- The telemetry view's 95th percentile of a log that is not empty is a number: more than 95 percent
-- of the entries took at most so long, and at least five percent took at least so long.
pub p95_latency-IsPercentile :
    (l : Log) (ls : List Log)
    → (d : ℕ) × (p95_latency (l ∷ ls) ≡ some d)
      × (95 * length (l ∷ ls) < 100 * entries (λ a. leb a d) (l ∷ ls))
      × (5 * length (l ∷ ls) ≤ 100 * entries (λ a. leb d a) (l ∷ ls))
unfolding p95_latency
p95_latency-IsPercentile l ls =
    let xs = durations (l ∷ ls) in
    let sorted = sort_numbers xs in
    let long = length-sort_numbers xs ∙ length-durations (l ∷ ls) in
    let i = length sorted * 95 / 100 in
    let (d, found) = get_elem?-total sorted i (omega (arith, long)) in
    let below = below_elem sorted i d (sort_numbers-IsSorted xs) found in
    let above = above_elem sorted i d (sort_numbers-IsSorted xs) found in
    (
      d,
      found,
      omega (arith, below, long, tally-sort_numbers (λ a. leb a d) xs),
      omega (arith, above, long, tally-sort_numbers (λ a. leb d a) xs),
    )
