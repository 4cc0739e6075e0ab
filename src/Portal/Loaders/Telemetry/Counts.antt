-- ===== src/Portal/Loaders/Telemetry/Counts.antt =====
-- The counts that the frequency chart shows, against the audit log.
use the_black_hole.Prelude.{
  ℕ, zero, suc, ◌+◌, ◌≤◌, ◌<◌, String, List, [], ◌∷◌, ◌≡◌, refl, ◌∙◌, ◌⊎◌, inl, inr, ◌===◌, false,
  if◌then◌else◌, length, take, keep_if, leb, eq_iff, All, All-map, All-take, length-take-le, subst,
  arith, if_cases,
}
use the_black_hole.Portal.Types.{Log}
use the_black_hole.Portal.Loaders.Telemetry.{
  count_name, count_names, insert_count, sort_counts, frequency_data,
}

abbrev Counts : Type 0
Counts = List (String × ℕ)

-- The number that is counted for a name; a name that is not in the list was counted 0 times.
unfoldable pub count_of : String → Counts → ℕ
count_of name [] = 0
count_of name ((key, n) ∷ m) = if key === name then n else count_of name m

-- How often the log has a tool.
abbrev pub calls : String → List Log → ℕ
calls name logs = length (keep_if (λ l. l.tool_name === name) logs)

count_of-count_name :
    (n name : String) (m : Counts)
    → count_of n (count_name name m) ≡ (if name === n then count_of n m + 1 else count_of n m)
unfolding count_of count_name
count_of-count_name n name [] = refl
count_of-count_name n name ((key, k) ∷ m) =
    let rest = count_of-count_name n name m in
    let e1 = eq_iff key name in let e2 = eq_iff key n in let e3 = eq_iff name n in ground arith

count_of-count_names :
    (n : String) (logs : List Log) (m : Counts)
    → count_of n (count_names logs m) ≡ count_of n m + calls n logs
unfolding count_names
count_of-count_names n [] m = omega arith
count_of-count_names n (l ∷ ls) m =
    let rest = count_of-count_names n ls (count_name l.tool_name m) in
    let now = count_of-count_name n l.tool_name m in ground arith

counted_from_none : (n : String) (logs : List Log) → count_of n (count_names logs []) ≡ calls n logs
unfolding count_of
counted_from_none n logs = omega (arith, count_of-count_names n logs [])

-- No name is counted in two entries.
abbrev IsDistinct : Counts → Type 0
IsDistinct [] = Unit
IsDistinct ((key, n) ∷ m) = (count_of key m ≡ 0) × IsDistinct m

count_name-IsDistinct : (name : String) (m : Counts) → IsDistinct m → IsDistinct (count_name name m)
unfolding count_of count_name
count_name-IsDistinct name [] d = (refl, tt)
count_name-IsDistinct name ((key, k) ∷ m) d =
    if_cases IsDistinct (key === name) _ _ (λ _. d)
      λ e.
        let here = count_of-count_name key name m in
        let same = eq_iff key name in
        let same' = eq_iff name key in (ground arith, count_name-IsDistinct name m d.1)

count_names-IsDistinct :
    (logs : List Log) (m : Counts) → IsDistinct m → IsDistinct (count_names logs m)
unfolding count_names
count_names-IsDistinct [] m d = d
count_names-IsDistinct (l ∷ ls) m d = count_names-IsDistinct ls _ (count_name-IsDistinct _ m d)

-- An entry that goes behind a larger one has another name, so that the order is of no importance.
behind :
    (n key key' : String) (k k' c r cn : ℕ)
    → (if key' === key then k' else c) ≡ 0
    → (c ≡ 0 → r ≡ (if key === n then k else cn))
    → k < k'
    → (if key' === n then k' else r) ≡ (if key === n then k else (if key' === n then k' else cn))
behind n key key' k k' c r cn absent rest lt =
    let e1 = eq_iff key' key in let e2 = eq_iff key' n in let e3 = eq_iff key n in ground arith

count_of-insert_count :
    (n key : String) (k : ℕ) (m : Counts)
    → count_of key m ≡ 0
    → count_of n (insert_count (key, k) m) ≡ (if key === n then k else count_of n m)
unfolding count_of insert_count
count_of-insert_count n key k [] h = refl
count_of-insert_count n key k ((key', k') ∷ m) h =
    if_cases (λ c. count_of n c ≡ (if key === n then k else count_of n ((key', k') ∷ m))) (leb k' k)
      _ _ (λ _. refl)
      λ e.
        behind n key key' k k' (count_of key m) (count_of n (insert_count (key, k) m))
          (count_of n m) h (count_of-insert_count n key k m) (ground arith)

count_of-sort_counts :
    (n : String) (m : Counts) → IsDistinct m → count_of n (sort_counts m) ≡ count_of n m
unfolding count_of sort_counts
count_of-sort_counts n [] d = refl
count_of-sort_counts n ((key, k) ∷ m) d =
    let first =
      count_of-insert_count n key k (sort_counts m) (count_of-sort_counts key m d.1 ∙ d.0) in
    let rest = count_of-sort_counts n m d.1 in ground arith

-- Each count is at least every later one.
abbrev pub IsDescending : Counts → Type 0
IsDescending [] = Unit
IsDescending ((key, k) ∷ m) = All (λ e. e.1 ≤ k) m × IsDescending m

All-insert_count :
    (b : ℕ) (key : String) (k : ℕ) (m : Counts)
    → k ≤ b
    → All (λ e. e.1 ≤ b) m
    → All (λ e. e.1 ≤ b) (insert_count (key, k) m)
unfolding insert_count
All-insert_count b key k [] h a = (h, tt)
All-insert_count b key k ((key', k') ∷ m) h a =
    if_cases (All (λ e. e.1 ≤ b)) (leb k' k) _ _ (λ _. (h, a))
      (λ _. (a.0, All-insert_count b key k m h a.1))

insert_count-IsDescending :
    (key : String) (k : ℕ) (m : Counts) → IsDescending m → IsDescending (insert_count (key, k) m)
unfolding insert_count
insert_count-IsDescending key k [] d = (tt, tt)
insert_count-IsDescending key k ((key', k') ∷ m) d =
    if_cases IsDescending (leb k' k) _ _
      (λ e. ((ground arith, All-map (λ f. f.1 ≤ k') (λ f. f.1 ≤ k) (λ f h. ground arith) m d.0), d))
      (λ e. (All-insert_count k' key k m (ground arith) d.0, insert_count-IsDescending key k m d.1))

sort_counts-IsDescending : (m : Counts) → IsDescending (sort_counts m)
unfolding sort_counts
sort_counts-IsDescending [] = tt
sort_counts-IsDescending ((key, k) ∷ m) =
    insert_count-IsDescending key k (sort_counts m) (sort_counts-IsDescending m)

count_of-le : (n : String) (b : ℕ) (m : Counts) → All (λ e. e.1 ≤ b) m → count_of n m ≤ b
unfolding count_of
count_of-le n b [] h = omega arith
count_of-le n b ((key, k) ∷ m) h = let rest = count_of-le n b m h.1 in let now = h.0 in ground arith

-- Of a descending list, the first entries have a name's count, or none of them less than it.
count_of-take :
    (n : String) (i : ℕ) (m : Counts)
    → IsDescending m
    → (count_of n (take i m) ≡ count_of n m) ⊎ All (λ e. count_of n m ≤ e.1) (take i m)
unfolding count_of
count_of-take n zero m d = inr tt
count_of-take n (suc i) [] d = inl refl
count_of-take n (suc i) ((key, k) ∷ m) d =
    if_cases
      (λ c.
        ((if key === n then k else count_of n (take i m)) ≡ c)
        ⊎ ((c ≤ k) × All (λ e. c ≤ e.1) (take i m)))
      (key === n) k (count_of n m) (λ e. inl (rw e refl))
      λ e. elim (count_of-take n i m d.1) [
        | inl h ↦ inl (rw e h)
        | inr h ↦ inr (count_of-le n k m d.0, h)
      ]

take-IsDescending : (i : ℕ) (m : Counts) → IsDescending m → IsDescending (take i m)
take-IsDescending zero m d = tt
take-IsDescending (suc i) [] d = tt
take-IsDescending (suc i) ((key, k) ∷ m) d =
    (All-take (λ e. e.1 ≤ k) i m d.0, take-IsDescending i m d.1)

-- The keys that every object of JavaScript inherits.
abbrev pub inherited : List String
inherited =
    "constructor" ∷ "hasOwnProperty" ∷ "isPrototypeOf" ∷ "propertyIsEnumerable" ∷ "toLocaleString"
    ∷ "toString" ∷ "valueOf" ∷ "__proto__" ∷ "__defineGetter__" ∷ "__defineSetter__"
    ∷ "__lookupGetter__" ∷ "__lookupSetter__" ∷ []

-- A call of a tool whose name is none of them.
abbrev pub IsPlain : Log → Type 0
IsPlain l = All (λ key. (l.tool_name === key) ≡ false) inherited

-- Where no tool of the audit log has the name of a key that every object inherits, the frequency chart
-- shows at most five tools, in descending order of their counts, and for every tool either how often the
-- audit log has it, or only tools that were called at least as often.
pub frequency_data-IsTop :
    (n : String) (logs : List Log)
    → All IsPlain logs
    → (length (frequency_data logs) ≤ 5)
      × IsDescending (frequency_data logs)
      × ((count_of n (frequency_data logs) ≡ calls n logs)
          ⊎ All (λ e. calls n logs ≤ e.1) (frequency_data logs))
unfolding frequency_data
frequency_data-IsTop n logs plain =
    let counted = count_names logs [] in
    let down = sort_counts-IsDescending counted in
    (
      length-take-le 5 (sort_counts counted),
      take-IsDescending 5 (sort_counts counted) down,
      subst (λ k. (count_of n (frequency_data logs) ≡ k) ⊎ All (λ e. k ≤ e.1) (frequency_data logs))
          (count_of-sort_counts n counted (count_names-IsDistinct logs [] tt)
            ∙ counted_from_none n logs)
          (count_of-take n 5 (sort_counts counted) down),
    )
