-- ===== src/Redaction/Rules.antt =====
-- One rule of the redaction, and the counts that are reported.
use the_black_hole.Prelude.{
  ℕ, ◌+◌, ◌≤◌, String, List, [], ◌∷◌, Bool, true, false, not, ◌≡◌, refl, sym, ap, ◌∙◌, ◌<>◌,
  <>_assoc, length, keep_if, ◌==◌, if_cases, text_drop, Bool-cases, inl, inr, subst, ==_iff, arith,
}
use the_black_hole.Redaction.{
  Span, CompiledRule, Progress, slice, is_rejected, mask, take_match, take_matches, apply_rule,
}

-- What a rule masks: the matches that its validation accepts.
abbrev pub accepted : CompiledRule → String → List Span → List Span
accepted rule s ms = keep_if (λ m. not (is_rejected rule.validate (slice m.start m.stop s))) ms

-- The text from a position on, with each of the given spans masked.
unfoldable pub spread : CompiledRule → String → ℕ → List Span → String
spread rule s pos [] = text_drop pos s
spread rule s pos (m ∷ ms) = slice pos m.start s <> mask rule s m <> spread rule s m.stop ms

-- What package regexp documents of its matches: they do not overlap and come from left to right.
abbrev pub IsOrdered : ℕ → List Span → Type 0
IsOrdered pos [] = Unit
IsOrdered pos (m ∷ ms) = (pos ≤ m.start) × (m.start ≤ m.stop) × IsOrdered m.stop ms

IsOrdered-weaken : (p q : ℕ) (ms : List Span) → p ≤ q → IsOrdered q ms → IsOrdered p ms
IsOrdered-weaken p q [] h o = tt
IsOrdered-weaken p q (m ∷ ms) h (o, inside, rest) = (omega arith, inside, rest)

-- The text that the loop stands for, at any point of it.
abbrev standing : CompiledRule → String → Progress → List Span → String
standing rule s p ms = p.out <> spread rule s p.last ms

abbrev rejects : CompiledRule → String → Span → Bool
rejects rule s m = is_rejected rule.validate (slice m.start m.stop s)

-- The progress behind an accepted match.
abbrev replaced : CompiledRule → String → Span → Progress → Progress
replaced rule s m p = record {
  out = p.out <> slice p.last m.start s <> mask rule s m;
  last = m.stop;
  count = p.count + 1;
}

take_match_rejected :
    (rule : CompiledRule) (s : String) (m : Span) (p : Progress)
    → rejects rule s m ≡ true
    → take_match rule s m p ≡ p
unfolding take_match
take_match_rejected rule s m p h = ground arith

take_match_accepted :
    (rule : CompiledRule) (s : String) (m : Span) (p : Progress)
    → p.last ≤ m.start
    → rejects rule s m ≡ false
    → take_match rule s m p ≡ (replaced rule s m p)
unfolding take_match
take_match_accepted rule s m p l h = ground arith

accepted_rejected :
    (rule : CompiledRule) (s : String) (m : Span) (ms : List Span)
    → rejects rule s m ≡ true
    → accepted rule s (m ∷ ms) ≡ accepted rule s ms
accepted_rejected rule s m ms h = ground arith

accepted-accepted :
    (rule : CompiledRule) (s : String) (m : Span) (ms : List Span)
    → rejects rule s m ≡ false
    → accepted rule s (m ∷ ms) ≡ m ∷ accepted rule s ms
accepted-accepted rule s m ms h = ground arith

-- The loop from `q` on gives what the spans of `acc` masked from `p` on give.
abbrev Agrees : CompiledRule → String → List Span → Progress → Progress → List Span → Type 0
Agrees rule s ms q p acc =
    ((take_matches rule s ms q).out <> text_drop (take_matches rule s ms q).last s
      ≡ p.out <> spread rule s p.last acc)
    × ((take_matches rule s ms q).count ≡ p.count + length acc)

Agrees-step :
    (rule : CompiledRule) (s : String) (m : Span) (ms acc : List Span) (p : Progress)
    → Agrees rule s ms (replaced rule s m p) (replaced rule s m p) acc
    → Agrees rule s ms (replaced rule s m p) p (m ∷ acc)
unfolding spread
Agrees-step rule s m ms acc p (texts, counts) = (
  texts
      ∙ <>_assoc p.out _ _
      ∙ ap (λ t. p.out <> t) (<>_assoc (slice p.last m.start s) (mask rule s m) _),
  omega (arith, counts),
)

take_matches_lem :
    (rule : CompiledRule) (s : String) (ms : List Span) (p : Progress)
    → IsOrdered p.last ms
    → Agrees rule s ms p p (accepted rule s ms)
unfolding take_matches spread
take_matches_lem rule s [] p o = (refl, omega arith)
take_matches_lem rule s (m ∷ ms) p (o, inside, rest) = elim (Bool-cases (rejects rule s m)) [
  | inl h ↦
      subst (λ q. Agrees rule s ms q p (accepted rule s (m ∷ ms)))
        (sym (take_match_rejected rule s m p h))
        (subst (λ acc. Agrees rule s ms p p acc) (sym (accepted_rejected rule s m ms h))
          (take_matches_lem rule s ms p (IsOrdered-weaken p.last m.stop ms (omega arith) rest)))
  | inr h ↦
      subst (λ q. Agrees rule s ms q p (accepted rule s (m ∷ ms)))
        (sym (take_match_accepted rule s m p o h))
        (subst (λ acc. Agrees rule s ms (replaced rule s m p) p acc)
          (sym (accepted-accepted rule s m ms h))
          (Agrees-step rule s m ms (accepted rule s ms) p
            (take_matches_lem rule s ms (replaced rule s m p) rest)))
]

empty-length : (ms : List Span) → length ms ≡ 0 → ms ≡ []
empty-length [] h = refl
empty-length (m ∷ ms) h = absurd (omega (arith, h))

-- Where the matches come in order, a rule gives the text with exactly the accepted matches masked
-- and all else as it was, and the number of these matches.
pub apply_rule_lem :
    (rule : CompiledRule) (s : String)
    → IsOrdered 0 (rule.find_all s)
    → apply_rule s rule ≡ (
      spread rule s 0 (accepted rule s (rule.find_all s)),
      length (accepted rule s (rule.find_all s)),
    )
unfolding apply_rule spread
apply_rule_lem rule s o =
    let start : Progress = record { out = ""; last = 0; count = 0 } in
    let (texts, counts) = take_matches_lem rule s (rule.find_all s) start o in
    let found = accepted rule s (rule.find_all s) in
    let unchanged : String × ℕ = (s, 0) in
    if_cases (λ r. r ≡ (spread rule s 0 found, length found))
      ((take_matches rule s (rule.find_all s) start).count == 0) unchanged _
      (λ e.
        subst (λ ms. unchanged ≡ (spread rule s 0 ms, length ms))
          (sym (empty-length found (omega (arith, counts, (==_iff _ _).0 e)))) refl)
      (λ _.
        ap (λ t. (t, (take_matches rule s (rule.find_all s) start).count)) texts
        ∙ ap (λ n. (spread rule s 0 found, n)) (counts ∙ omega arith))
