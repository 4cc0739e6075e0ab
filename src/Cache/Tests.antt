-- ===== src/Cache/Tests.antt =====
-- The theorem on the cache at a concrete run.
use the_black_hole.Prelude.{ℕ, List, [], ◌∷◌, some, ◌≡◌, arith}
use the_black_hole.Prelude.Results.{pos}
use the_black_hole.Cache.{new, get}
use the_black_hole.Cache.Reads.{Op, set_op, evict_op, delete_op, run_ops, reading, get-run_ops}

-- The last operation first: a sweep at 12, after "b" was deleted and "a" set twice.
abbrev ops : List (Op ℕ)
ops = evict_op 12 ∷ delete_op "b" ∷ set_op 9 "a" 2 ∷ set_op 3 "b" 5 ∷ set_op 1 "a" 1 ∷ []

get-run_ops_example : get 14 "a" (run_ops ops (some (new (pos 10)))) ≡ reading 10 14 "a" ops
get-run_ops_example = get-run_ops 10 14 "a" ops (omega arith) (omega arith, tt)
