-- ===== src/Cache/Reads.antt =====
-- The cache against its meaning: what a key reads as is decided by the last write that concerns it.
use the_black_hole.Prelude.{
  ℕ, ◌+◌, ◌≤◌, ◌<◌, String, List, [], ◌∷◌, Option, none, some, true, ◌≡◌, refl, sym, ap, ◌∙◌, ◌===◌,
  eq_iff, eq_refl, if◌then◌else◌, ltb, if_cases, subst, arith,
}
use the_black_hole.Prelude.Results.{pos}
use the_black_hole.Cache.{
  Entry, TtlCache, new, find, remove, fresh_value, get, expiry, set, keep_fresh, evict_expired,
  delete, purge, is_positive, enabled,
}

-- An operation on a cache, at a time.
pub data Op (V : Type 0) : Type 0 where
  set_op : ℕ → String → V → Op V
  evict_op : ℕ → Op V
  delete_op : String → Op V
  purge_op : Op V

module _ {V : Type 0} where
  unfoldable pub apply_op : Op V → Option (TtlCache V) → Option (TtlCache V)
  apply_op (set_op t key v) c = set t key v c
  apply_op (evict_op t) c = evict_expired t c
  apply_op (delete_op key) c = delete key c
  apply_op purge_op c = purge c

  -- The operations with the last one first.
  unfoldable pub run_ops : List (Op V) → Option (TtlCache V) → Option (TtlCache V)
  unfolding apply_op
  run_ops [] c = c
  run_ops (op ∷ ops) c = apply_op op (run_ops ops c)

  -- No sweep is later than a time.
  abbrev pub IsBefore : ℕ → List (Op V) → Type 0
  IsBefore now [] = Unit
  IsBefore now (evict_op t ∷ ops) = (t ≤ now) × IsBefore now ops
  IsBefore now (set_op t key v ∷ ops) = IsBefore now ops
  IsBefore now (delete_op key ∷ ops) = IsBefore now ops
  IsBefore now (purge_op ∷ ops) = IsBefore now ops

  -- What a key should read as: the last value that was set and neither deleted nor purged since, as long
  -- as the lifetime is not over. Sweeps are of no importance.
  unfoldable pub reading : (lifetime now : ℕ) (key : String) → List (Op V) → Option V
  reading lifetime now key [] = none
  reading lifetime now key (set_op t k v ∷ ops) =
      if k === key
      then (if ltb (t + lifetime) now then none else some v)
      else reading lifetime now key ops
  reading lifetime now key (evict_op t ∷ ops) = reading lifetime now key ops
  reading lifetime now key (delete_op k ∷ ops) =
      if k === key then none else reading lifetime now key ops
  reading lifetime now key (purge_op ∷ ops) = none

  -- A key reads the same in two maps, from a time on.
  find-remove :
      (key k : String) (m : List (String × Entry V))
      → find key (remove k m) ≡ (if k === key then none else find key m)
  unfolding find remove
  find-remove key k [] =
      if_cases (λ o. ◌≡◌ {A = Option (Entry V)} none o) (k === key) none none (λ _. refl)
        (λ _. refl)
  find-remove key k ((x, e) ∷ m) =
      let rest = find-remove key k m in
      let e1 = eq_iff x key in let e2 = eq_iff x k in let e3 = eq_iff k key in ground arith

  -- A key has one entry at most.
  abbrev pub IsOnce : List (String × Entry V) → Type 0
  IsOnce [] = Unit
  IsOnce ((k, e) ∷ m) = (find k m ≡ none) × IsOnce m

  IsOnce-remove : (k : String) (m : List (String × Entry V)) → IsOnce m → IsOnce (remove k m)
  unfolding remove
  IsOnce-remove k [] o = tt
  IsOnce-remove k ((x, e) ∷ m) o =
      if_cases IsOnce (x === k) _ _ (λ _. IsOnce-remove k m o.1)
        (λ _.
          (let gone = find-remove x k m in let absent = o.0 in ground arith, IsOnce-remove k m o.1))

  find-keep_fresh :
      (t : ℕ) (key : String) (m : List (String × Entry V))
      → find key m ≡ none
      → find key (keep_fresh t m) ≡ none
  unfolding find keep_fresh
  find-keep_fresh t key [] h = refl
  find-keep_fresh t key ((x, e) ∷ m) h = let rest = find-keep_fresh t key m in ground arith

  IsOnce-keep_fresh : (t : ℕ) (m : List (String × Entry V)) → IsOnce m → IsOnce (keep_fresh t m)
  unfolding keep_fresh
  IsOnce-keep_fresh t [] o = tt
  IsOnce-keep_fresh t ((x, e) ∷ m) o =
      if_cases IsOnce (ltb e.expires t) _ _ (λ _. IsOnce-keep_fresh t m o.1)
        (λ _. (find-keep_fresh t x m o.0, IsOnce-keep_fresh t m o.1))

  fresh_value-keep_fresh :
      (t now : ℕ) (key : String) (m : List (String × Entry V))
      → IsOnce m
      → t ≤ now
      → fresh_value now (find key (keep_fresh t m)) ≡ fresh_value now (find key m)
  unfolding find keep_fresh fresh_value
  fresh_value-keep_fresh t now key [] o h = refl
  fresh_value-keep_fresh t now key ((x, e) ∷ m) o h =
      let rest = fresh_value-keep_fresh t now key m o.1 h in
      let same = eq_iff x key in
      let absent = o.0 in
      let gone = ap (λ (k : String). find {V = V} k m) {x = x} {y = key} in ground arith

  -- A cache with a positive lifetime that stands where some operations have led.
  record Represents (lifetime : ℕ) (ops : List (Op V)) (c : TtlCache V) : Type 0 where
    lives : 0 < lifetime
    ttl_is : c.ttl ≡ pos lifetime
    once : IsOnce c.m
    reads :
        (now : ℕ) (key : String)
        → IsBefore now ops
        → fresh_value now (find key c.m) ≡ reading lifetime now key ops

  enabled_lives :
      (lifetime : ℕ) (ops : List (Op V)) (c : TtlCache V)
      → Represents lifetime ops c
      → enabled c ≡ true
  unfolding enabled is_positive
  enabled_lives lifetime ops c r = let alive = r.lives in ap is_positive r.ttl_is ∙ ground arith

  abbrev Reached : ℕ → List (Op V) → Option (TtlCache V) → Type 0
  Reached lifetime ops o = (c : TtlCache V) × (o ≡ some c) × Represents lifetime ops c

  Represents-set :
      (n t : ℕ) (k : String) (v : V) (ops : List (Op V)) (c : TtlCache V)
      → Represents n ops c
      → Reached n (set_op t k v ∷ ops) (set t k v (some c))
  unfolding set expiry find fresh_value reading
  Represents-set n t k v ops c r =
      if_cases (λ o. Reached n (set_op t k v ∷ ops) o) (enabled c) _ _
        (λ _. (
          record c {
            m = (k, record { value = v; expires = expiry t c.ttl }) ∷ remove k c.m;
            janitor = true;
          },
          refl,
          record {
            lives = r.lives;
            ttl_is = r.ttl_is;
            once = (
              let gone = find-remove k k c.m in let same = eq_refl k in ground arith,
              IsOnce-remove k c.m r.once,
            );
            reads = λ now key b.
                let same = r.reads now key b in
                let gone = find-remove key k c.m in
                let until = ap (expiry t) r.ttl_is in ground arith;
          },
        ))
        (λ off. absurd (let on = enabled_lives n ops c r in cc))

  Represents-evict :
      (n t : ℕ) (ops : List (Op V)) (c : TtlCache V)
      → Represents n ops c
      → Reached n (evict_op t ∷ ops) (evict_expired t (some c))
  unfolding evict_expired reading
  Represents-evict n t ops c r =
      if_cases (λ o. Reached n (evict_op t ∷ ops) o) c.janitor _ _
        (λ _. (
          record c { m = keep_fresh t c.m },
          refl,
          record {
            lives = r.lives;
            ttl_is = r.ttl_is;
            once = IsOnce-keep_fresh t c.m r.once;
            reads =
                λ now key b. fresh_value-keep_fresh t now key c.m r.once b.0 ∙ r.reads now key b.1;
          },
        ))
        (λ _. (
          c,
          refl,
          record {
            lives = r.lives;
            ttl_is = r.ttl_is;
            once = r.once;
            reads = λ now key b. r.reads now key b.1;
          },
        ))

  Represents-delete :
      (n : ℕ) (k : String) (ops : List (Op V)) (c : TtlCache V)
      → Represents n ops c
      → Reached n (delete_op k ∷ ops) (delete k (some c))
  unfolding delete reading fresh_value
  Represents-delete n k ops c r = (
    record c { m = remove k c.m },
    refl,
    record {
      lives = r.lives;
      ttl_is = r.ttl_is;
      once = IsOnce-remove k c.m r.once;
      reads = λ now key b.
          let same = r.reads now key b in let gone = find-remove key k c.m in ground arith;
    },
  )

  Represents-purge :
      (n : ℕ) (ops : List (Op V)) (c : TtlCache V)
      → Represents n ops c
      → Reached n (purge_op ∷ ops) (purge (some c))
  unfolding purge reading find fresh_value
  Represents-purge n ops c r = (
    record c { m = [] },
    refl,
    record { lives = r.lives; ttl_is = r.ttl_is; once = tt; reads = λ now key b. refl },
  )

  apply_op-Represents :
      (n : ℕ) (op : Op V) (ops : List (Op V)) (o : Option (TtlCache V))
      → Reached n ops o
      → Reached n (op ∷ ops) (apply_op op o)
  unfolding apply_op
  apply_op-Represents n (set_op t k v) ops o (c, e, r) =
      subst (λ p. Reached n (set_op t k v ∷ ops) (set t k v p)) (sym e)
        (Represents-set n t k v ops c r)
  apply_op-Represents n (evict_op t) ops o (c, e, r) =
      subst (λ p. Reached n (evict_op t ∷ ops) (evict_expired t p)) (sym e)
        (Represents-evict n t ops c r)
  apply_op-Represents n (delete_op k) ops o (c, e, r) =
      subst (λ p. Reached n (delete_op k ∷ ops) (delete k p)) (sym e)
        (Represents-delete n k ops c r)
  apply_op-Represents n purge_op ops o (c, e, r) =
      subst (λ p. Reached n (purge_op ∷ ops) (purge p)) (sym e) (Represents-purge n ops c r)

  run_ops-Represents :
      (n : ℕ) (ops : List (Op V)) → 0 < n → Reached n ops (run_ops ops (some (new (pos n))))
  unfolding run_ops new enabled is_positive find fresh_value reading
  run_ops-Represents n [] h =
      (new (pos n), refl, record { lives = h; ttl_is = refl; once = tt; reads = λ now key b. refl })
  run_ops-Represents n (op ∷ ops) h = apply_op-Represents n op ops _ (run_ops-Represents n ops h)

  -- A new cache with a positive lifetime, after any writes, deletions, purges and sweeps: at a time
  -- before which all sweeps took place, a key reads as the last value that was set for it and
  -- neither deleted nor purged since, until its lifetime is over, and as a miss otherwise.
  pub get-run_ops :
      (lifetime now : ℕ) (key : String) (ops : List (Op V))
      → 0 < lifetime
      → IsBefore now ops
      → get now key (run_ops ops (some (new (pos lifetime)))) ≡ reading lifetime now key ops
  unfolding get
  get-run_ops n now key ops h b =
      let (c, e, r) = run_ops-Represents n ops h in
      ap (get now key) e ∙ rw (enabled_lives n ops c r) (r.reads now key b)
