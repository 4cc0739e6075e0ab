-- ===== src/Cache.antt =====
-- pkg/cache: the cache of values that expire. Time is a parameter of each operation, in any unit; the
-- map is an association list in which a key is written at most once.
pub mod Reads
mod Tests
use the_black_hole.Prelude.Results.{ℤ, pos, negsuc}
use the_black_hole.Prelude.{
  ℕ, ◌+◌, String, List, [], ◌∷◌, Option, none, some, Bool, true, false, not, ◌===◌, if◌then◌else◌,
  ltb,
}

-- `entry[V]`
pub record Entry (V : Type 0) : Type 0 where
  pub value : V
  pub expires : ℕ

-- `time.Duration`, in the same unit.
abbrev pub Duration : Type 0
Duration = ℤ

-- `TTLCache[V]`; `janitor` tells whether `janitorOnce` was done.
pub record TtlCache (V : Type 0) : Type 0 where
  pub ttl : Duration
  pub m : List (String × Entry V)
  pub janitor : Bool

-- `New`
unfoldable pub new : {V : Type 0} → Duration → TtlCache V
new ttl = record { ttl = ttl; m = []; janitor = false }

unfoldable pub is_positive : Duration → Bool
is_positive (pos n) = ltb 0 n
is_positive (negsuc n) = false

-- `time.Now().Add(c.ttl)`, of a positive duration.
unfoldable pub expiry : ℕ → Duration → ℕ
expiry now (pos n) = now + n
expiry now (negsuc n) = now

module _ {V : Type 0} where
  -- `c.m[key]`
  unfoldable pub find : String → List (String × Entry V) → Option (Entry V)
  find key [] = none
  find key ((k, e) ∷ m) = if k === key then some e else find key m

  -- `delete(c.m, key)`
  unfoldable pub remove : String → List (String × Entry V) → List (String × Entry V)
  remove key [] = []
  remove key ((k, e) ∷ m) = if k === key then remove key m else (k, e) ∷ remove key m

  -- `Enabled`, of a cache that is not `nil`
  unfoldable pub enabled : TtlCache V → Bool
  unfolding is_positive
  enabled c = is_positive c.ttl

  -- `Enabled`
  unfoldable pub is_enabled : Option (TtlCache V) → Bool
  unfolding enabled
  is_enabled none = false
  is_enabled (some c) = enabled c

  -- `ok && !time.Now().After(e.expires)`
  unfoldable pub fresh_value : ℕ → Option (Entry V) → Option V
  fresh_value now none = none
  fresh_value now (some e) = if ltb e.expires now then none else some e.value

  -- `Get`; `none` is a miss.
  unfoldable pub get : (now : ℕ) (key : String) → Option (TtlCache V) → Option V
  unfolding enabled fresh_value find
  get now key none = none
  get now key (some c) = if enabled c then fresh_value now (find key c.m) else none

  -- `Set`, with `startJanitor`
  unfoldable pub set : (now : ℕ) (key : String) → V → Option (TtlCache V) → Option (TtlCache V)
  unfolding enabled remove expiry
  set now key v none = none
  set now key v (some c) =
      if enabled c
      then some (record c {
        m = (key, record { value = v; expires = expiry now c.ttl }) ∷ remove key c.m;
        janitor = true;
      })
      else some c

  unfoldable pub keep_fresh : ℕ → List (String × Entry V) → List (String × Entry V)
  keep_fresh now [] = []
  keep_fresh now ((k, e) ∷ m) =
      if ltb e.expires now then keep_fresh now m else (k, e) ∷ keep_fresh now m

  -- A tick of the janitor, which calls `evictExpired`; before a `Set` there is no janitor.
  unfoldable pub evict_expired : (now : ℕ) → Option (TtlCache V) → Option (TtlCache V)
  unfolding keep_fresh
  evict_expired now none = none
  evict_expired now (some c) =
      if c.janitor then some (record c { m = keep_fresh now c.m }) else some c

  -- `Delete`
  unfoldable pub delete : (key : String) → Option (TtlCache V) → Option (TtlCache V)
  unfolding remove
  delete key none = none
  delete key (some c) = some (record c { m = remove key c.m })

  -- `Purge`
  unfoldable pub purge : Option (TtlCache V) → Option (TtlCache V)
  purge none = none
  purge (some c) = some (record c { m = [] })
