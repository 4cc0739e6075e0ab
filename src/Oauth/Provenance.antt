-- ===== src/Oauth/Provenance.antt =====
-- Where the keys come from that a token is checked with.
use the_black_hole.Prelude.{
  inl, inr, ◌-◌, ◌<◌, String, List, [], ◌∷◌, some, true, not, ◌===◌, has_prefix, trim_suffix_slash,
  ◌≡◌, refl, ap, ◌∙◌, subst, if_cases, on_option_cases, Bool-cases, Option-cases, eq_iff, arith,
}
use the_black_hole.Prelude.Results.{Result, ok, on_result_cases}
use the_black_hole.Oauth.{
  RsaKey, Environment, JwksCacheEntry, Validator, jwks_cache_ttl, find_key, set_key,
  fetch_jwks_keys, discover_jwks_uri,
}
use the_black_hole.Oauth.Validation.{fresh_entry, download, fetch_jwks}

module _ {S : Type 0} (env : Environment S) where
  -- The keys of an entry are those of the document at a URL of https that the issuer's metadata named,
  -- as it was when they were fetched.
  abbrev pub IsPublished : (issuer : String) → JwksCacheEntry → Type 0
  IsPublished issuer e =
      (s1 : S) × (s2 : S) × (uri : String) × ((discover_jwks_uri env issuer s1).1 ≡ ok uri)
      × (has_prefix uri "https://" ≡ true)
      × ((fetch_jwks_keys env uri s2).1 ≡ ok e.keys)
      × (e.fetched_at ≡ env.now (fetch_jwks_keys env uri s2).0)

  abbrev pub AllPublished : List (String × JwksCacheEntry) → Type 0
  AllPublished [] = Unit
  AllPublished ((issuer, e) ∷ cache) = IsPublished issuer e × AllPublished cache

  find_key-IsPublished :
      (issuer : String) (cache : List (String × JwksCacheEntry)) (e : JwksCacheEntry)
      → AllPublished cache
      → find_key issuer cache ≡ some e
      → IsPublished issuer e
  find_key-IsPublished issuer [] e h found = cc
  find_key-IsPublished issuer ((k, x) ∷ cache) e h found = elim (Bool-cases (k === issuer)) [
    | inl y ↦
        let same : x ≡ e = (let here = y in ground arith) in
        subst (λ (i : String). IsPublished i e) ((eq_iff k issuer).0 y)
          (subst (IsPublished k) same h.0)
    | inr n ↦ find_key-IsPublished issuer cache e h.1 (let other = n in ground arith)
  ]

  set_key-AllPublished :
      (issuer : String) (e : JwksCacheEntry) (cache : List (String × JwksCacheEntry))
      → IsPublished issuer e
      → AllPublished cache
      → AllPublished (set_key issuer e cache)
  unfolding set_key
  set_key-AllPublished issuer e [] p h = (p, tt)
  set_key-AllPublished issuer e ((k, x) ∷ cache) p h =
      if_cases AllPublished (k === issuer) _ _ (λ y. (p, h.1))
        (λ n. (h.0, set_key-AllPublished issuer e cache p h.1))

  -- What a lookup of keys ends with: the cache is sound, and the keys, if any, are those of an entry of
  -- the issuer that is not older than five minutes.
  abbrev pub IsSound : (issuer : String) → Validator S × Result (List (String × RsaKey)) → Type 0
  IsSound issuer r =
      AllPublished r.0.jwks_cache
      × ((keys : List (String × RsaKey))
          → r.1 ≡ ok keys
          → (e : JwksCacheEntry) × (e.keys ≡ keys)
            × IsPublished issuer e
            × (env.now r.0.outside - e.fetched_at < jwks_cache_ttl))

  download-IsSound :
      (issuer : String) (v : Validator S)
      → AllPublished v.jwks_cache
      → IsSound issuer (download env issuer v)
  unfolding download
  download-IsSound issuer v h =
      let Q = IsSound issuer in
      let s1 = (discover_jwks_uri env issuer v.outside).0 in
      on_result_cases Q (discover_jwks_uri env issuer v.outside).1 _ _ (λ e y. (h, λ keys z. cc))
        (λ uri found.
          if_cases Q (not (has_prefix uri "https://")) _ _ (λ y. (h, λ keys z. cc))
            (λ n.
              on_result_cases Q (fetch_jwks_keys env uri s1).1 _ _ (λ e y. (h, λ keys z. cc))
                (λ keys fetched.
                  let s2 = (fetch_jwks_keys env uri s1).0 in
                  let e : JwksCacheEntry = record { keys = keys; fetched_at = env.now s2 } in
                  let published : IsPublished issuer e =
                    (v.outside, s1, uri, found, ground arith, fetched, refl) in
                  (
                    set_key-AllPublished issuer e v.jwks_cache published h,
                    λ keys' z. (e, (cc), published, omega arith),
                  ))))

  fresh_entry_lem :
      (issuer : String) (v : Validator S) (e : JwksCacheEntry)
      → fresh_entry env issuer v ≡ some e
      → (find_key issuer v.jwks_cache ≡ some e)
        × (env.now v.outside - e.fetched_at < jwks_cache_ttl)
  unfolding fresh_entry
  fresh_entry_lem issuer v e hit = elim (Option-cases (find_key issuer v.jwks_cache)) [
    | inl n ↦ let absent = n in ground arith
    | inr (x, y) ↦
        let present = y in
        let young : env.now v.outside - x.fetched_at < jwks_cache_ttl = ground arith in
        let same : x ≡ e = ground arith in
        (
          y ∙ ap some same,
          subst (λ (z : JwksCacheEntry). env.now v.outside - z.fetched_at < jwks_cache_ttl) same
              young,
        )
  ]

  pub fetch_jwks-IsSound :
      (iss : String) (v : Validator S)
      → AllPublished v.jwks_cache
      → IsSound (trim_suffix_slash iss) (fetch_jwks env iss v)
  unfolding fetch_jwks
  fetch_jwks-IsSound iss v h =
      let issuer = trim_suffix_slash iss in
      let Q = IsSound issuer in
      if_cases Q (not (has_prefix issuer "https://")) _ _ (λ y. (h, λ keys z. cc))
        (λ n.
          on_option_cases Q (fresh_entry env issuer v) _ _ (λ missing. download-IsSound issuer v h)
            (λ e hit.
              let (stored, young) = fresh_entry_lem issuer v e hit in
              let published = find_key-IsPublished issuer v.jwks_cache e h stored in
              (h, λ keys z. (e, (cc), published, young))))
