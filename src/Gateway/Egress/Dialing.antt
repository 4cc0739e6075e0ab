-- ===== src/Gateway/Egress/Dialing.antt =====
-- Where private addresses are not allowed, none is dialed.
use the_black_hole.Prelude.{
  String, List, [], ◌∷◌, none, some, Bool, false, ◌<>◌, on_option_cases, find_first, All, All-map,
  ◌≡◌, ◌⊎◌, inl, inr, refl, sym, ap, ◌∙◌, Bool-cases, if_cases, arith,
}
use the_black_hole.Prelude.Results.{Result, ok, err, ◌>>=◌, Result-cases}
use the_black_hole.Gateway.Egress.{
  EgressPolicy, Resolver, is_disallowed_ip, dial_first, dial_target, dial_context, in_context,
}

find_first-none {ℓ} :
    {A : Type ℓ} (p : A → Bool) (xs : List A) → find_first p xs ≡ none → All (λ x. p x ≡ false) xs
find_first-none p [] h = tt
find_first-none p (x ∷ xs) h = elim (Bool-cases (p x)) [
  | inl y ↦ ground arith
  | inr n ↦ (n, find_first-none p xs (ground arith))
]

module _ {A : Type 0} (net : Resolver A) (policy : EgressPolicy) where
  -- An address that is not in this machine and not in a private network.
  abbrev pub IsPublic : A → Type 0
  IsPublic ip =
      (net.is_loopback (net.unmap ip) ≡ false)
      × (net.is_private (net.unmap ip) ≡ false)
      × (net.is_link_local_unicast (net.unmap ip) ≡ false)
      × (net.is_link_local_multicast (net.unmap ip) ≡ false)
      × (net.is_unspecified (net.unmap ip) ≡ false)

  is_disallowed_ip_lem : (ip : A) → is_disallowed_ip net policy ip ≡ false → IsPublic ip
  unfolding is_disallowed_ip
  is_disallowed_ip_lem ip h = (ground arith, ground arith, ground arith, ground arith, ground arith)

  -- What is dialed for a host: itself, where it is a public address, or the first of its addresses, all
  -- of which are public.
  abbrev pub IsPublicTarget : (addr host port target : String) → Type 0
  IsPublicTarget addr host port target =
      ((ip : A) × (net.parse_addr host ≡ some ip) × IsPublic ip × (target ≡ addr))
      ⊎ ((ip : A) × (ips : List A) × (net.lookup_net_ip host ≡ ok (ip ∷ ips))
          × IsPublic ip
          × All IsPublic ips
          × (target ≡ net.join_host_port (net.addr_text ip) port))

  dial_first-IsPublic :
      (host port target : String) (ip : A) (ips : List A)
      → dial_first net policy host port (ip ∷ ips) ≡ ok target
      → IsPublic ip × All IsPublic ips × (target ≡ net.join_host_port (net.addr_text ip) port)
  unfolding dial_first
  dial_first-IsPublic host port target ip ips =
      let Goal =
        IsPublic ip × All IsPublic ips × (target ≡ net.join_host_port (net.addr_text ip) port) in
      on_option_cases (λ (r : Result String). r ≡ ok target → Goal)
        (find_first (is_disallowed_ip net policy) (ip ∷ ips)) _ _
        (λ clean h.
          let all =
            All-map _ IsPublic is_disallowed_ip_lem (ip ∷ ips)
              (find_first-none _ (ip ∷ ips) clean) in
          let same : target ≡ net.join_host_port (net.addr_text ip) port = cc in
          (all.0, all.1, same))
        (λ bad found h. cc)

  looked_up :
      (addr host port target : String) (found : Result (List A))
      → net.lookup_net_ip host ≡ found
      → (in_context ("failed to resolve dial target " <> net.quote host) found
          >>= dial_first net policy host port)
        ≡ ok target
      → IsPublicTarget addr host port target
  unfolding dial_first
  looked_up addr host port target (err e) is h = cc
  looked_up addr host port target (ok []) is h = cc
  looked_up addr host port target (ok (ip ∷ ips)) is h =
      let (public, others, same) = dial_first-IsPublic host port target ip ips h in
      inr (ip, ips, is, public, others, same)

  dial_target-IsPublicTarget :
      (addr host port target : String)
      → policy.allow_private ≡ false
      → dial_target net policy addr host port ≡ ok target
      → IsPublicTarget addr host port target
  unfolding dial_target
  dial_target-IsPublicTarget addr host port target strict =
      let Q : Result String → Type 0 = λ r. r ≡ ok target → IsPublicTarget addr host port target in
      if_cases Q policy.allow_private _ _ (λ lax h. cc)
        (λ no.
          on_option_cases Q (net.parse_addr host) _ _
            (λ name h. looked_up addr host port target (net.lookup_net_ip host) refl h)
            (λ ip parsed.
              if_cases Q (is_disallowed_ip net policy ip) _ _ (λ bad h. cc)
                (λ fine h.
                  let same : target ≡ addr = cc in
                  inl (ip, parsed, is_disallowed_ip_lem ip fine, same))))

  -- Where a policy does not allow private addresses and `DialContext` dials, then a public address: the
  -- one that it was given, or the first one of a host, all of whose addresses are public.
  pub dial_context-IsPublicTarget :
      (addr target : String)
      → policy.allow_private ≡ false
      → dial_context net policy addr ≡ ok target
      → (host : String) × (port : String) × (net.split_host_port addr ≡ ok (host, port))
        × IsPublicTarget addr host port target
  unfolding dial_context
  dial_context-IsPublicTarget addr target strict h =
      let go_on = λ (r : Result (String × String)).
        r >>= (λ (host, port). dial_target net policy addr host port) in
      elim (Result-cases (net.split_host_port addr)) [
        | inl (e, bad) ↦ let failing : dial_context net policy addr ≡ err e = ap go_on bad in cc
        | inr ((host, port), split) ↦
            let whole : dial_context net policy addr ≡ dial_target net policy addr host port =
              ap go_on split in
            (
              host,
              port,
              split,
              dial_target-IsPublicTarget addr host port target strict (sym whole ∙ h),
            )
      ]
