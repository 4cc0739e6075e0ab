-- ===== src/Gateway/Egress.antt =====
-- Where requests may go: `isDisallowedIP`, `validateEgress` and the `DialContext` of
-- `NewGatewayClient`.
pub mod Dialing
use the_black_hole.Prelude.{
  String, List, [], ◌∷◌, Option, none, some, Bool, true, false, not, ◌&&◌, ◌||◌, ◌===◌, ◌<>◌,
  if◌then◌else◌, on_option, on_option_cases, find_first, All, ◌≡◌, ◌⊎◌, inl, inr, refl, sym, ap,
  ◌∙◌, subst, Bool-cases, Option-cases, if_cases, arith,
}
use the_black_hole.Prelude.Results.{Result, ok, err, ◌>>=◌, Result-cases}

-- `EgressPolicy`
pub record EgressPolicy : Type 0 where
  pub allowlist : List String
  pub allow_private : Bool

-- What packages net and net/netip do, over addresses `A`; an address that `AddrFromSlice` refuses is
-- `none`.
pub record Resolver (A : Type 0) : Type 0 where
  pub unmap : A → A
  pub is_loopback : A → Bool
  pub is_private : A → Bool
  pub is_link_local_unicast : A → Bool
  pub is_link_local_multicast : A → Bool
  pub is_unspecified : A → Bool
  pub parse_addr : String → Option A
  pub lookup_ip : String → Result (List (Option A))
  pub lookup_net_ip : String → Result (List A)
  pub addr_text : A → String
  pub split_host_port : String → Result (String × String)
  pub join_host_port : (host port : String) → String
  pub quote : String → String
  pub equal_fold : String → String → Bool

-- `fmt.Errorf(context + ": %w", err)`
abbrev pub in_context {ℓ} : {A : Type ℓ} → String → Result A → Result A
in_context context (ok a) = ok a
in_context context (err e) = err (context <> ": " <> e)

module _ {A : Type 0} (net : Resolver A) (policy : EgressPolicy) where
  -- `isDisallowedIP`
  unfoldable pub is_disallowed_ip : A → Bool
  is_disallowed_ip ip =
      let addr = net.unmap ip in
      net.is_loopback addr
      || net.is_private addr
      || net.is_link_local_unicast addr
      || net.is_link_local_multicast addr
      || net.is_unspecified addr

  -- The loop of `validateEgress` over the addresses of a host.
  unfoldable pub check_addresses : (host : String) → List (Option A) → Result (Unit {0})
  unfolding is_disallowed_ip
  check_addresses host [] = ok tt
  check_addresses host (none ∷ ips) = check_addresses host ips
  check_addresses host (some ip ∷ ips) =
      let rest = check_addresses host ips in
      if is_disallowed_ip ip
      then err (
          "blocked request to non-public address "
          <> net.addr_text (net.unmap ip)
          <> " (host "
          <> net.quote host
          <> ")")
      else rest

  -- Is a host in the allowlist, or is that empty?
  unfoldable pub is_allowed : (host : String) → List String → Bool
  is_allowed host [] = true
  is_allowed host (h ∷ hs) =
      on_option (find_first (λ h. net.equal_fold h host) (h ∷ hs)) false (λ h. true)

  -- `validateEgress`, of the scheme and the host name of a URL.
  unfoldable pub validate_egress : (scheme host : String) → Result (Unit {0})
  unfolding check_addresses is_allowed
  validate_egress scheme host =
      if not (scheme === "http") && not (scheme === "https")
      then err ("blocked URL scheme " <> net.quote scheme <> " (only http/https allowed)")
      else if host === ""
      then err "blocked request: empty host"
      else if not (is_allowed host policy.allowlist)
      then err ("blocked request: host " <> net.quote host <> " is not in the egress allowlist")
      else if policy.allow_private
      then ok tt
      else in_context ("failed to resolve host " <> net.quote host) (net.lookup_ip host)
        >>= check_addresses host

  -- `DialContext` for a host that is no address: the address that it dials.
  unfoldable pub dial_first : (host port : String) → List A → Result String
  unfolding is_disallowed_ip
  dial_first host port [] = err ("no addresses found for dial target " <> net.quote host)
  dial_first host port (ip ∷ ips) =
      on_option (find_first is_disallowed_ip (ip ∷ ips))
        (ok (net.join_host_port (net.addr_text ip) port))
        (λ bad. err (
          "blocked dial to non-public address "
          <> net.addr_text (net.unmap bad)
          <> " (host "
          <> net.quote host
          <> ")"))

  -- `DialContext`, once its address is split: the address that the dialer below is asked for.
  unfoldable pub dial_target : (addr host port : String) → Result String
  unfolding is_disallowed_ip dial_first
  dial_target addr host port =
      if policy.allow_private
      then ok addr
      else on_option (net.parse_addr host)
          (in_context ("failed to resolve dial target " <> net.quote host) (net.lookup_net_ip host)
            >>= dial_first host port)
          (λ ip.
            if is_disallowed_ip ip
            then err ("blocked dial to non-public address " <> net.addr_text (net.unmap ip))
            else ok addr)

  -- `DialContext`
  unfoldable pub dial_context : (addr : String) → Result String
  unfolding dial_target
  dial_context addr = net.split_host_port addr >>= (λ (host, port). dial_target addr host port)
