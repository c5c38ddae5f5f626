-- ===== src/Security/Proxy.antt =====
-- backend/core/security/proxy_validation.py: which address counts as the client's. Python's
-- `ipaddress` is a parameter, so that both families of addresses are covered. Logs are left out, and
-- so is the cache of the parsed networks, which returns what parsing returns.
pub mod Walk
pub mod Spoofing
use backend_prod_ready.Prelude.{
  Bool, List, Option, Text, [], any, codes, false, if◌then◌else◌, is_empty, map, none, reverse,
  some, split, strip, text_eq, ℕ, ◌||◌, ◌∷◌,
}
use backend_prod_ready.Exec.{Result, ok, raised}

-- `ipaddress`: a text that is no address or network raises ValueError, here `none`.
pub record IpAddress : Type 1 where
  pub Address : Type 0
  pub Network : Type 0
  pub ip_address : Text → Option Address
  -- `ip_network(…, strict=False)`
  pub ip_network : Text → Option Network
  -- `addr in network`
  pub within : Address → Network → Bool

pub data ConfigurationError : Type 0 where
  invalid_cidr : Text → ConfigurationError

abbrev pub unknown : Text
unknown = codes "unknown"

abbrev pub comma : ℕ
comma = b','

abbrev pub then_result {ℓ} : {E A B : Type ℓ} → Result E A → (A → Result E B) → Result E B
then_result (ok a) f = f a
then_result (raised e) f = raised e

-- `direct_ip or "unknown"`
abbrev pub or_unknown : Option Text → Text
or_unknown none = unknown
or_unknown (some ip) = if is_empty ip then unknown else ip

module _ (lib : IpAddress) where
  open lib use {Address, Network, ip_address, ip_network, within}

  -- `_parse_trusted_networks`
  unfoldable pub parse_trusted_networks : List Text → Result ConfigurationError (List Network)
  parse_trusted_networks [] = ok []
  parse_trusted_networks (cidr ∷ cidrs) = elim (ip_network cidr) [
    | none ↦ raised (invalid_cidr cidr)
    | some network ↦
        then_result (parse_trusted_networks cidrs) (λ networks. ok (network ∷ networks))
  ]

module _ (lib : IpAddress) (cidrs : List Text) where
  open lib use {ip_address, within}

  -- `is_trusted_proxy`, with SETTINGS.RATE_LIMIT.TRUSTED_PROXY_CIDRS
  unfoldable pub is_trusted_proxy : Text → Result ConfigurationError Bool
  is_trusted_proxy ip =
      if is_empty ip || text_eq ip unknown then ok false else elim (ip_address ip) [
        | none ↦ ok false
        | some address ↦
            then_result (parse_trusted_networks lib cidrs)
              (λ networks. ok (any (within address) networks))
      ]

  -- The loop of `extract_client_ip_secure` over the entries from right to left: the first that is an
  -- address of no trusted proxy.
  unfoldable pub walk : List Text → Result ConfigurationError (Option Text)
  walk [] = ok none
  walk (entry ∷ entries) =
      let ip = strip entry in
      let rest = walk entries in
      if is_empty ip then rest else elim (ip_address ip) [
        | none ↦ rest
        | some _ ↦
            then_result (is_trusted_proxy ip) (λ trusted. if trusted then rest else ok (some ip))
      ]

  -- `[ip.strip() for ip in x_forwarded_for.split(",")]`
  abbrev pub entries_of : Text → List Text
  entries_of x_forwarded_for = map strip (split comma x_forwarded_for)

  -- The end of the function, where all addresses of the chain are trusted: the leftmost entry.
  unfoldable pub leftmost : Text → List Text → Text
  leftmost direct_ip [] = direct_ip
  leftmost direct_ip (entry ∷ entries) =
      let ip = strip entry in elim (ip_address ip) [ none ↦ direct_ip | some _ ↦ ip ]

  -- `extract_client_ip_secure` for a header that is not empty
  unfoldable pub extract_forwarded : Text → Text → Result ConfigurationError Text
  unfolding walk leftmost
  extract_forwarded x_forwarded_for direct_ip = then_result (is_trusted_proxy direct_ip) (λ trusted.
      if trusted
      then then_result (walk (reverse (entries_of x_forwarded_for))) (λ found. elim found [
        | some ip ↦ ok ip
        | none ↦ ok (leftmost direct_ip (entries_of x_forwarded_for))
      ])
      else ok direct_ip)

  -- `extract_client_ip_secure`
  unfoldable pub extract_client_ip_secure :
      Option Text → Option Text → Result ConfigurationError Text
  unfolding extract_forwarded
  extract_client_ip_secure none direct_ip = ok (or_unknown direct_ip)
  extract_client_ip_secure (some x_forwarded_for) direct_ip =
      if is_empty x_forwarded_for
      then ok (or_unknown direct_ip)
      else extract_forwarded x_forwarded_for (or_unknown direct_ip)
