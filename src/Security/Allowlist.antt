-- ===== src/Security/Allowlist.antt =====
-- The IP allowlist of backend/core/infrastructure/admin/auth_backend.py. The client's address is the
-- one that `extract_client_ip_secure` gives. Logs and the cache of the parsed list are left out.
use backend_prod_ready.Prelude.{
  Bool, List, Text, [], any, arith, false, if◌then◌else◌, is_empty, none, refl, some, strip,
  text_eq, true, ℕ, ◌==◌, ◌∷◌, ◌≡◌,
}
use backend_prod_ready.Security.Proxy.{IpAddress}

abbrev pub slash : ℕ
slash = b'/'

-- `x in t` for a character
abbrev pub has_char : ℕ → Text → Bool
has_char c t = any (λ d. d == c) t

-- `not allowed_ips`
abbrev pub is_nil : List Text → Bool
is_nil [] = true
is_nil (_ ∷ _) = false

module _ (lib : IpAddress) where
  open lib use {Address, Network, ip_address, ip_network, within}

  -- The result of `_parse_admin_allowed_ips`.
  pub record AllowedIps : Type 0 where
    pub exact_ips : List Text
    pub networks : List Network

  -- One round of its loop, on an entry that is stripped and not empty.
  add_entry : Text → AllowedIps → AllowedIps
  add_entry entry parsed =
      if has_char slash entry
      then elim (ip_network entry) [
        | none ↦ parsed
        | some network ↦ record parsed { networks = network ∷ parsed.networks }
      ]
      else elim (ip_address entry) [
        | none ↦ parsed
        | some _ ↦ record parsed { exact_ips = entry ∷ parsed.exact_ips }
      ]

  -- `_parse_admin_allowed_ips`; the exact addresses are a set and the networks keep their order
  unfoldable pub parse_admin_allowed_ips : List Text → AllowedIps
  unfolding add_entry
  parse_admin_allowed_ips [] = record { exact_ips = []; networks = [] }
  parse_admin_allowed_ips (entry ∷ entries) =
      let rest = parse_admin_allowed_ips entries in
      if is_empty (strip entry) then rest else add_entry (strip entry) rest

  -- The membership tests of `_check_ip_allowed`: an exact match first, then the networks.
  unfoldable pub matches : Text → AllowedIps → Bool
  matches client_ip allowed =
      if any (λ ip. text_eq ip client_ip) allowed.exact_ips
      then true
      else elim (ip_address client_ip) [
        | none ↦ false
        | some address ↦ any (within address) allowed.networks
      ]

  -- `_check_ip_allowed`
  unfoldable pub check_ip_allowed : List Text → Text → Bool
  unfolding parse_admin_allowed_ips matches
  check_ip_allowed [] client_ip = true
  check_ip_allowed (entry ∷ entries) client_ip =
      matches client_ip (parse_admin_allowed_ips (entry ∷ entries))

  -- What one entry of the list admits: a network its addresses, an address itself, anything else
  -- nobody.
  abbrev pub entry_admits : Text → Text → Bool
  entry_admits client_ip entry =
      if is_empty (strip entry)
      then false
      else if has_char slash (strip entry)
      then elim (ip_network (strip entry)) [
        | none ↦ false
        | some network ↦ elim (ip_address client_ip) [
          | none ↦ false
          | some address ↦ within address network
        ]
      ]
      else elim (ip_address (strip entry)) [
        | none ↦ false
        | some _ ↦ text_eq (strip entry) client_ip
      ]

  matches-any :
      (client_ip : Text) (entries : List Text)
      → matches client_ip (parse_admin_allowed_ips entries) ≡ any (entry_admits client_ip) entries
  unfolding matches parse_admin_allowed_ips
  matches-any client_ip [] = ground arith
  matches-any client_ip (entry ∷ entries) = ground (arith, matches-any client_ip entries)

  -- Access is granted exactly if no list is configured or one of its entries admits the client; an
  -- entry that does not parse admits nobody and takes nothing from the others.
  pub check_ip_allowed-any :
      (allowed_ips : List Text) (client_ip : Text)
      → check_ip_allowed allowed_ips client_ip
        ≡ (if is_nil allowed_ips then true else any (entry_admits client_ip) allowed_ips)
  unfolding check_ip_allowed
  check_ip_allowed-any [] client_ip = refl
  check_ip_allowed-any (entry ∷ entries) client_ip = matches-any client_ip (entry ∷ entries)
