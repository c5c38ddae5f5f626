-- ===== src/Security/Proxy/Walk.antt =====
-- The walk over the forwarded addresses against a plain description of its result.
use backend_prod_ready.Prelude.{
  Bool, List, Option, Text, [], any, ap, arith, false, if◌then◌else◌, is_empty, map, none, not,
  refl, reverse, reverse-append, some, strip, text_eq, true, ◌&&◌, ◌++◌, ◌||◌, ◌↔◌, ◌∙◌, ◌∷◌, ◌≡◌,
  ap₂,
}
use backend_prod_ready.Exec.{ok}
use backend_prod_ready.Security.Proxy.{
  IpAddress, entries_of, extract_forwarded, is_trusted_proxy, leftmost, parse_trusted_networks,
  unknown, walk,
}

module _ (lib : IpAddress) where
  open lib use {Network, ip_address, ip_network, within}

  parsed_nil :
      (cidr : Text) (cidrs : List Text) → parse_trusted_networks lib (cidr ∷ cidrs) ≡ ok [] → ⊥
  unfolding parse_trusted_networks
  parsed_nil cidr cidrs e = ground arith

  parsed_cons :
      (cidr : Text) (cidrs : List Text) (n : Network) (ns : List Network)
      → parse_trusted_networks lib (cidr ∷ cidrs) ≡ ok (n ∷ ns)
      → (ip_network cidr ≡ some n) × (parse_trusted_networks lib cidrs ≡ ok ns)
  unfolding parse_trusted_networks
  parsed_cons cidr cidrs n ns e = ground arith

  -- The networks parse exactly if every CIDR does, and then they are the parsed CIDRs in order.
  pub parse_trusted_networks_iff :
      (cidrs : List Text) (networks : List Network)
      → (parse_trusted_networks lib cidrs ≡ ok networks)
        ↔ (map ip_network cidrs ≡ map some networks)
  unfolding parse_trusted_networks
  parse_trusted_networks_iff [] [] = (λ e. refl, λ e. refl)
  parse_trusted_networks_iff [] (n ∷ ns) = (λ e. absurd (cc e), λ e. absurd (cc e))
  parse_trusted_networks_iff (cidr ∷ cidrs) [] =
      (λ e. absurd (parsed_nil cidr cidrs e), λ e. absurd (cc e))
  parse_trusted_networks_iff (cidr ∷ cidrs) (n ∷ ns) = (
    λ e.
        let (found, rest) = parsed_cons cidr cidrs n ns e in
        ap₂ (λ x xs. x ∷ xs) found ((parse_trusted_networks_iff cidrs ns).0 rest),
    λ e.
        let found : ip_network cidr ≡ some n = cc e in
        let rest : map ip_network cidrs ≡ map some ns = cc e in
        ground (arith, found, (parse_trusted_networks_iff cidrs ns).1 rest),
  )

module _ (lib : IpAddress) (cidrs : List Text) (networks : List lib.Network)
    (parsed : parse_trusted_networks lib cidrs ≡ ok networks) where
  open lib use {ip_address, within}

  -- An address of no trusted network.
  abbrev pub is_client : Text → Bool
  is_client ip = elim (ip_address ip) [
    | none ↦ false
    | some address ↦
        not (is_empty ip) && (text_eq ip unknown || not (any (within address) networks))
  ]

  -- The last entry, from left to right, that is such an address.
  abbrev pub last_client : List Text → Option Text
  last_client [] = none
  last_client (entry ∷ entries) = elim (last_client entries) [
    | some ip ↦ some ip
    | none ↦ if is_client (strip entry) then some (strip entry) else none
  ]

  abbrev first_client : List Text → Option Text
  first_client [] = none
  first_client (entry ∷ entries) =
      let rest = first_client entries in
      if is_client (strip entry) then some (strip entry) else rest

  walk-first : (entries : List Text) → walk lib cidrs entries ≡ ok (first_client entries)
  unfolding walk is_trusted_proxy
  walk-first [] = refl
  walk-first (entry ∷ entries) = ground (arith, walk-first entries, parsed)

  abbrev or_else : Option Text → Option Text → Option Text
  or_else (some a) b = some a
  or_else none b = b

  first_client-append :
      (xs ys : List Text) → first_client (xs ++ ys) ≡ or_else (first_client xs) (first_client ys)
  first_client-append [] ys = refl
  first_client-append (x ∷ xs) ys = ground (arith, first_client-append xs ys)

  first_client-reverse : (xs : List Text) → first_client (reverse xs) ≡ last_client xs
  first_client-reverse [] = refl
  first_client-reverse (x ∷ xs) =
      ap first_client (reverse-append (x ∷ []) xs)
      ∙ first_client-append (reverse xs) (x ∷ [])
      ∙ ground (arith, first_client-reverse xs)

  -- If the CIDRs parse and the connection comes from a trusted proxy, the result is the rightmost
  -- entry of the header that is an address outside the trusted networks; without such an entry it is
  -- the leftmost entry if that is an address, and else the address of the connection.
  pub extract_rightmost :
      (x_forwarded_for direct_ip : Text)
      → is_trusted_proxy lib cidrs direct_ip ≡ ok true
      → extract_forwarded lib cidrs x_forwarded_for direct_ip
        ≡ elim (last_client (entries_of lib cidrs x_forwarded_for)) [
          | some ip ↦ ok ip
          | none ↦ ok (leftmost lib cidrs direct_ip (entries_of lib cidrs x_forwarded_for))
        ]
  unfolding extract_forwarded
  extract_rightmost x_forwarded_for direct_ip t =
      let entries = entries_of lib cidrs x_forwarded_for in
      rw (t, walk-first (reverse entries), first_client-reverse entries)
