-- ===== src/Security/Proxy/Spoofing.antt =====
-- What a client can do to the address that it counts as by writing the header itself.
use backend_prod_ready.Prelude.{
  Bool-cases, List, Option, Text, [], ap, arith, false, inl, inr, is_empty, map, map-append, none,
  refl, reverse, reverse-append, some, split, split-append, strip, true, ◌++◌, ◌∙◌, ◌∷◌, ◌≡◌,
}
use backend_prod_ready.Exec.{ok}
use backend_prod_ready.Security.Proxy.{
  IpAddress, comma, entries_of, extract_client_ip_secure, is_trusted_proxy, or_unknown, walk,
}

module _ (lib : IpAddress) (cidrs : List Text) where
  open lib use {ip_address}

  -- A connection from no trusted proxy counts as its own address, whatever the header says.
  pub untrusted_header_ignored :
      (x_forwarded_for : Option Text) (direct_ip : Option Text)
      → is_trusted_proxy lib cidrs (or_unknown direct_ip) ≡ ok false
      → extract_client_ip_secure lib cidrs x_forwarded_for direct_ip ≡ ok (or_unknown direct_ip)
  unfolding extract_client_ip_secure
  untrusted_header_ignored none direct_ip u = refl
  untrusted_header_ignored (some h) direct_ip u = elim (Bool-cases (is_empty h)) [
    | inl e ↦ rw e
    | inr e ↦ rw (e, u)
  ]

  walk-append :
      (xs ys : List Text) (ip : Text)
      → walk lib cidrs xs ≡ ok (some ip)
      → walk lib cidrs (xs ++ ys) ≡ ok (some ip)
  unfolding walk
  walk-append [] ys ip w = absurd (cc w)
  walk-append (x ∷ xs) ys ip w = ground (arith, walk-append xs ys ip)

  entries-append :
      (s t : Text)
      → entries_of lib cidrs (s ++ comma ∷ t) ≡ entries_of lib cidrs s ++ entries_of lib cidrs t
  entries-append s t =
      ap (map strip) (split-append comma s t) ∙ map-append strip (split comma s) (split comma t)

  walk-prepend :
      (s t ip : Text)
      → walk lib cidrs (reverse (entries_of lib cidrs t)) ≡ ok (some ip)
      → walk lib cidrs (reverse (entries_of lib cidrs (s ++ comma ∷ t))) ≡ ok (some ip)
  walk-prepend s t ip w =
      ap (λ (l : List Text). walk lib cidrs (reverse l)) (entries-append s t)
      ∙ ap (walk lib cidrs) (reverse-append (entries_of lib cidrs s) (entries_of lib cidrs t))
      ∙ walk-append (reverse (entries_of lib cidrs t)) (reverse (entries_of lib cidrs s)) ip w

  -- Behind a trusted proxy: once the walk over the entries that the proxies appended finds an
  -- address, whatever stands before them in the header changes nothing, and that address is the
  -- result.
  pub prefix_ignored :
      (forged appended direct_ip ip : Text)
      → is_trusted_proxy lib cidrs direct_ip ≡ ok true
      → is_empty direct_ip ≡ false
      → walk lib cidrs (reverse (entries_of lib cidrs appended)) ≡ ok (some ip)
      → extract_client_ip_secure lib cidrs (some (forged ++ comma ∷ appended)) (some direct_ip)
        ≡ ok ip
  unfolding extract_client_ip_secure
  prefix_ignored forged appended direct_ip ip t d w =
      rw (d, not_empty forged, t, walk-prepend forged appended ip w)
    where
      not_empty : (s : Text) → is_empty (s ++ comma ∷ appended) ≡ false
      not_empty [] = refl
      not_empty (c ∷ s) = refl
