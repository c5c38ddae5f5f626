-- ===== src/Examples/SecurityRuns.antt =====
-- The theorems on addresses and admission at concrete inputs. An address is a text that starts with a
-- digit, and a network holds the addresses that it is the beginning of.
use backend_prod_ready.Prelude.{
  List, Option, Text, [], codes, if◌then◌else◌, leb, none, refl, reverse, some, starts_with,
  text_eq, true, ◌&&◌, ◌++◌, ◌+◌, ◌∷◌, ◌≡◌, ◌≤◌, split, strip,
}
use backend_prod_ready.Exec.{ok}
use backend_prod_ready.Security.Proxy.{
  IpAddress, comma, entries_of, extract_client_ip_secure, extract_forwarded, is_trusted_proxy,
  leftmost, parse_trusted_networks, walk,
}
use backend_prod_ready.Security.Proxy.Walk.{extract_rightmost}
use backend_prod_ready.Security.Proxy.Spoofing.{prefix_ignored}
use backend_prod_ready.Security.Admission.{Reach-bounded, arrival, arrive, here, new, next, permits}

abbrev pub parse : Text → Option Text
parse [] = none
parse (c ∷ s) = if leb b'0' c && leb c b'9' then some (c ∷ s) else none

abbrev pub lib : IpAddress
lib = record {
  Address = Text;
  Network = Text;
  ip_address = parse;
  ip_network = parse;
  within = λ address network. starts_with network address;
}

abbrev cidrs : List Text
cidrs = codes "10." ∷ codes "172.17." ∷ []

cidrs_parse : parse_trusted_networks lib cidrs ≡ ok cidrs
unfolding parse_trusted_networks
cidrs_parse = refl

from_proxy : is_trusted_proxy lib cidrs (codes "10.0.0.1") ≡ ok true
unfolding is_trusted_proxy parse_trusted_networks text_eq starts_with
from_proxy = refl

walk_finds :
    walk lib cidrs (reverse (entries_of lib cidrs (codes "5.6.7.8, 10.0.0.2")))
    ≡ ok (some (codes "5.6.7.8"))
unfolding walk is_trusted_proxy parse_trusted_networks text_eq split strip starts_with
walk_finds = refl

extract_rightmost_example :
    extract_forwarded lib cidrs (codes "1.2.3.4, 5.6.7.8, 10.0.0.2") (codes "10.0.0.1")
    ≡ ok (codes "5.6.7.8")
unfolding leftmost split strip text_eq starts_with
extract_rightmost_example =
    extract_rightmost lib cidrs cidrs cidrs_parse (codes "1.2.3.4, 5.6.7.8, 10.0.0.2")
      (codes "10.0.0.1") from_proxy

prefix_ignored_example :
    extract_client_ip_secure lib cidrs
      (some (codes "1.2.3.4" ++ comma ∷ codes "5.6.7.8, 10.0.0.2"))
      (some (codes "10.0.0.1"))
    ≡ ok (codes "5.6.7.8")
prefix_ignored_example =
    prefix_ignored lib cidrs (codes "1.2.3.4") (codes "5.6.7.8, 10.0.0.2") (codes "10.0.0.1")
      (codes "5.6.7.8") from_proxy refl walk_finds

Reach-bounded_example :
    let m = (arrive (codes "/orders") (new (some 2) 100)).1 in
    (permits m + m.current_requests ≡ 2) × (m.current_requests ≤ 2)
unfolding new
Reach-bounded_example =
    Reach-bounded (some 2) 100 (next here (arrival (codes "/orders") (new (some 2) 100)))
