-- ===== src/Tests/Names.antt =====
-- The theorems on names at concrete inputs: nas.akurai, and the zone akurai.
use akur_ai_vpn.Base.{◌≡◌, refl, arith, true, [], ◌∷◌, ◌++◌, Option, some, Ipv4Addr}
use akur_ai_vpn.Base.Text.{Str, lines}
use akur_ai_vpn.Dns.Resolution.{answer_datagram-build_query}
use akur_ai_vpn.Dns.Wire.RoundTrip.{IsName}
use akur_ai_vpn.Dns.Wire.{Query, build_query, build_response, class_in}
use akur_ai_vpn.Dns.{resolve_from_hosts, parse_hosts, answer_datagram, default_ttl}
use akur_ai_vpn.Base.Ipv4.{parse_ipv4}

-- "akurai", and "nas" with the zone in capitals
abbrev zone : Str
zone = 97 ∷ 107 ∷ 117 ∷ 114 ∷ 97 ∷ 105 ∷ []

abbrev capitals : Str
capitals = 65 ∷ 75 ∷ 85 ∷ 82 ∷ 65 ∷ 73 ∷ []

abbrev nas : Str
nas = 110 ∷ 97 ∷ 115 ∷ []

abbrev nas_name : Str
nas_name = nas ++ (46 ∷ capitals)

nas-IsName : IsName nas_name
nas-IsName = record {
  labels = (
    record { some_char = omega arith; short = omega arith; ascii = omega arith },
    (record { some_char = omega arith; short = omega arith; ascii = omega arith }, tt),
  );
  short = omega arith;
}

abbrev nas_query : Query
nas_query = record {
  id = 7;
  name = nas_name;
  qtype = 1;
  qclass = class_in;
  recursion_desired = true;
}

-- "100.88.0.3 nas"
abbrev hosts_file : Str
hosts_file = 49 ∷ 48 ∷ 48 ∷ 46 ∷ 56 ∷ 56 ∷ 46 ∷ 48 ∷ 46 ∷ 51 ∷ 32 ∷ (nas ++ (10 ∷ []))

hosts_run : parse_hosts hosts_file ≡ (nas, 0x64580003) ∷ []
unfolding parse_hosts lines parse_ipv4
hosts_run = refl

abbrev resolve : Str → Option Ipv4Addr
resolve name = resolve_from_hosts name ((nas, 0x64580003) ∷ [])

answer_datagram-build_query_example :
    answer_datagram zone resolve (build_query 7 nas_name 1)
    ≡ some (build_response nas_query (resolve nas) default_ttl)
answer_datagram-build_query_example =
    answer_datagram-build_query resolve 7 1 110 (97 ∷ 115 ∷ []) zone capitals (omega arith)
      (omega arith) nas-IsName (unfold build_query in omega arith) (cc) refl refl refl

resolve_run : resolve nas ≡ some 0x64580003
unfolding resolve_from_hosts
resolve_run = refl
