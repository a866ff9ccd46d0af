-- ===== src/Dns.antt =====
-- crates/akurai-dns/src/lib.rs: the host table, the zone, and what the server answers to a datagram. A
-- name on the wire is the bytes of its text; of the text of a hosts file it is the characters, which are
-- the same numbers in ASCII.
pub mod Wire
pub mod Resolution
use akur_ai_vpn.Base.{
  ℕ, ◌-◌, Bool, true, false, ◌&&◌, ◌||◌, List, [], ◌∷◌, ◌++◌, Option, none, some, ◌>>=◌, ◌==◌, leb,
  if◌then◌else◌, Ipv4Addr, length, take, drop, find,
}
use akur_ai_vpn.Base.Eq.{nat_eq, list_eq, ◌===◌}
use akur_ai_vpn.Base.Ipv4.{parse_ipv4}
use akur_ai_vpn.Base.Text.{Str, trim, is_empty, to_ascii_lowercase, lines, next_word, starts_with}
use akur_ai_vpn.Dns.Wire.{Query, parse_query, build_response}

abbrev pub default_ttl : ℕ
default_ttl = 60

abbrev pub max_udp_msg : ℕ
max_udp_msg = 512

abbrev pub Hosts : Type 0
Hosts = List (Str × Ipv4Addr)

-- `host.eq_ignore_ascii_case(name)`
abbrev pub eq_ignore_ascii_case : Str → Str → Bool
eq_ignore_ascii_case a b = to_ascii_lowercase a === to_ascii_lowercase b

unfoldable pub resolve_from_hosts : Str → Hosts → Option Ipv4Addr
resolve_from_hosts name hosts =
    find (λ (h : Str × Ipv4Addr). eq_ignore_ascii_case h.0 name) hosts >>= λ (host, ip). some ip

abbrev host_of : Str → Str → Hosts
host_of ip_s name = elim (parse_ipv4 ip_s) [ none ↦ [] | some ip ↦ (name, ip) ∷ [] ]

-- The entry of a line, if it has one; 35 is `#`.
abbrev pub parse_line : Str → Hosts
parse_line line =
    let line = trim line in
    if is_empty line || starts_with 35 line then [] else elim (next_word line) [
      | none ↦ []
      | some (ip_s, rest) ↦ elim (next_word rest) [
        | none ↦ []
        | some (name, more) ↦ host_of ip_s name
      ]
    ]

abbrev pub parse_lines : List Str → Hosts
parse_lines [] = []
parse_lines (line ∷ rest) = parse_line line ++ parse_lines rest

unfoldable pub parse_hosts : Str → Hosts
parse_hosts content = parse_lines (lines content)

-- `name.strip_suffix('.').unwrap_or(name)`
abbrev pub strip_dot : Str → Str
strip_dot [] = []
strip_dot (c ∷ []) = if c == 46 then [] else c ∷ []
strip_dot (c ∷ d ∷ ds) = c ∷ strip_dot (d ∷ ds)

abbrev pub trim_start_dots : Str → Str
trim_start_dots [] = []
trim_start_dots (c ∷ cs) = let rest = trim_start_dots cs in if c == 46 then rest else c ∷ cs

abbrev keep_unless_dot : ℕ → Str → Str
keep_unless_dot c [] = if c == 46 then [] else c ∷ []
keep_unless_dot c (d ∷ ds) = c ∷ d ∷ ds

abbrev pub trim_end_dots : Str → Str
trim_end_dots [] = []
trim_end_dots (c ∷ cs) = keep_unless_dot c (trim_end_dots cs)

-- `zone.trim_matches('.')`
abbrev pub trim_dots : Str → Str
trim_dots s = trim_end_dots (trim_start_dots s)

-- `lower.strip_suffix(&suffix)`
abbrev pub strip_suffix : Str → Str → Option Str
strip_suffix suffix s =
    let n = length s - length suffix in
    if leb (length suffix) (length s) && drop n s === suffix then some (take n s) else none

abbrev pub strip_zone_suffix : Str → Str → Str
strip_zone_suffix trimmed zone =
    elim (strip_suffix (46 ∷ to_ascii_lowercase zone) (to_ascii_lowercase trimmed)) [
      | none ↦ trimmed
      | some head ↦ if is_empty head then trimmed else take (length head) trimmed
    ]

unfoldable pub strip_zone : Str → Str → Str
strip_zone name zone =
    let trimmed = strip_dot name in
    let zone = trim_dots zone in if is_empty zone then trimmed else strip_zone_suffix trimmed zone

-- One round of `serve`: the reply to a datagram, of which the buffer takes 512 bytes.
unfoldable pub answer_datagram : Str → (Str → Option Ipv4Addr) → List ℕ → Option (List ℕ)
answer_datagram zone resolve datagram = parse_query (take max_udp_msg datagram) >>= λ query.
    some (build_response query (resolve (strip_zone query.name zone)) default_ttl)
