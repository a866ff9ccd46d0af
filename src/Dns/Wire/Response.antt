-- ===== src/Dns/Wire/Response.antt =====
-- crates/akurai-dns/src/wire.rs: `build_response` read back.
use akur_ai_vpn.Base.{ℕ, ◌/◌, ◌%◌, Bool, if◌then◌else◌, bit_or, IsU16, u16_of_be}
use akur_ai_vpn.Dns.Wire.RoundTrip.{IsName}
use akur_ai_vpn.Dns.Wire.{Query, flag_rd}

-- A query with fields of 16 bits, and a name that the wire can hold.
pub record IsQuery (q : Query) : Type 0 where
  pub id : IsU16 q.id
  pub name : IsName q.name
  pub qtype : IsU16 q.qtype
  pub qclass : IsU16 q.qclass

-- The flags of a response.
abbrev flags_of : Bool → ℕ → ℕ
flags_of rd rcode = bit_or (if rd then bit_or 0x8400 flag_rd else 0x8400) rcode

-- What is read, for the recursion bit that is read.
abbrev asked : Bool → Query → Query
asked rd q = record {
  id = u16_of_be (q.id / 256 % 256) (q.id % 256);
  name = q.name;
  qtype = u16_of_be (q.qtype / 256 % 256) (q.qtype % 256);
  qclass = u16_of_be (q.qclass / 256 % 256) (q.qclass % 256);
  recursion_desired = rd;
}
