-- ===== src/Dns/Wire.antt =====
-- crates/akurai-dns/src/wire.rs: the message codec. A name is the bytes of its text, and a reading
-- position in a buffer is the list of the bytes from there on.
pub mod RoundTrip
pub mod Response
use akur_ai_vpn.Base.{
  ℕ, zero, suc, ◌+◌, ◌*◌, ◌/◌, ◌%◌, Bool, true, false, not, List, [], ◌∷◌, ◌++◌, Option, none, some,
  ltb, ◌==◌, if◌then◌else◌, length, take, drop, min, bit_and, bit_or, u16_be, u16_of_be, u32_be,
  octets, Ipv4Addr, ◌>>=◌,
}
use akur_ai_vpn.Base.Text.{is_empty}

abbrev pub type_a : ℕ
type_a = 1

abbrev pub class_in : ℕ
class_in = 1

abbrev pub rcode_noerror : ℕ
rcode_noerror = 0

abbrev pub rcode_nxdomain : ℕ
rcode_nxdomain = 3

abbrev pub max_name_len : ℕ
max_name_len = 255

abbrev pub max_label_len : ℕ
max_label_len = 63

abbrev pub compression_mask : ℕ
compression_mask = 0xC0

abbrev pub flag_rd : ℕ
flag_rd = 0x0100

pub record Query : Type 0 where
  pub id : ℕ
  pub name : List ℕ
  pub qtype : ℕ
  pub qclass : ℕ
  pub recursion_desired : Bool

-- `name.push(char::from(b))` for each byte, in UTF-8
unfoldable pub push_chars : List ℕ → List ℕ
push_chars [] = []
push_chars (b ∷ bs) =
    if ltb b 128 then b ∷ push_chars bs else (192 + b / 64) ∷ (128 + b % 64) ∷ push_chars bs

-- The dot before a label that is not the first, and the label.
abbrev pub append_label : List ℕ → List ℕ → List ℕ
append_label name label = if is_empty name then label else name ++ (46 ∷ label)

-- The loop of `parse_query` over the labels. Each round takes a byte at least, so as much fuel as there
-- are bytes is enough.
unfoldable pub parse_name : ℕ → List ℕ → List ℕ → Option (List ℕ × List ℕ)
parse_name zero rest name = none
parse_name (suc fuel) [] name = none
parse_name (suc fuel) (len ∷ rest) name =
    let name' = append_label name (push_chars (take len rest)) in
    let later = parse_name fuel (drop len rest) name' in
    if len == 0
    then some (name, rest)
    else if not (bit_and len compression_mask == 0)
    then none
    else if ltb (length rest) len
    then none
    else if ltb max_name_len (length name')
    then none
    else later

abbrev pub parse_tail : ℕ → Bool → List ℕ × List ℕ → Option Query
parse_tail id rd (name, t0 ∷ t1 ∷ c0 ∷ c1 ∷ rest) = some (record {
  id = id;
  name = name;
  qtype = u16_of_be t0 t1;
  qclass = u16_of_be c0 c1;
  recursion_desired = rd;
})
parse_tail id rd _ = none

unfoldable pub parse_query : List ℕ → Option Query
parse_query (i0 ∷ i1 ∷ f0 ∷ f1 ∷ q0 ∷ q1 ∷ a0 ∷ a1 ∷ n0 ∷ n1 ∷ r0 ∷ r1 ∷ rest) =
    if u16_of_be q0 q1 == 0
    then none
    else parse_name (length rest) rest []
      >>= parse_tail (u16_of_be i0 i1) (not (bit_and (u16_of_be f0 f1) flag_rd == 0))
parse_query _ = none

abbrev pub push_first : ℕ → List (List ℕ) → List (List ℕ)
push_first c [] = (c ∷ []) ∷ []
push_first c (l ∷ ls) = (c ∷ l) ∷ ls

-- `name.split('.')`
abbrev pub split : List ℕ → List (List ℕ)
split [] = [] ∷ []
split (c ∷ cs) = let pieces = split cs in if c == 46 then [] ∷ pieces else push_first c pieces

abbrev pub encode_label : List ℕ → List ℕ → List ℕ
encode_label [] rest = rest
encode_label (c ∷ cs) rest =
    let len = min (length (c ∷ cs)) max_label_len in len ∷ (take len (c ∷ cs) ++ rest)

abbrev pub encode_labels : List (List ℕ) → List ℕ → List ℕ
encode_labels [] rest = 0 ∷ rest
encode_labels (l ∷ ls) rest = encode_label l (encode_labels ls rest)

-- `encode_name`, with what is written behind it.
unfoldable pub encode_name : List ℕ → List ℕ → List ℕ
encode_name name rest = encode_labels (split name) rest

unfoldable pub build_query : ℕ → List ℕ → ℕ → List ℕ
unfolding encode_name
build_query id name qtype =
    u16_be id
    ++ (u16_be flag_rd
        ++ (u16_be 1
            ++ (u16_be 0
                ++ (u16_be 0 ++ (u16_be 0 ++ encode_name name (u16_be qtype ++ u16_be class_in))))))

-- The answer and the response code.
unfoldable pub outcome : ℕ → Option Ipv4Addr → Option Ipv4Addr × ℕ
outcome qtype none = (none, rcode_nxdomain)
outcome qtype (some ip) =
    if qtype == type_a then (some ip, rcode_noerror) else (none, rcode_noerror)

abbrev pub answer_rr : Option Ipv4Addr → ℕ → List ℕ
answer_rr none ttl = []
answer_rr (some ip) ttl =
    0xC0 ∷ 0x0C ∷ (u16_be type_a ++ (u16_be class_in ++ (u32_be ttl ++ (u16_be 4 ++ octets ip))))

abbrev pub count_of : Option Ipv4Addr → ℕ
count_of none = 0
count_of (some ip) = 1

unfoldable pub build_response : Query → Option Ipv4Addr → ℕ → List ℕ
unfolding encode_name outcome
build_response query resolved ttl =
    let (answer, rcode) = outcome query.qtype resolved in
    let flags = bit_or (if query.recursion_desired then bit_or 0x8400 flag_rd else 0x8400) rcode in
    u16_be query.id
    ++ (u16_be flags
        ++ (u16_be 1
            ++ (u16_be (count_of answer)
                ++ (u16_be 0
                    ++ (u16_be 0
                        ++ encode_name query.name (
                            u16_be query.qtype
                            ++ (u16_be query.qclass ++ answer_rr answer ttl)))))))
