-- ===== src/Dns/Resolution.antt =====
-- crates/akurai-dns/src/lib.rs: the zone of a name, and replies.
use akur_ai_vpn.Base.{
  ℕ, zero, suc, ◌+◌, ◌-◌, ◌≤◌, ◌≡◌, ◌≢◌, refl, ap, ap₂, ◌∙◌, arith, true, List, [], ◌∷◌, ◌++◌,
  Option, none, some, ◌>>=◌, Ipv4Addr, length, take, take-append, drop-append, length-append, IsU16,
  leb, ◌&&◌, if◌then◌else◌,
}
use akur_ai_vpn.Base.Eq.{nat_eq, list_eq, ===_self}
use akur_ai_vpn.Base.Text.{Str, is_empty, to_ascii_lowercase}
use akur_ai_vpn.Dns.Wire.RoundTrip.{IsName, parse_query-build_query}
use akur_ai_vpn.Dns.Wire.{Query, parse_query, build_query, build_response, class_in}
use akur_ai_vpn.Dns.{
  strip_dot, trim_dots, strip_suffix, strip_zone_suffix, strip_zone, answer_datagram, default_ttl,
  max_udp_msg,
}

lowercase-append :
    (xs ys : Str) → to_ascii_lowercase (xs ++ ys) ≡ to_ascii_lowercase xs ++ to_ascii_lowercase ys
lowercase-append [] ys = refl
lowercase-append (x ∷ xs) ys =
    ap (◌∷◌ (if leb 65 x && leb x 90 then x + 32 else x)) (lowercase-append xs ys)

length-lowercase : (xs : Str) → length (to_ascii_lowercase xs) ≡ length xs
length-lowercase [] = refl
length-lowercase (x ∷ xs) = ap suc (length-lowercase xs)

strip_suffix-append : (head suffix : Str) → strip_suffix suffix (head ++ suffix) ≡ some head
strip_suffix-append head suffix =
    rw (cut, fits, drop-append head suffix, ===_self suffix, take-append head suffix)
  where
    cut : length (head ++ suffix) - length suffix ≡ length head
    cut = omega (arith, length-append head suffix)

    fits : leb (length suffix) (length (head ++ suffix)) ≡ true
    fits = ground (arith, length-append head suffix)

strip_dot-append :
    (c : ℕ) (cs : Str) (d : ℕ) (ds : Str)
    → strip_dot ((c ∷ cs) ++ (d ∷ ds)) ≡ (c ∷ cs) ++ strip_dot (d ∷ ds)
strip_dot-append c [] d ds = refl
strip_dot-append c (b ∷ bs) d ds = ap (◌∷◌ c) (strip_dot-append b bs d ds)

abbrev head_of : Str → Option Str → Str
head_of trimmed o = elim o [
  | none ↦ trimmed
  | some head ↦ if is_empty head then trimmed else take (length head) trimmed
]

abbrev without_zone : Str → Str → Str
without_zone trimmed zone = if is_empty zone then trimmed else strip_zone_suffix trimmed zone

-- The suffix is found behind the label, in small letters.
suffix_found :
    (label zone zone' : Str)
    → to_ascii_lowercase zone' ≡ to_ascii_lowercase zone
    → strip_suffix (46 ∷ to_ascii_lowercase zone) (to_ascii_lowercase (label ++ (46 ∷ zone')))
      ≡ some (to_ascii_lowercase label)
suffix_found label zone zone' same =
    ap (strip_suffix (46 ∷ to_ascii_lowercase zone)) (
      lowercase-append label (46 ∷ zone')
      ∙ ap (λ (t : Str). to_ascii_lowercase label ++ (46 ∷ t)) same)
    ∙ strip_suffix-append (to_ascii_lowercase label) (46 ∷ to_ascii_lowercase zone)

strip_zone_suffix-zone :
    (c : ℕ) (cs zone zone' : Str)
    → to_ascii_lowercase zone' ≡ to_ascii_lowercase zone
    → strip_zone_suffix ((c ∷ cs) ++ (46 ∷ zone')) zone ≡ c ∷ cs
strip_zone_suffix-zone c cs zone zone' same =
    ap (head_of ((c ∷ cs) ++ (46 ∷ zone'))) (suffix_found (c ∷ cs) zone zone' same)
    ∙ ap (λ (n : ℕ). take n ((c ∷ cs) ++ (46 ∷ zone'))) (length-lowercase (c ∷ cs))
    ∙ take-append (c ∷ cs) (46 ∷ zone')

without_zone-zone :
    (c : ℕ) (cs zone zone' : Str)
    → zone ≢ []
    → to_ascii_lowercase zone' ≡ to_ascii_lowercase zone
    → without_zone ((c ∷ cs) ++ (46 ∷ zone')) zone ≡ c ∷ cs
without_zone-zone c cs [] zone' some_zone same = absurd (some_zone refl)
without_zone-zone c cs (z ∷ zs) zone' some_zone same =
    strip_zone_suffix-zone c cs (z ∷ zs) zone' same

-- A name of a label and the zone, in capital or small letters, is stripped to the label.
strip_zone-zone :
    (c : ℕ) (cs zone zone' : Str)
    → zone ≢ []
    → trim_dots zone ≡ zone
    → to_ascii_lowercase zone' ≡ to_ascii_lowercase zone
    → strip_dot (46 ∷ zone') ≡ 46 ∷ zone'
    → strip_zone ((c ∷ cs) ++ (46 ∷ zone')) zone ≡ c ∷ cs
unfolding strip_zone
strip_zone-zone c cs zone zone' some_zone trimmed same last =
    ap₂ without_zone (strip_dot-append c cs 46 zone' ∙ ap ((c ∷ cs) ++◌) last) trimmed
    ∙ without_zone-zone c cs zone zone' some_zone same

take_enough : (n : ℕ) (xs : List ℕ) → length xs ≤ n → take n xs ≡ xs
take_enough zero [] h = refl
take_enough zero (x ∷ xs) h = absurd (omega arith)
take_enough (suc n) [] h = refl
take_enough (suc n) (x ∷ xs) h = ap (◌∷◌ x) (take_enough n xs (omega arith))

abbrev asked : ℕ → Str → ℕ → Query
asked id name qtype = record {
  id = id;
  name = name;
  qtype = qtype;
  qclass = class_in;
  recursion_desired = true;
}

abbrev reply : Str → (Str → Option Ipv4Addr) → Query → Option (List ℕ)
reply zone resolve query =
    some (build_response query (resolve (strip_zone query.name zone)) default_ttl)

-- A query for a label in the zone, its letters capital or small, is answered with what the label alone
-- resolves to, if the message fits the buffer and the zone has no point at either end.
pub answer_datagram-build_query :
    (resolve : Str → Option Ipv4Addr) (id qtype c : ℕ) (cs zone zone' : Str)
    → IsU16 id
    → IsU16 qtype
    → IsName ((c ∷ cs) ++ (46 ∷ zone'))
    → length (build_query id ((c ∷ cs) ++ (46 ∷ zone')) qtype) ≤ max_udp_msg
    → zone ≢ []
    → trim_dots zone ≡ zone
    → to_ascii_lowercase zone' ≡ to_ascii_lowercase zone
    → strip_dot (46 ∷ zone') ≡ 46 ∷ zone'
    → answer_datagram zone resolve (build_query id ((c ∷ cs) ++ (46 ∷ zone')) qtype)
      ≡ some (
          build_response
            (record {
              id = id;
              name = (c ∷ cs) ++ (46 ∷ zone');
              qtype = qtype;
              qclass = class_in;
              recursion_desired = true;
            })
            (resolve (c ∷ cs))
            default_ttl)
unfolding answer_datagram
answer_datagram-build_query resolve id qtype c cs zone zone' hi ht hn fits some_zone trimmed same
      last =
    let name = (c ∷ cs) ++ (46 ∷ zone') in
    let q = asked id name qtype in
    ap (λ (d : List ℕ). parse_query d >>= reply zone resolve)
      (take_enough max_udp_msg (build_query id name qtype) fits)
    ∙ ap (λ (r : Option Query). r >>= reply zone resolve)
        (parse_query-build_query id name qtype hi hn ht)
    ∙ ap (λ (l : Str). some (build_response q (resolve l) default_ttl))
        (strip_zone-zone c cs zone zone' some_zone trimmed same last)
