-- ===== src/Dns/Wire/RoundTrip.antt =====
-- crates/akurai-dns/src/wire.rs: `build_query` and `parse_query` against each other.
use akur_ai_vpn.Base.{
  ==_iff, ◌>>=◌, ℕ, zero, suc, ◌/◌, ◌%◌, ◌≤◌, ◌<◌, ◌≡◌, refl, ap, ap₂, sym, ◌∙◌, Bool-cases, inl,
  inr, true, List, [], ◌∷◌, ◌++◌, Option, some, ◌==◌, arith, length, take, drop, min, All, bit_and,
  take-append, drop-append, length-append, IsU16, u16_be, u16_of_be,
}
use akur_ai_vpn.Base.Masks.{bit_and-high}
use mathlib.Core.List.{append-nil}
use akur_ai_vpn.Dns.Wire.{
  push_chars, append_label, parse_name, parse_tail, parse_query, push_first, split, encode_label,
  encode_labels, encode_name, build_query, class_in, max_name_len,
}

abbrev IsAscii : ℕ → Type 0
IsAscii c = c < 128

-- A label of a name: 1 to 63 characters of ASCII.
pub record IsLabel (l : List ℕ) : Type 0 where
  pub some_char : 1 ≤ length l
  pub short : length l ≤ 63
  pub ascii : All IsAscii l

append_assoc : (xs ys zs : List ℕ) → (xs ++ ys) ++ zs ≡ xs ++ (ys ++ zs)
append_assoc [] ys zs = refl
append_assoc (x ∷ xs) ys zs = ap (◌∷◌ x) (append_assoc xs ys zs)

push_chars-ascii : (l : List ℕ) → All IsAscii l → push_chars l ≡ l
unfolding push_chars
push_chars-ascii [] h = refl
push_chars-ascii (c ∷ cs) h = ground (arith, ap (◌∷◌ c) (push_chars-ascii cs h.1))

-- The labels put behind a name, each with its dot.
abbrev dotted : List (List ℕ) → List ℕ
dotted [] = []
dotted (l ∷ ls) = 46 ∷ (l ++ dotted ls)

abbrev join : List (List ℕ) → List ℕ
join [] = []
join (l ∷ ls) = l ++ dotted ls

join-push_first : (c : ℕ) (ls : List (List ℕ)) → join (push_first c ls) ≡ c ∷ join ls
join-push_first c [] = refl
join-push_first c (l ∷ ls) = refl

split_cons : (s : List ℕ) → (l : List ℕ) × (ls : List (List ℕ)) × (split s ≡ l ∷ ls)
split_cons [] = ([], [], refl)
split_cons (c ∷ cs) =
    let (l, ls, e) = split_cons cs in
    elim (Bool-cases (c == 46)) [
      | inl d ↦ ([], split cs, rw d refl)
      | inr d ↦ (c ∷ l, ls, rw (d, e) refl)
    ]

dotted-split :
    (cs l : List ℕ) (ls : List (List ℕ))
    → split cs ≡ l ∷ ls
    → join (split cs) ≡ cs
    → dotted (split cs) ≡ 46 ∷ cs
dotted-split cs l ls e h = rw e (ap (◌∷◌ 46) (sym (ap join e) ∙ h))

join-split : (s : List ℕ) → join (split s) ≡ s
join-split [] = refl
join-split (c ∷ cs) =
    let (l, ls, e) = split_cons cs in
    elim (Bool-cases (c == 46)) [
      | inl d ↦ rw d (
          dotted-split cs l ls e (join-split cs) ∙ ap (λ (x : ℕ). x ∷ cs) (sym ((==_iff c 46).0 d)))
      | inr d ↦ rw d (join-push_first c (split cs) ∙ ap (◌∷◌ c) (join-split cs))
    ]

abbrev all_appended : List ℕ → List (List ℕ) → List ℕ
all_appended name [] = name
all_appended name (l ∷ ls) = all_appended (append_label name l) ls

length-append_label : (name l : List ℕ) → length name ≤ length (append_label name l)
length-append_label [] l = omega arith
length-append_label (n ∷ ns) l = omega (arith, length-append ns (46 ∷ l))

length-all_appended :
    (name : List ℕ) (ls : List (List ℕ)) → length name ≤ length (all_appended name ls)
length-all_appended name [] = omega arith
length-all_appended name (l ∷ ls) =
    omega (arith, length-append_label name l, length-all_appended (append_label name l) ls)

all_appended-dotted :
    (n : ℕ) (ns : List ℕ) (ls : List (List ℕ)) → all_appended (n ∷ ns) ls ≡ n ∷ (ns ++ dotted ls)
all_appended-dotted n ns [] = ap (◌∷◌ n) (sym (append-nil ns))
all_appended-dotted n ns (l ∷ ls) =
    all_appended-dotted n (ns ++ 46 ∷ l) ls ∙ ap (◌∷◌ n) (append_assoc ns (46 ∷ l) (dotted ls))

all_appended-join : (ls : List (List ℕ)) → All IsLabel ls → all_appended [] ls ≡ join ls
all_appended-join [] h = refl
all_appended-join ([] ∷ ls) h = absurd (omega (arith, h.0.some_char))
all_appended-join ((c ∷ cs) ∷ ls) h = all_appended-dotted c cs ls

take_all : (xs : List ℕ) → take (length xs) xs ≡ xs
take_all [] = refl
take_all (x ∷ xs) = ap (◌∷◌ x) (take_all xs)

-- A label is written as its length and its bytes.
encode_label-IsLabel : (l rest : List ℕ) → IsLabel l → encode_label l rest ≡ length l ∷ (l ++ rest)
encode_label-IsLabel [] rest h = absurd (omega (arith, h.some_char))
encode_label-IsLabel (c ∷ cs) rest h =
    ap (λ (n : ℕ). n ∷ (take n (c ∷ cs) ++ rest)) short_enough
    ∙ ap (λ (t : List ℕ). length (c ∷ cs) ∷ (t ++ rest)) (take_all (c ∷ cs))
  where
    short_enough : min (length (c ∷ cs)) 63 ≡ length (c ∷ cs)
    short_enough = omega (arith, h.short)

no_pointer : (len : ℕ) → len ≤ 63 → bit_and len 0xC0 ≡ 0
no_pointer len h = omega (arith, bit_and-high 2 6 len)

-- One round of the loop over a label.
parse_label :
    (fuel len : ℕ) (body l rest name : List ℕ)
    → 1 ≤ len
    → len ≤ 63
    → len ≤ length body
    → push_chars (take len body) ≡ l
    → drop len body ≡ rest
    → length (append_label name l) ≤ max_name_len
    → parse_name (suc fuel) (len ∷ body) name ≡ parse_name fuel rest (append_label name l)
unfolding parse_name
parse_label fuel len body l rest name some_len small fits taken left short =
    rw (taken, left, no_pointer len small) (ground arith)

parse-encode_labels :
    (fuel : ℕ) (ls : List (List ℕ)) (name rest : List ℕ)
    → length ls < fuel
    → All IsLabel ls
    → length (all_appended name ls) ≤ max_name_len
    → parse_name fuel (encode_labels ls rest) name ≡ some (all_appended name ls, rest)
parse-encode_labels zero ls name rest f h short = absurd (omega arith)
parse-encode_labels (suc fuel) [] name rest f h short = unfold parse_name in refl
parse-encode_labels (suc fuel) (l ∷ ls) name rest f h short =
    let tail = encode_labels ls rest in
    ap (λ (t : List ℕ). parse_name (suc fuel) t name) (encode_label-IsLabel l tail h.0)
    ∙ parse_label fuel (length l) (l ++ tail) l tail name h.0.some_char h.0.short
        (omega (arith, length-append l tail))
        (ap push_chars (take-append l tail) ∙ push_chars-ascii l h.0.ascii) (drop-append l tail)
        (omega (arith, length-all_appended (append_label name l) ls))
    ∙ parse-encode_labels fuel ls (append_label name l) rest (omega arith) h.1 short

length-encode_labels :
    (ls : List (List ℕ)) (rest : List ℕ)
    → All IsLabel ls
    → length ls < length (encode_labels ls rest)
length-encode_labels [] rest h = omega arith
length-encode_labels (l ∷ ls) rest h =
    rw (encode_label-IsLabel l (encode_labels ls rest) h.0)
      (omega (arith, length-append l (encode_labels ls rest), length-encode_labels ls rest h.1))

-- A name of labels of 1 to 63 characters of ASCII, of at most 255 characters.
pub record IsName (name : List ℕ) : Type 0 where
  pub labels : All IsLabel (split name)
  pub short : length name ≤ max_name_len

pub parse_name-encode_name :
    (name rest : List ℕ)
    → IsName name
    → parse_name (length (encode_name name rest)) (encode_name name rest) [] ≡ some (name, rest)
unfolding encode_name
parse_name-encode_name name rest h =
    let same : all_appended [] (split name) ≡ name =
      all_appended-join (split name) h.labels ∙ join-split name in
    parse-encode_labels _ (split name) [] rest (length-encode_labels (split name) rest h.labels)
      h.labels (rw same h.short)
    ∙ ap (λ (n : List ℕ). some (n, rest)) same

pub two_bytes : (n : ℕ) → IsU16 n → u16_of_be (n / 256 % 256) (n % 256) ≡ n
two_bytes n h = omega arith

-- A query that is built for a name of labels of 1 to 63 characters of ASCII, at most 255 characters in all,
-- is parsed to that name, its id and its type, the class IN and the recursion bit set.
pub parse_query-build_query :
    (id : ℕ) (name : List ℕ) (qtype : ℕ)
    → IsU16 id
    → IsName name
    → IsU16 qtype
    → parse_query (build_query id name qtype)
      ≡ some (record {
        id = id;
        name = name;
        qtype = qtype;
        qclass = class_in;
        recursion_desired = true;
      })
unfolding parse_query build_query
parse_query-build_query id name qtype hi hn ht =
    ap
      (λ (r : Option (List ℕ × List ℕ)).
        r >>= parse_tail (u16_of_be (id / 256 % 256) (id % 256)) true)
      (parse_name-encode_name name (u16_be qtype ++ u16_be class_in) hn)
    ∙ ap₂
        (λ (i t : ℕ).
          some (record {
            id = i;
            name = name;
            qtype = t;
            qclass = class_in;
            recursion_desired = true;
          }))
        (two_bytes id hi) (two_bytes qtype ht)
