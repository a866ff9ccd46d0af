-- ===== src/Tests/Echo.antt =====
-- An echo request from 100.88.0.2 to 100.88.0.3, and its reply.
use akur_ai_vpn.Base.{
  ℕ, suc, ◌<◌, ◌^◌, ◌≡◌, refl, arith, List, [], ◌∷◌, ◌++◌, some, drop, get_or, All, IsByte,
}
use akur_ai_vpn.Node.Echo.{sum_words, fold, checksum16, icmp_echo_reply}
use akur_ai_vpn.Node.Echo.Checksum.{header_len, icmp_echo_reply-Verifies, Verifies, fold-fold}

abbrev head_of : List ℕ
head_of = 69 ∷ 0 ∷ 0 ∷ 28 ∷ 0 ∷ 0 ∷ 0 ∷ 0 ∷ 64 ∷ 1 ∷ 0 ∷ 0 ∷ []

abbrev left : List ℕ
left = 100 ∷ 88 ∷ 0 ∷ 2 ∷ []

abbrev right : List ℕ
right = 100 ∷ 88 ∷ 0 ∷ 3 ∷ []

abbrev request : List ℕ
request = head_of ++ left ++ right ++ (8 ∷ 0 ∷ 247 ∷ 253 ∷ 0 ∷ 1 ∷ 0 ∷ 1 ∷ [])

abbrev reply : List ℕ
reply = head_of ++ right ++ left ++ (0 ∷ 0 ∷ 255 ∷ 253 ∷ 0 ∷ 1 ∷ 0 ∷ 1 ∷ [])

request-reply : icmp_echo_reply request ≡ some reply
unfolding icmp_echo_reply checksum16 sum_words fold
request-reply = refl

request-IsByte : All IsByte request
request-IsByte = (
  omega arith,
  (
    omega arith,
    (
      omega arith,
      (
        omega arith,
        (
          omega arith,
          (
            omega arith,
            (
              omega arith,
              (
                omega arith,
                (
                  omega arith,
                  (
                    omega arith,
                    (
                      omega arith,
                      (
                        omega arith,
                        (
                          omega arith,
                          (
                            omega arith,
                            (
                              omega arith,
                              (
                                omega arith,
                                (
                                  omega arith,
                                  (
                                    omega arith,
                                    (
                                      omega arith,
                                      (
                                        omega arith,
                                        (
                                          omega arith,
                                          (
                                            omega arith,
                                            (
                                              omega arith,
                                              (
                                                omega arith,
                                                (
                                                  omega arith,
                                                  (omega arith, (omega arith, (omega arith, tt))),
                                                ),
                                              ),
                                            ),
                                          ),
                                        ),
                                      ),
                                    ),
                                  ),
                                ),
                              ),
                            ),
                          ),
                        ),
                      ),
                    ),
                  ),
                ),
              ),
            ),
          ),
        ),
      ),
    ),
  ),
)

icmp_echo_reply-Verifies_example :
    let asked = drop (header_len request) request in
    let answered = drop (header_len request) reply in
    (get_or answered 0 0 ≡ 0)
    × (get_or answered 1 0 ≡ get_or asked 1 0)
    × (drop 4 answered ≡ drop 4 asked)
    × Verifies answered
icmp_echo_reply-Verifies_example =
    icmp_echo_reply-Verifies request reply request-IsByte (omega arith) request-reply

fold-fold_example :
    (fold 2 4294967295 < 2 ^ 16) × (fold (suc (suc 7)) 4294967295 ≡ fold 2 4294967295)
fold-fold_example = fold-fold 7 4294967295 (omega arith)
