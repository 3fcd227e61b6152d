-- ===== src/Network/HttpServer/Bodies.antt =====
-- src/network/http_server.cpp: what body a request has, however it is cut on its way.
use personalblockchain.Prelude.{
  ℕ, ◌-◌, ◌<◌, ◌≤◌, ◌≡◌, ◌⊎◌, ◌∙◌, ap, sym, inl, inr, refl, Option, some, none, [], ◌∷◌, ◌++◌, Text,
  codes, length, take, ltb, length-append, length-take, arith, Bool-cases, Option-cases, zero, suc,
  List, false, if◌then◌else◌,
}
use personalblockchain.Prelude.Map.{lookup}
use personalblockchain.Network.HttpServer.Words.{lines}
use personalblockchain.Network.HttpServer.Requests.{
  chomp, HttpRequest, received, read_lines, parse_request, stoul, receive_body, receive,
  max_body_size, read_request_line, empty_request,
}

take-append_more :
    {A : Type 0} (n : ℕ) (xs ys : List A)
    → length xs < n
    → take n (xs ++ ys) ≡ xs ++ take (n - length xs) ys
take-append_more zero xs ys h = absurd (omega arith)
take-append_more (suc n) [] ys h =
    let same : suc n ≡ suc n - 0 = omega arith in ap (λ k. take k ys) same
take-append_more (suc n) (x ∷ xs) ys h =
    let same : n - length xs ≡ suc n - suc (length xs) = omega arith in
    ap (◌∷◌ x) (take-append_more n xs ys (omega arith) ∙ ap (λ k. xs ++ take k ys) same)

take-append_less :
    {A : Type 0} (n : ℕ) (xs ys : List A) → n ≤ length xs → take n (xs ++ ys) ≡ take n xs
take-append_less zero xs ys h = refl
take-append_less (suc n) [] ys h = absurd (omega arith)
take-append_less (suc n) (x ∷ xs) ys h = ap (◌∷◌ x) (take-append_less n xs ys (omega arith))

List-cases : (xs : List Text) → (xs ≡ []) ⊎ ((x : Text) × (ys : List Text) × (xs ≡ x ∷ ys))
List-cases [] = inl refl
List-cases (x ∷ xs) = inr (x, xs, refl)

le-max : {n k : ℕ} → ltb k n ≡ false → n ≤ k
le-max h = ground arith

-- A connection on which the bytes `rest` are still to come; nothing where they are too few.
abbrev pub arriving : Text → ℕ → Option Text
arriving rest n = if ltb (length rest) n then none else some (take n rest)

-- The body is the announced number of bytes behind the headers, wherever the first read ends.
pub receive_body-arriving :
    (content_len : ℕ) (extra rest : Text) (req : HttpRequest)
    → content_len ≤ length (extra ++ rest)
    → receive_body (arriving rest) content_len extra req
      ≡ record req { body = take content_len (extra ++ rest) }
unfolding receive_body
receive_body-arriving content_len extra rest req enough =
    let whole = length-append extra rest in
    elim (Bool-cases (ltb 0 (content_len - length extra))) [
      | inl more ↦
          let there : ltb (length rest) (content_len - length extra) ≡ false = ground arith in
          rw (more, there)
            (ap (λ body. record req { body = body })
              (sym (take-append_more content_len extra rest (ground arith))))
      | inr all_read ↦ rw all_read (
          ap (λ body. record req { body = body })
            (sym (take-append_less content_len extra rest (ground arith))))
    ]

read_request_line-body :
    (line : Text) (req : HttpRequest) → (read_request_line line req).body ≡ req.body
unfolding read_request_line
read_request_line-body line req = ground arith

parse_request-body : (raw : Text) → (parse_request raw).body ≡ []
unfolding parse_request read_lines
parse_request-body raw = elim (List-cases (lines 10 raw)) [
  | inl none_read ↦ rw (none_read, read_lines) refl
  | inr (first, rest, read) ↦
      rw (read, read_lines) (read_request_line-body (chomp first) empty_request)
]

receive_body-length :
    (incoming : ℕ → Option Text) (content_len : ℕ) (extra : Text) (req : HttpRequest)
    → ((n : ℕ) (s : Text) → incoming n ≡ some s → length s ≡ n)
    → req.body ≡ []
    → length (receive_body incoming content_len extra req).body ≤ content_len
unfolding receive_body
receive_body-length incoming content_len extra req exact empty =
    elim (Bool-cases (ltb 0 (content_len - length extra))) [
      | inl more ↦ elim (Option-cases (incoming (content_len - length extra))) [
        | inl out ↦ rw (more, out, empty) (omega arith)
        | inr (s, came) ↦
            rw (more, came)
              (ground (arith, length-append extra s, exact (content_len - length extra) s came))
      ]
      | inr all_read ↦ rw all_read (omega (arith, length-take content_len extra))
    ]

-- No body that is handled is longer than 1 MB, if a read returns the number of bytes that it was asked
-- for.
pub receive-max_body_size :
    (incoming : ℕ → Option Text) (raw extra : Text) (req : HttpRequest)
    → ((n : ℕ) (s : Text) → incoming n ≡ some s → length s ≡ n)
    → receive incoming raw extra ≡ received req
    → length req.body ≤ max_body_size
unfolding receive
receive-max_body_size incoming raw extra req exact e =
    elim (Option-cases (lookup (codes "content-length") (parse_request raw).headers)) [
      | inl without ↦
          let same : req ≡ parse_request raw = ground arith in
          rw (same, parse_request-body raw) (omega arith)
      | inr (value, given) ↦ elim (Option-cases (stoul value)) [
        | inl bad ↦ absurd (ground arith)
        | inr (content_len, read) ↦ elim (Bool-cases (ltb max_body_size content_len)) [
          | inl large ↦ absurd (ground arith)
          | inr small ↦
              let same : req ≡ receive_body incoming content_len extra (parse_request raw) =
                ground arith in
              rw same (
                omega (
                  arith,
                  receive_body-length incoming content_len extra (parse_request raw) exact
                      (parse_request-body raw),
                  le-max small,
                ))
        ]
      ]
    ]
