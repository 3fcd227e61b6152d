-- ===== src/Network/HttpServer/Answers.antt =====
-- src/network/http_server.cpp: where the body of an answer begins and how long it is.
use personalblockchain.Prelude.{
  ℕ, ◌≡◌, ◌∙◌, ap, refl, true, false, all, some, List, [], ◌∷◌, ◌++◌, Text, codes, decimal, length,
  text_eq, to_lower, arith,
}
use personalblockchain.Prelude.Map.{lookup, lookup-insert}
use personalblockchain.Network.PeerManager.Endpoint.{is_digit, decimal-all_digits}
use personalblockchain.Network.HttpServer.Requests.{drop_blanks, parse_request, split_headers}
use personalblockchain.Network.HttpServer.Responses.{response, serialize}
use personalblockchain.Network.HttpServer.Framing.{Lacks, Lacks-append}
use personalblockchain.Network.HttpServer.Printing.{
  IsOneLine, ArePlain, nil, cons, print_headers, entered, split_headers-first_line,
  parse_request-first_line,
}

pub digits-Lacks : (c : ℕ) (s : Text) → is_digit c ≡ false → all is_digit s ≡ true → Lacks c s
digits-Lacks c [] h k = refl
digits-Lacks c (d ∷ s) h k = ground (arith, digits-Lacks c s h)

digits-drop_blanks : (s : Text) → all is_digit s ≡ true → drop_blanks s ≡ s
unfolding drop_blanks
digits-drop_blanks [] h = refl
digits-drop_blanks (c ∷ s) h = ground arith

abbrev status_line : ℕ → Text → Text
status_line status_code status_text =
    codes "HTTP/1.1 " ++ (decimal status_code ++ b' ' ∷ status_text)

abbrev answer_headers : Text → List (Text × Text)
answer_headers body =
    (codes "Content-Type", codes "application/json")
    ∷ (codes "Content-Length", decimal (length body))
    ∷ (codes "Access-Control-Allow-Origin", codes "*")
    ∷ (codes "Access-Control-Allow-Methods", codes "GET, POST, OPTIONS")
    ∷ (codes "Access-Control-Allow-Headers", codes "Content-Type")
    ∷ (codes "Connection", codes "close")
    ∷ []

serialize-printed :
    (status_code : ℕ) (status_text body : Text)
    → serialize (response status_code status_text body)
      ≡ status_line status_code status_text ++ 13 ∷ 10 ∷ print_headers (answer_headers body) body
unfolding serialize
serialize-printed status_code status_text body = refl

status_line-Lacks :
    (c status_code : ℕ) (status_text : Text)
    → Lacks c (codes "HTTP/1.1 ")
    → is_digit c ≡ false
    → Lacks c (b' ' ∷ [])
    → Lacks c status_text
    → Lacks c (status_line status_code status_text)
status_line-Lacks c status_code status_text first digit blank text =
    Lacks-append c (codes "HTTP/1.1 ") (decimal status_code ++ b' ' ∷ status_text) first (
      Lacks-append c (decimal status_code) (b' ' ∷ status_text)
        (digits-Lacks c (decimal status_code) digit (decimal-all_digits status_code))
        (ground arith))

answer_headers-ArePlain : (body : Text) → ArePlain (answer_headers body)
unfolding drop_blanks
answer_headers-ArePlain body =
    let digits = decimal-all_digits (length body) in
    let size = decimal (length body) in
    cons (refl, refl) refl (refl, refl) refl
      (cons (refl, refl) refl (digits-Lacks 10 size refl digits, digits-Lacks 13 size refl digits)
        (digits-drop_blanks size digits)
        (cons (refl, refl) refl (refl, refl) refl
          (cons (refl, refl) refl (refl, refl) refl
            (cons (refl, refl) refl (refl, refl) refl
              (cons (refl, refl) refl (refl, refl) refl nil)))))

content_length-entered :
    (body : Text)
    → lookup (codes "content-length") (entered (answer_headers body) [])
      ≡ some (decimal (length body))
unfolding to_lower text_eq
content_length-entered body = simp lookup-insert

-- An answer is cut by its first empty line into its head and its body, whatever the body holds, and
-- the head names the decimal length of the body, if the status text is one line.
pub serialize-split_headers :
    (status_code : ℕ) (status_text body : Text)
    → IsOneLine status_text
    → (head : Text) × (split_headers (serialize (response status_code status_text body))
        ≡ some (head, body))
      × (lookup (codes "content-length") (parse_request head).headers
          ≡ some (decimal (length body)))
serialize-split_headers status_code status_text body (no_feed, no_return) =
    let first = status_line status_code status_text in
    let plain = answer_headers-ArePlain body in
    (
      first ++ 13 ∷ 10 ∷ print_headers (answer_headers body) [],
      ap split_headers (serialize-printed status_code status_text body)
          ∙ split_headers-first_line first (answer_headers body) body
              (status_line-Lacks 13 status_code status_text refl refl refl no_return) plain,
      ap (lookup (codes "content-length")) (
            parse_request-first_line first (answer_headers body)
              (status_line-Lacks 10 status_code status_text refl refl refl no_feed) plain)
          ∙ content_length-entered body,
    )
