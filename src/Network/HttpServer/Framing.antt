-- ===== src/Network/HttpServer/Framing.antt =====
-- src/network/http_server.cpp: how the lines of a message are cut apart.
use personalblockchain.Prelude.{
  ℕ, ◌<◌, ◌≡◌, ◌∙◌, ap, sym, refl, true, false, not, all, Option, some, none, [], ◌∷◌, ◌++◌, Text,
  text_eq, ◌==◌, arith, append_assoc, u64_mod, decimal, ltb,
}
use personalblockchain.Network.PeerManager.Endpoint.{
  is_digit, decimal-digits, skip_spaces-digit, magnitude,
}
use personalblockchain.Network.HttpServer.Words.{cut, lines}
use personalblockchain.Network.HttpServer.Requests.{chomp, blank_line, split_headers, stoul}

-- The text does not hold the byte.
abbrev pub Lacks : ℕ → Text → Type 0
Lacks c s = all (λ d. not (d == c)) s ≡ true

pub cut-Lacks : (c : ℕ) (s rest : Text) → Lacks c s → cut c (s ++ c ∷ rest) ≡ some (s, rest)
unfolding cut
cut-Lacks c [] rest h = ground arith
cut-Lacks c (d ∷ s) rest h = ground (arith, cut-Lacks c s rest)

pub lines-Lacks : (c : ℕ) (s rest : Text) → Lacks c s → lines c (s ++ c ∷ rest) ≡ s ∷ lines c rest
unfolding lines
lines-Lacks c [] rest h = ground arith
lines-Lacks c (d ∷ s) rest h =
    let later = lines-Lacks c s rest (ground arith) in
    let differ : (d == c) ≡ false = ground arith in rw (differ, later) refl

pub Lacks-append : (c : ℕ) (s t : Text) → Lacks c s → Lacks c t → Lacks c (s ++ t)
Lacks-append c [] t h k = k
Lacks-append c (d ∷ s) t h k = ground (arith, Lacks-append c s t)

pub chomp-append : (s : Text) → chomp (s ++ 13 ∷ []) ≡ s
unfolding chomp
chomp-append [] = refl
chomp-append (c ∷ []) = refl
chomp-append (c ∷ d ∷ s) = ap (◌∷◌ c) (chomp-append (d ∷ s))

-- A text in front of what is cut off.
abbrev pub onto : Text → Option (Text × Text) → Option (Text × Text)
onto s none = none
onto s (some (a, b)) = some (s ++ a, b)

split_headers-skip :
    (c : ℕ) (s : Text) → (c == 13) ≡ false → split_headers (c ∷ s) ≡ onto (c ∷ []) (split_headers s)
unfolding split_headers text_eq
split_headers-skip c s h = ground arith

onto_nothing : (o : Option (Text × Text)) → o ≡ onto [] o
onto_nothing none = refl
onto_nothing (some (a, b)) = refl

pub onto-onto : (s t : Text) (o : Option (Text × Text)) → onto s (onto t o) ≡ onto (s ++ t) o
onto-onto s t none = refl
onto-onto s t (some (a, b)) = ap (λ u. some (u, b)) (sym (append_assoc s t a))

pub split_headers-Lacks :
    (s rest : Text) → Lacks 13 s → split_headers (s ++ rest) ≡ onto s (split_headers rest)
split_headers-Lacks [] rest h = onto_nothing (split_headers rest)
split_headers-Lacks (c ∷ s) rest h =
    split_headers-skip c (s ++ rest) (ground arith)
    ∙ ap (onto (c ∷ [])) (split_headers-Lacks s rest (ground arith))
    ∙ onto-onto (c ∷ []) s (split_headers rest)

-- The end of a line that another follows.
pub split_headers-line :
    (c : ℕ) (s : Text)
    → (c == 13) ≡ false
    → split_headers (13 ∷ 10 ∷ c ∷ s) ≡ onto (13 ∷ 10 ∷ []) (split_headers (c ∷ s))
unfolding split_headers text_eq
split_headers-line c s h = ground arith

pub split_headers-end : (s : Text) → split_headers (blank_line ++ s) ≡ some (blank_line, s)
unfolding split_headers text_eq
split_headers-end s = refl

stoul-digits :
    (c : ℕ) (t : Text) (n : ℕ)
    → is_digit c ≡ true
    → magnitude (c ∷ t) ≡ some n
    → n < u64_mod
    → stoul (c ∷ t) ≡ some n
unfolding stoul
stoul-digits c t n d r h =
    let front = skip_spaces-digit c t d in
    let minus : (c == b'-') ≡ false = ground arith in
    let plus : (c == b'+') ≡ false = ground arith in
    let small : ltb n u64_mod ≡ true = ground arith in
    rw (front, stoul) (rw (minus, plus, r, small) refl)

pub stoul-decimal : (n : ℕ) → n < u64_mod → stoul (decimal n) ≡ some n
stoul-decimal n h =
    let (c, t, made, digit, read) = decimal-digits n (omega arith) in
    rw made (stoul-digits c t n digit (rw (digit, magnitude, read) refl) h)
