-- ===== src/Idempotency/Quoted.antt =====
-- idempotency.ts: what `JSON.stringify` makes of a text can be read back.
use text.Mathlib.TextEquality.{Char-path}
use mathlib.Core.List.{head-eq_of_cons-eq, tail-eq_of_cons-eq}
use quorvel.Common.{
  ℕ, ◌+◌, ◌-◌, ◌*◌, ◌/◌, ◌%◌, ◌<◌, String, ◌≡◌, ◌∙◌, refl, ap, sym, Bool, false, List, [], ◌∷◌,
  ◌++◌, append_assoc, arith, ltb, ◌==◌, if◌then◌else◌,
}
use quorvel.Idempotency.{codes, hex_digit, escape, escaped, quoted}

-- the value of a hexadecimal digit
abbrev unhex : ℕ → ℕ
unhex d = if ltb d 58 then d - 48 else d - 87

abbrev read_hex : List ℕ → ℕ × List ℕ
read_hex (x ∷ y ∷ a ∷ b ∷ t) = ((a - 48) * 16 + unhex b, t)
read_hex t = (0, t)

abbrev read_escape : List ℕ → ℕ × List ℕ
read_escape [] = (0, [])
read_escape (e ∷ t) =
    if e == 34
    then (34, t)
    else if e == 92
    then (92, t)
    else if e == b'b'
    then (8, t)
    else if e == b't'
    then (9, t)
    else if e == b'n'
    then (10, t)
    else if e == b'f'
    then (12, t)
    else if e == b'r'
    then (13, t)
    else read_hex t

-- the code that stands first in an escaped text, and what is behind it
abbrev read_code : List ℕ → ℕ × List ℕ
read_code [] = (0, [])
read_code (h ∷ t) = if h == 92 then read_escape t else (h, t)

unhex-hex_digit : (d : ℕ) → d < 16 → unhex (hex_digit d) ≡ d
unhex-hex_digit d h = ground (arith, h)

hex_lem : (c : ℕ) → (48 + c / 16 - 48) * 16 + unhex (hex_digit (c % 16)) ≡ c
hex_lem c = omega (arith, unhex-hex_digit (c % 16) (omega arith))

read_code-escape : (c : ℕ) (t : List ℕ) → read_code (escape c ++ t) ≡ (c, t)
unfolding escape
read_code-escape c t = ground (arith, hex_lem c)

starts_with_quote : List ℕ → Bool
starts_with_quote [] = false
starts_with_quote (x ∷ xs) = x == 34

starts_with_quote-escape : (c : ℕ) (t : List ℕ) → starts_with_quote (escape c ++ t) ≡ false
unfolding escape starts_with_quote
starts_with_quote-escape c t = ground arith

-- an escaped text ends at the first quotation mark that is not escaped
escaped_lem :
    (xs ys s t : List ℕ) → escaped xs ++ 34 ∷ s ≡ escaped ys ++ 34 ∷ t → (xs ≡ ys) × (s ≡ t)
unfolding escaped starts_with_quote
escaped_lem [] [] s t h = (refl, tail-eq_of_cons-eq h)
escaped_lem [] (y ∷ ys) s t h =
    let e = ap starts_with_quote (h ∙ append_assoc (escape y) (escaped ys) (34 ∷ t)) in
    let f = starts_with_quote-escape y (escaped ys ++ 34 ∷ t) in ground (arith, e, f)
escaped_lem (x ∷ xs) [] s t h =
    let e = ap starts_with_quote (sym h ∙ append_assoc (escape x) (escaped xs) (34 ∷ s)) in
    let f = starts_with_quote-escape x (escaped xs ++ 34 ∷ s) in ground (arith, e, f)
escaped_lem (x ∷ xs) (y ∷ ys) s t h =
    let e =
      sym (read_code-escape x (escaped xs ++ 34 ∷ s))
      ∙ ap read_code (
          sym (append_assoc (escape x) (escaped xs) (34 ∷ s))
          ∙ h
          ∙ append_assoc (escape y) (escaped ys) (34 ∷ t))
      ∙ read_code-escape y (escaped ys ++ 34 ∷ t) in
    let (rest, same) = escaped_lem xs ys s t (ap (λ p. p.1) e) in (λ i. (e i).0 ∷ rest i, same)

codes_injective : (a b : String) → codes a ≡ codes b → a ≡ b
codes_injective String.[] String.[] h = refl
codes_injective String.[] (String.◌∷◌ d b) h = cc
codes_injective (String.◌∷◌ c a) String.[] h = cc
codes_injective (String.◌∷◌ c a) (String.◌∷◌ d b) h =
    let first = Char-path c d (head-eq_of_cons-eq h) in
    let rest = codes_injective a b (tail-eq_of_cons-eq h) in λ i. String.◌∷◌ (first i) (rest i)

-- a text in quotation marks ends where the marks say, whatever stands behind it
pub quoted_lem : (a b : String) (s t : List ℕ) → quoted a ++ s ≡ quoted b ++ t → (a ≡ b) × (s ≡ t)
unfolding quoted
quoted_lem a b s t h =
    let (same, rest) = escaped_lem (codes a) (codes b) s t (
      sym (append_assoc (escaped (codes a)) (34 ∷ []) s)
      ∙ tail-eq_of_cons-eq h
      ∙ append_assoc (escaped (codes b)) (34 ∷ []) t) in
    (codes_injective a b same, rest)
