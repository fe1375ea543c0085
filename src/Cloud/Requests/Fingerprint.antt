-- ===== src/Cloud/Requests/Fingerprint.antt =====
-- service.ts, `idemFingerprint`: the text that is hashed tells requests apart, since a text in quotes
-- can be read back.
use mathlib.Core.List.{append_cancel_right}
use quorvel.Common.{
  ℕ, String, ◌≡◌, ◌∙◌, refl, ap, sym, inl, inr, Bool, true, false, ◌&&◌, List, [], ◌∷◌, ◌++◌,
  append_assoc, arith, str_eq, eq_iff, ◌==◌, Bool-cases,
}
use quorvel.Value.{Value, undefined, null, bool, num, str, arr, obj, field, end}
use quorvel.Idempotency.Quoted.{quoted_lem}
use quorvel.Idempotency.{escape, escaped, quoted, join}
use quorvel.Cloud.Actions.{args_or_null}
use quorvel.Cloud.Requests.{Request, stringify, field_texts, idem_fingerprint}

-- The JSON text of the body of a request: of one that has no body, that of null.
abbrev pub body_text : Request → List ℕ
body_text req = stringify (args_or_null req.body)

abbrev same_codes : List ℕ → List ℕ → Bool
same_codes [] [] = true
same_codes [] (y ∷ ys) = false
same_codes (x ∷ xs) [] = false
same_codes (x ∷ xs) (y ∷ ys) = x == y && same_codes xs ys

-- Two requests are the same if they have one method, one path and bodies of one JSON text.
abbrev pub same_request : Request → Request → Bool
same_request a b =
    str_eq a.method b.method && str_eq a.path b.path && same_codes (body_text a) (body_text b)

-- the text that is hashed: `{"m":method,"p":path,"b":body}`
abbrev pub canonical_text : Request → List ℕ
canonical_text req =
    b'{'
    ∷ 34
    ∷ b'm'
    ∷ 34
    ∷ b':'
    ∷ (quoted req.method
        ++ b','
          ∷ 34
          ∷ b'p'
          ∷ 34
          ∷ b':'
          ∷ (quoted req.path ++ b',' ∷ 34 ∷ b'b' ∷ 34 ∷ b':' ∷ (body_text req ++ b'}' ∷ [])))

last_field :
    (v : Value)
    → field_texts (field "b" (args_or_null v) end)
      ≡ (34 ∷ b'b' ∷ 34 ∷ b':' ∷ stringify (args_or_null v)) ∷ []
unfolding stringify quoted escaped escape
last_field undefined = refl
last_field null = refl
last_field (bool b) = refl
last_field (num n) = refl
last_field (str s) = refl
last_field (arr vs) = refl
last_field (obj fs) = refl

stringify-request :
    (q : Request)
    → stringify (
        obj
          (field "m" (str q.method) (field "p" (str q.path) (field "b" (args_or_null q.body) end))))
      ≡ canonical_text q
unfolding stringify quoted escaped escape join
stringify-request q =
    ap
      (λ l.
        b'{'
        ∷ (join (
              (34 ∷ b'm' ∷ 34 ∷ b':' ∷ quoted q.method)
              ∷ (34 ∷ b'p' ∷ 34 ∷ b':' ∷ quoted q.path)
              ∷ l)
            ++ b'}' ∷ []))
      (last_field q.body)
    ∙ ap (λ l. b'{' ∷ 34 ∷ b'm' ∷ 34 ∷ b':' ∷ l)
        (append_assoc (quoted q.method) _ (b'}' ∷ [])
          ∙ ap (λ l. quoted q.method ++ b',' ∷ 34 ∷ b'p' ∷ 34 ∷ b':' ∷ l)
              (append_assoc (quoted q.path) _ (b'}' ∷ [])))

idem_fingerprint_lem :
    (sha256 : List ℕ → String) (q : Request) → idem_fingerprint sha256 q ≡ sha256 (canonical_text q)
unfolding idem_fingerprint
idem_fingerprint_lem sha256 q = ap sha256 (stringify-request q)

abbrev behind : List ℕ → List ℕ
behind [] = []
behind (x ∷ xs) = xs

abbrev behind_name : List ℕ → List ℕ
behind_name l = behind (behind (behind (behind (behind l))))

-- one text is that of one method, one path and one body
canonical_text_lem :
    (a b : Request)
    → canonical_text a ≡ canonical_text b
    → (a.method ≡ b.method) × (a.path ≡ b.path) × (body_text a ≡ body_text b)
canonical_text_lem a b h =
    let (method, h1) = quoted_lem a.method b.method _ _ (ap behind_name h) in
    let (path, h2) = quoted_lem a.path b.path _ _ (ap behind_name h1) in
    (method, path, append_cancel_right (body_text a) (body_text b) _ (ap behind_name h2))

same_codes_lem : (xs ys : List ℕ) → same_codes xs ys ≡ true → xs ≡ ys
same_codes_lem [] [] h = refl
same_codes_lem [] (y ∷ ys) h = cc
same_codes_lem (x ∷ xs) [] h = cc
same_codes_lem (x ∷ xs) (y ∷ ys) h = ground (arith, same_codes_lem xs ys)

same_codes-itself : (xs : List ℕ) → same_codes xs xs ≡ true
same_codes-itself [] = refl
same_codes-itself (x ∷ xs) = ground (arith, same_codes-itself xs)

canonical_text-same_request :
    (a b : Request) → same_request a b ≡ true → canonical_text a ≡ canonical_text b
canonical_text-same_request a b h = ground (
  arith,
  eq_iff a.method b.method,
  eq_iff a.path b.path,
  same_codes_lem (body_text a) (body_text b),
)

same_request-canonical_text :
    (a b : Request) → canonical_text a ≡ canonical_text b → same_request a b ≡ true
same_request-canonical_text a b h =
    let (method, path, body) = canonical_text_lem a b h in
    rw (method, path, body)
      (ground
        (arith, eq_iff b.method b.method, eq_iff b.path b.path, same_codes-itself (body_text b)))

-- Where the hash tells the two texts apart, the fingerprints are equal if the requests are the same.
pub same_fingerprint :
    (sha256 : List ℕ → String) (a b : Request)
    → (sha256 (canonical_text a) ≡ sha256 (canonical_text b) → canonical_text a ≡ canonical_text b)
    → str_eq (idem_fingerprint sha256 a) (idem_fingerprint sha256 b) ≡ same_request a b
same_fingerprint sha256 a b apart =
    rw (idem_fingerprint_lem sha256 a, idem_fingerprint_lem sha256 b)
      (elim (Bool-cases (same_request a b)) [
        | inl same ↦
            (eq_iff (sha256 (canonical_text a)) (sha256 (canonical_text b))).1
              (ap sha256 (canonical_text-same_request a b same))
            ∙ sym same
        | inr different ↦ ground (
          arith,
          eq_iff (sha256 (canonical_text a)) (sha256 (canonical_text b)),
          apart,
          same_request-canonical_text a b,
        )
      ])
