-- ===== src/Cloud/Text.antt =====
-- The texts of apps/api/src: JavaScript's `trim`, `startsWith` with `slice`, and `slice(0, n)`.
use Prim.Native.Char.{Char, code}
use Prim.Native.String
use Prim.Native.String.append
use quorvel.Common.{
  ℕ, zero, suc, String, ◌≡◌, refl, ap, ◌∙◌, Bool, false, ◌&&◌, ◌||◌, Option, none, some, arith, leb,
  ◌==◌, if◌then◌else◌,
}

infixr 65 ◌&◌
abbrev pub ◌&◌ : String → String → String
a & b = String.◌++◌ a b

-- white space and line ends
unfoldable pub is_space : ℕ → Bool
is_space c =
    (leb 9 c && leb c 13)
    || c == 32
    || c == 160
    || c == 5760
    || (leb 8192 c && leb c 8202)
    || c == 8232
    || c == 8233
    || c == 8239
    || c == 8287
    || c == 12288
    || c == 65279

-- `s.trimStart()`
unfoldable pub trim_start : String → String
unfolding is_space
trim_start String.[] = String.[]
trim_start (String.◌∷◌ c s) =
    let rest = trim_start s in if is_space (code c) then rest else String.◌∷◌ c s

abbrev pub end_with : Char → String → String
end_with c String.[] = if is_space (code c) then String.[] else String.◌∷◌ c String.[]
end_with c (String.◌∷◌ d s) = String.◌∷◌ c (String.◌∷◌ d s)

-- `s.trimEnd()`
unfoldable pub trim_end : String → String
unfolding is_space
trim_end String.[] = String.[]
trim_end (String.◌∷◌ c s) = end_with c (trim_end s)

abbrev pub trim : String → String
trim s = trim_end (trim_start s)

-- `s.startsWith(prefix)` with `s.slice(prefix.length)`
unfoldable pub strip_prefix : String → String → Option String
strip_prefix String.[] s = some s
strip_prefix (String.◌∷◌ c p) String.[] = none
strip_prefix (String.◌∷◌ c p) (String.◌∷◌ d s) =
    let rest = strip_prefix p s in if code c == code d then rest else none

-- `s.slice(0, n)`
abbrev pub prefix_of : ℕ → String → String
prefix_of zero s = String.[]
prefix_of (suc n) String.[] = String.[]
prefix_of (suc n) (String.◌∷◌ c s) = String.◌∷◌ c (prefix_of n s)

-- No character of the text is white space.
abbrev pub IsUnspaced : String → Type 0
IsUnspaced String.[] = Unit
IsUnspaced (String.◌∷◌ c s) = (is_space (code c) ≡ false) × IsUnspaced s

trim_start-IsUnspaced : (s : String) → IsUnspaced s → trim_start s ≡ s
unfolding trim_start
trim_start-IsUnspaced String.[] h = refl
trim_start-IsUnspaced (String.◌∷◌ c s) (e, h) = rw e refl

end_with_lem : (c : Char) (s : String) → is_space (code c) ≡ false → end_with c s ≡ String.◌∷◌ c s
end_with_lem c String.[] h = rw h refl
end_with_lem c (String.◌∷◌ d s) h = refl

trim_end-IsUnspaced : (s : String) → IsUnspaced s → trim_end s ≡ s
unfolding trim_end
trim_end-IsUnspaced String.[] h = refl
trim_end-IsUnspaced (String.◌∷◌ c s) (e, h) = rw (trim_end-IsUnspaced s h) (end_with_lem c s e)

pub trim-IsUnspaced : (s : String) → IsUnspaced s → trim s ≡ s
trim-IsUnspaced s h = rw (trim_start-IsUnspaced s h) (trim_end-IsUnspaced s h)

pub strip_prefix_lem : (p s : String) → strip_prefix p (p & s) ≡ some s
unfolding strip_prefix
strip_prefix_lem String.[] s = ap some (append.nil s)
strip_prefix_lem (String.◌∷◌ c p) s =
    ap (strip_prefix (String.◌∷◌ c p)) (append.cons c p s) ∙ ground (arith, strip_prefix_lem p s)
