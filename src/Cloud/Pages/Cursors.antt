-- ===== src/Cloud/Pages/Cursors.antt =====
-- store.ts: a cursor that is encoded and decoded.
use Prim.Native.Char.{code}
use Prim.Native.String.append
use quorvel.Common.{ℕ, String, ◌≡◌, ◌∙◌, refl, ap, false, Option, some, arith, ◌==◌, str_eq}
use quorvel.Cloud.Text.{◌&◌}
use quorvel.Cloud.Pages.{ActionCursor, split_at_bar, encode_cursor, decode_cursor, parsed}

-- No character of the text is a bar.
abbrev pub IsBarless : String → Type 0
IsBarless String.[] = Unit
IsBarless (String.◌∷◌ c s) = ((code c == 124) ≡ false) × IsBarless s

split_at_bar_lem : (s t : String) → IsBarless s → split_at_bar (s & "|" & t) ≡ some (s, t)
unfolding split_at_bar
split_at_bar_lem String.[] t h =
    ap split_at_bar (append.nil ("|" & t))
    ∙ (ap split_at_bar (append.cons _ "" t) ∙ ground (arith, append.nil t))
split_at_bar_lem (String.◌∷◌ c s) t (e, h) =
    ap split_at_bar (append.cons c s ("|" & t)) ∙ rw (e, split_at_bar_lem s t h) refl

module _ (encode decode : String → String) (iso : ℕ → String) (parse : String → Option ℕ)
    (decodes : (s : String) → decode (encode s) ≡ s) (parses : (n : ℕ) → parse (iso n) ≡ some n)
    (barless : (n : ℕ) → IsBarless (iso n)) (nonempty : (n : ℕ) → str_eq (iso n) "" ≡ false) where
  -- Decoding the text of a cursor gives the cursor, whatever its key, bars included, provided that
  -- base64url and the text of a time can be read back, and that this text is not empty and has no bar.
  pub decode_cursor-encode_cursor :
      (c : ActionCursor)
      → decode_cursor encode decode iso parse (encode_cursor encode decode iso parse c) ≡ some c
  unfolding decode_cursor encode_cursor
  decode_cursor-encode_cursor c =
      rw
        (
          decode_cursor,
          encode_cursor,
          decodes (iso c.created_at & "|" & c.idempotency_key),
          parsed,
          split_at_bar_lem (iso c.created_at) c.idempotency_key (barless c.created_at),
          parses c.created_at,
          nonempty c.created_at,
        )
        refl
