-- ===== src/Tests/Keys.antt =====
-- idempotency.ts: the key of a call whose arguments stand in another order.
use quorvel.Common.{String, ◌≡◌, ◌≢◌, refl, ap, arith, none, List, ℕ, [], ◌∷◌, length}
use quorvel.Common.Decimal.{decimal}
use quorvel.Value.{Value, num, obj, field, end}
use quorvel.Idempotency.{
  idempotency_key, codes, canonicalize, canonical_fields, sort_entries, insert_entry, text_leb,
  print_entries, join, quoted, escaped, escape,
}
use quorvel.Idempotency.Order.{objects, swapped, idempotency_key-SameValue}

abbrev one : Value
one = obj (field "b" (num 2) (field "a" (num 1) end))

abbrev other : Value
other = obj (field "a" (num 1) (field "b" (num 2) end))

one_text : canonicalize one ≡ codes "{\"a\":1,\"b\":2}"
unfolding canonicalize canonical_fields sort_entries insert_entry text_leb print_entries join quoted
    escaped escape decimal
one_text = refl

abbrev first : List ℕ → ℕ
first [] = 0
first (c ∷ cs) = c

names_differ : codes "b" ≢ codes "a"
names_differ h = omega (arith, ap first h)

abbrev length_of : List ℕ → String
length_of text = decimal (length text)

idempotency_key-SameValue_example :
    idempotency_key length_of "charge" one none ≡ idempotency_key length_of "charge" other none
idempotency_key-SameValue_example =
    idempotency_key-SameValue length_of "charge" none one other
      (objects _ _ (swapped "b" "a" (num 2) (num 1) end names_differ))
