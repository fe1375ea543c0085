-- ===== src/Idempotency/Order.antt =====
-- idempotency.ts, `canonicalize`: the text of an object does not depend on the order of its fields.
use quorvel.Common.{
  ℕ, ◌≡◌, ◌≢◌, refl, ap, ◌∙◌, String, true, false, Option, List, [], ◌∷◌, ◌++◌, arith,
}
use quorvel.Value.{Value, Fields, Items, str, obj, arr, end, field, nil, cons}
use quorvel.Idempotency.{
  codes, text_leb, Entry, insert_entry, sort_entries, canonicalize, canonical_fields,
  canonical_items, join, print_entries, idempotency_key, call_value,
}

pub text_leb_total : (x y : List ℕ) → text_leb x y ≡ false → text_leb y x ≡ true
unfolding text_leb
text_leb_total [] y h = cc
text_leb_total (a ∷ x) [] h = refl
text_leb_total (a ∷ x) (b ∷ y) h = ground (arith, text_leb_total x y)

pub text_leb_antisym : (x y : List ℕ) → text_leb x y ≡ true → text_leb y x ≡ true → x ≡ y
unfolding text_leb
text_leb_antisym [] [] h k = refl
text_leb_antisym [] (b ∷ y) h k = cc
text_leb_antisym (a ∷ x) [] h k = cc
text_leb_antisym (a ∷ x) (b ∷ y) h k = ground (arith, text_leb_antisym x y)

pub text_leb_trans :
    (x y z : List ℕ) → text_leb x y ≡ true → text_leb y z ≡ true → text_leb x z ≡ true
unfolding text_leb
text_leb_trans [] y z h k = refl
text_leb_trans (a ∷ x) [] z h k = cc
text_leb_trans (a ∷ x) (b ∷ y) [] h k = cc
text_leb_trans (a ∷ x) (b ∷ y) (c ∷ z) h k = ground (arith, text_leb_trans x y z)

-- Two insertions of entries with different keys may be made in either order.
insert_entry_comm :
    (d e : Entry) (l : List Entry)
    → codes d.0 ≢ codes e.0
    → insert_entry d (insert_entry e l) ≡ insert_entry e (insert_entry d l)
unfolding insert_entry
insert_entry_comm d e [] ne =
    ground (arith, text_leb_total (codes d.0) (codes e.0), text_leb_antisym (codes d.0) (codes e.0))
insert_entry_comm d e (f ∷ l) ne = ground (
  arith,
  text_leb_total (codes d.0) (codes e.0),
  text_leb_antisym (codes d.0) (codes e.0),
  text_leb_trans (codes d.0) (codes f.0) (codes e.0),
  text_leb_trans (codes e.0) (codes f.0) (codes d.0),
  text_leb_trans (codes d.0) (codes e.0) (codes f.0),
  text_leb_trans (codes e.0) (codes d.0) (codes f.0),
  text_leb_total (codes d.0) (codes f.0),
  text_leb_total (codes e.0) (codes f.0),
  insert_entry_comm d e l ne,
)

-- The same value but for the order of the fields of its objects, at any depth: neighbouring fields
-- with different names change places.
mutual
  pub data SameValue : Value → Value → Type 0 where
    itself : (v : Value) → SameValue v v
    objects : (f g : Fields) → SameFields f g → SameValue (obj f) (obj g)
    arrays : (x y : Items) → SameItems x y → SameValue (arr x) (arr y)

  pub data SameItems : Items → Items → Type 0 where
    no_items : SameItems nil nil
    items :
        (v w : Value) (x y : Items)
        → SameValue v w
        → SameItems x y
        → SameItems (cons v x) (cons w y)

  pub data SameFields : Fields → Fields → Type 0 where
    no_fields : SameFields end end
    fields :
        (k : String) (v w : Value) (f g : Fields)
        → SameValue v w
        → SameFields f g
        → SameFields (field k v f) (field k w g)
    swapped :
        (j k : String) (v w : Value) (f : Fields)
        → codes j ≢ codes k
        → SameFields (field j v (field k w f)) (field k w (field j v f))
    chained : (f g h : Fields) → SameFields f g → SameFields g h → SameFields f h

mutual
  unfolding canonicalize sort_entries

  same_text : (v w : Value) → SameValue v w → canonicalize v ≡ canonicalize w
  same_text v w (itself x) = refl
  same_text v w (objects f g s) =
      ap (λ es. 123 ∷ (join (print_entries es) ++ 125 ∷ [])) (same_entries f g s)
  same_text v w (arrays x y s) = ap (λ ts. 91 ∷ (join ts ++ 93 ∷ [])) (same_texts x y s)

  same_texts : (x y : Items) → SameItems x y → canonical_items x ≡ canonical_items y
  same_texts x y no_items = refl
  same_texts x y (items v w a b s t) = cc (same_text v w s, same_texts a b t)

  same_entries :
      (f g : Fields)
      → SameFields f g
      → sort_entries (canonical_fields f) ≡ sort_entries (canonical_fields g)
  same_entries f g no_fields = refl
  same_entries f g (fields k v w a b s t) =
      ap (λ x. insert_entry (k, x) (sort_entries (canonical_fields a))) (same_text v w s)
      ∙ ap (insert_entry (k, canonicalize w)) (same_entries a b t)
  same_entries f g (swapped j k v w a ne) =
      insert_entry_comm (j, canonicalize v) (k, canonicalize w) (sort_entries (canonical_fields a))
        ne
  same_entries f g (chained x y z r s) = same_entries x y r ∙ same_entries y z s

-- Two calls of one tool in one scope whose arguments differ only in the order of the fields of
-- objects, at any depth, have the same key, whatever the hash.
pub idempotency_key-SameValue :
    (sha256 : List ℕ → String) (tool : String) (scope : Option String) (v w : Value)
    → SameValue v w
    → idempotency_key sha256 tool v scope ≡ idempotency_key sha256 tool w scope
unfolding idempotency_key
idempotency_key-SameValue sha256 tool scope v w s =
    let args = fields "args" v w _ _ s (fields "scope" _ _ end end (itself _) no_fields) in
    ap sha256 (
      same_text (call_value tool v scope) (call_value tool w scope)
        (objects _ _ (fields "tool" _ _ _ _ (itself (str tool)) args)))
