-- ===== src/Tests/Events.antt =====
-- bus.ts, deadLetters.ts, store.ts: events with a subscriber that fails, and a listing in pages.
use Prim.Native.Char.{code}
use quorvel.Common.{
  ◌&&◌, not, ◌+◌, false, ℕ, zero, suc, String, ◌≡◌, ◌≢◌, inl, inr, ap, refl, Bool-cases, eq_iff,
  Bool, false, Option, none, some, List, [], ◌∷◌, map, arith, leb, str_eq, ◌==◌, if◌then◌else◌,
}
use quorvel.Idempotency.{text_leb}
use quorvel.Common.Sorting.{sort_by}
use quorvel.Common.Dict.{values, lookup}
use quorvel.Value.{null}
use quorvel.Ledger.{ActionStatus}
use quorvel.Cloud.Actions.{StoredAction, Actions, DomainEvent, EventKind, to_record}
use quorvel.Cloud.Pages.{
  ActionCursor, code_units, newest_first, page_actions, encode_cursor, decode_cursor,
}
use quorvel.Cloud.Pages.Cursors.{IsBarless, decode_cursor-encode_cursor}
use quorvel.Cloud.Pages.Walk.{walk}
use quorvel.Cloud.Pages.Listing.{IsHex, IsCollation, walk-page_actions}
use quorvel.Delivery.{NamedSubscriber, World, publish_all}
use quorvel.Delivery.Fanout.{IsFresh, publish_all-delivers}

-- the n-th id is n strokes
abbrev strokes : ℕ → String
strokes zero = ""
strokes (suc n) = String.◌∷◌ "i" (strokes n)

abbrev meter : NamedSubscriber
meter = record { name = "usage-meter"; handle = λ n e. none }

abbrev alerts : NamedSubscriber
alerts = record { name = "alerts"; handle = λ n e. if n == 1 then some "slack is down" else none }

abbrev pub event : String → DomainEvent
event key = record {
  kind = EventKind.created;
  org_id = "acme";
  idempotency_key = key;
  tool = "mail";
  scope = none;
  cost = 1;
  status = ActionStatus.pending;
  reason = none;
  at = 5;
}

abbrev quiet : World
quiet = record { rows = []; drawn = 0; calls = 0; deliveries = [] }

abbrev created : List (ℕ × DomainEvent)
created = (6, event "k1") ∷ (7, event "k2") ∷ []

abbrev size : String → ℕ
size String.[] = 0
size (String.◌∷◌ c s) = suc (size s)

size-strokes : (n : ℕ) → size (strokes n) ≡ n
size-strokes zero = refl
size-strokes (suc n) = ap suc (size-strokes n)

differ : (a b : String) → size a ≢ size b → str_eq a b ≡ false
differ a b n = elim (Bool-cases (str_eq a b)) [
  | inr e ↦ e
  | inl e ↦ let bad : ⊥ = n (ap size ((eq_iff a b).0 e)) in elim bad [ ]
]

strokes-IsFresh : IsFresh strokes 0 []
unfolding lookup
strokes-IsFresh = record {
  distinct = λ i j h.
      differ (strokes i) (strokes j) (λ e. omega (arith, h, e, size-strokes i, size-strokes j));
  unused = λ i h. refl;
}

publish_all-delivers_example :
    let (thrown, w) = publish_all strokes (meter ∷ alerts ∷ []) created quiet in
    (thrown ≡ none)
    × (w.deliveries
        ≡ ("usage-meter", event "k1")
          ∷ ("alerts", event "k1")
          ∷ ("usage-meter", event "k2")
          ∷ ("alerts", event "k2")
          ∷ [])
    × (values w.rows
        ≡ record {
          id = "";
          org_id = "acme";
          subscriber = "alerts";
          event_type = EventKind.created;
          payload = event "k1";
          attempts = 1;
          error = "slack is down";
          created_at = 6;
        }
          ∷ [])
unfolding values
publish_all-delivers_example =
    publish_all-delivers strokes (meter ∷ alerts ∷ []) created quiet strokes-IsFresh

-- a comparison that does not tell capital letters from small ones, as `precedes` does
abbrev folded_code : ℕ → ℕ
folded_code c = if leb 65 c && leb c 90 then c + 32 else c

abbrev folded : String → List ℕ
folded String.[] = []
folded (String.◌∷◌ c s) = folded_code (code c) ∷ folded s

abbrev by_folded : String → String → Bool
by_folded a b = text_leb (folded a) (folded b)

folded-hex : (s : String) → IsHex s → folded s ≡ code_units s
folded-hex String.[] h = refl
folded-hex (String.◌∷◌ c s) h = ground (arith, h.0, folded-hex s h.1)

not-not : (b : Bool) → b ≡ not (not b)
not-not b = ground arith

by_folded-IsCollation : IsCollation by_folded
by_folded-IsCollation a b p q =
    rw (folded-hex a p, folded-hex b q) (not-not (text_leb (code_units a) (code_units b)))

abbrev action : String → ℕ → StoredAction
action key created_at = record {
  org_id = "acme";
  action = record {
    idempotency_key = key;
    scope = none;
    tool = "mail";
    args = null;
    cost = 1;
    status = ActionStatus.pending;
    result = none;
    error = none;
    reason = none;
    attempts = 0;
    created_at = created_at;
  };
  updated_at = created_at;
}

abbrev table : Actions
table = action "b" 3 ∷ action "a" 3 ∷ action "c" 4 ∷ []

-- a time as strokes with a dot behind them, and back
abbrev unary : ℕ → String
unary zero = "."
unary (suc n) = String.◌∷◌ "i" (unary n)

abbrev counted : String → Option ℕ
counted String.[] = none
counted (String.◌∷◌ c s) =
    if code c == 46 then some 0 else elim (counted s) [ none ↦ none | some n ↦ some (suc n) ]

counted-unary : (n : ℕ) → counted (unary n) ≡ some n
counted-unary zero = refl
counted-unary (suc n) = rw (counted-unary n) refl

unary-IsBarless : (n : ℕ) → IsBarless (unary n)
unary-IsBarless zero = (refl, tt)
unary-IsBarless (suc n) = (refl, unary-IsBarless n)

size-unary : (n : ℕ) → size (unary n) ≡ suc n
size-unary zero = refl
size-unary (suc n) = ap suc (size-unary n)

abbrev as_is : String → String
as_is s = s

decode_cursor-encode_cursor_example :
    decode_cursor as_is as_is unary counted
      (encode_cursor as_is as_is unary counted (record { created_at = 2; idempotency_key = "a|b" }))
    ≡ some (record { created_at = 2; idempotency_key = "a|b" })
decode_cursor-encode_cursor_example =
    decode_cursor-encode_cursor as_is as_is unary counted (λ s. refl) counted-unary unary-IsBarless
      (λ n. differ (unary n) "" (λ e. omega (arith, e, size-unary n)))
      (record { created_at = 2; idempotency_key = "a|b" })

abbrev to_text : ActionCursor → String
to_text = encode_cursor as_is as_is unary counted

abbrev from_text : String → Option ActionCursor
from_text = decode_cursor as_is as_is unary counted

to_text-from_text : (c : ActionCursor) → from_text (to_text c) ≡ some c
to_text-from_text =
    decode_cursor-encode_cursor as_is as_is unary counted (λ s. refl) counted-unary unary-IsBarless
      (λ n. differ (unary n) "" (λ e. omega (arith, e, size-unary n)))

walk-page_actions_example :
    walk from_text (λ c. page_actions by_folded to_text "acme" none (some 2) c table) 4 none
    ≡ map to_record (sort_by (newest_first by_folded) table)
unfolding text_leb
walk-page_actions_example =
    walk-page_actions by_folded by_folded-IsCollation to_text from_text "acme" none (some 2) 4 table
      to_text-from_text ((refl, tt), ((refl, tt), ((refl, tt), tt)))
      ((refl, (refl, tt)), ((refl, tt), (tt, tt))) (omega arith)
