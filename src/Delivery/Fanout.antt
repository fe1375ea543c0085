-- ===== src/Delivery/Fanout.antt =====
-- bus.ts, deadLetters.ts: what publishing events on the in-process bus does.
use quorvel.Common.{
  ℕ, suc, ◌≤◌, ◌<◌, String, ◌≡◌, ◌∙◌, refl, ap, sym, false, Option, none, some, List, [], ◌∷◌, ◌++◌,
  append-nil, append_assoc, arith, str_eq, Option-cases, inl, inr,
}
use quorvel.Common.Dict.{lookup, insert, values, lookup-insert}
use quorvel.Cloud.Actions.{DomainEvent}
use quorvel.Delivery.{
  DeadLetterRecord, Rows, NamedSubscriber, World, called, publish, dead_letter, sink, caught,
  shielded, resilient, unless_thrown, publish_all,
}

-- one delivery that is due
abbrev pub Due : Type 0
Due = NamedSubscriber × ℕ × DomainEvent

abbrev pub due_of : List NamedSubscriber → ℕ → DomainEvent → List Due
due_of [] now e = []
due_of (s ∷ ss) now e = (s, now, e) ∷ due_of ss now e

-- Every event to every subscriber, in the order of the events, and for each in that of the
-- subscribers.
abbrev pub due_all : List NamedSubscriber → List (ℕ × DomainEvent) → List Due
due_all named [] = []
due_all named ((now, e) ∷ es) = due_of named now e ++ due_all named es

abbrev pub delivered : List Due → List (String × DomainEvent)
delivered [] = []
delivered ((s, now, e) ∷ ds) = (s.name, e) ∷ delivered ds

module _ (next_id : ℕ → String) where
  -- The dead letters of the deliveries that fail, by the number of calls and of ids before.
  abbrev pub failures : ℕ → ℕ → List Due → List DeadLetterRecord
  failures calls drawn [] = []
  failures calls drawn ((s, now, e) ∷ ds) = elim (s.handle calls e) [
    | none ↦ failures (suc calls) drawn ds
    | some error ↦
        dead_letter next_id drawn now e s.name error 1 ∷ failures (suc calls) (suc drawn) ds
  ]

  -- the deliveries one after the other
  abbrev deliver : List Due → World → World
  deliver [] w = w
  deliver ((s, now, e) ∷ ds) w = deliver ds (shielded next_id s now e w).1

  deliver-append : (ds es : List Due) (w : World) → deliver (ds ++ es) w ≡ deliver es (deliver ds w)
  deliver-append [] es w = refl
  deliver-append ((s, now, e) ∷ ds) es w = deliver-append ds es (shielded next_id s now e w).1

  publish-resilient :
      (named : List NamedSubscriber) (now : ℕ) (e : DomainEvent) (w : World)
      → publish (resilient next_id named) now e w ≡ (none, deliver (due_of named now e) w)
  unfolding publish
  publish-resilient [] now e w = refl
  publish-resilient (s ∷ ss) now e w = publish-resilient ss now e (shielded next_id s now e w).1

  publish_all-deliver :
      (named : List NamedSubscriber) (es : List (ℕ × DomainEvent)) (w : World)
      → publish_all next_id named es w ≡ (none, deliver (due_all named es) w)
  unfolding publish_all
  publish_all-deliver named [] w = refl
  publish_all-deliver named ((now, e) ∷ es) w =
      ap (unless_thrown (λ w1. publish_all next_id named es w1)) (publish-resilient named now e w)
      ∙ publish_all-deliver named es (deliver (due_of named now e) w)
      ∙ ap (λ x. (none, x)) (sym (deliver-append (due_of named now e) (due_all named es) w))

values-insert :
    (k : String) (v : DeadLetterRecord) (m : Rows)
    → lookup k m ≡ none
    → values (insert k v m) ≡ values m ++ v ∷ []
unfolding values insert lookup
values-insert k v [] h = refl
values-insert k v (entry ∷ m) h = ground (arith, values-insert k v m, h)

-- The ids that are still to be drawn differ from each other and from those of the rows.
pub record IsFresh (next_id : ℕ → String) (drawn : ℕ) (rows : Rows) : Type 0 where
  pub distinct : (i j : ℕ) → i < j → str_eq (next_id i) (next_id j) ≡ false
  pub unused : (i : ℕ) → drawn ≤ i → lookup (next_id i) rows ≡ none

module _ (next_id : ℕ → String) where
  sink-IsFresh :
      (now : ℕ) (e : DomainEvent) (s error : String) (w : World)
      → IsFresh next_id w.drawn w.rows
      → IsFresh next_id (suc w.drawn) (sink next_id now e s error 1 w).rows
  sink-IsFresh now e s error w f = record {
    distinct = f.distinct;
    unused = λ i h.
        lookup-insert (next_id w.drawn) (next_id i) (dead_letter next_id w.drawn now e s error 1)
          w.rows
        ∙ rw (f.distinct w.drawn i (omega (arith, h))) (f.unused i (omega (arith, h)));
  }

  caught-deliveries :
      (s : NamedSubscriber) (now : ℕ) (e : DomainEvent) (x : Option String × World)
      → (caught next_id s now e x).deliveries ≡ x.1.deliveries
  caught-deliveries s now e (none, w) = refl
  caught-deliveries s now e (some error, w) = refl

  deliver-deliveries :
      (ds : List Due) (w : World) → (deliver next_id ds w).deliveries ≡ w.deliveries ++ delivered ds
  deliver-deliveries [] w = sym (append-nil w.deliveries)
  deliver-deliveries ((s, now, e) ∷ ds) w =
      deliver-deliveries ds (shielded next_id s now e w).1
      ∙ ap (λ l. l ++ delivered ds) (caught-deliveries s now e (called s now e w))
      ∙ append_assoc w.deliveries ((s.name, e) ∷ []) (delivered ds)

  deliver-rows :
      (ds : List Due) (w : World)
      → IsFresh next_id w.drawn w.rows
      → values (deliver next_id ds w).rows ≡ values w.rows ++ failures next_id w.calls w.drawn ds
  deliver-rows [] w f = sym (append-nil (values w.rows))
  deliver-rows ((s, now, e) ∷ ds) w f =
      let w1 = (called s now e w).1 in
      elim (Option-cases (s.handle w.calls e)) [
        | inl h ↦ rw (deliver, h) (deliver-rows ds w1 f)
        | inr (error, h) ↦
            let r = dead_letter next_id w.drawn now e s.name error 1 in
            let row : values (insert r.id r w.rows) ≡ values w.rows ++ r ∷ [] =
              values-insert r.id r w.rows (f.unused w.drawn (omega arith)) in
            rw (deliver, h)
              (deliver-rows ds (sink next_id now e s.name error 1 w1)
                  (sink-IsFresh now e s.name error w f)
                ∙ ap (λ l. l ++ failures next_id (suc w.calls) (suc w.drawn) ds) row
                ∙ append_assoc (values w.rows) (r ∷ [])
                    (failures next_id (suc w.calls) (suc w.drawn) ds))
      ]

  -- On the in-process bus no publication throws, whatever the subscribers do: each event reaches
  -- every subscriber once, in the order of the events and for each in that of the subscribers, and
  -- the dead letters that are added are those of the calls that failed, one for each, in their order;
  -- provided that the ids drawn for them differ from each other and from those of the rows that are
  -- there.
  pub publish_all-delivers :
      (named : List NamedSubscriber) (es : List (ℕ × DomainEvent)) (w : World)
      → IsFresh next_id w.drawn w.rows
      → let (thrown, w') = publish_all next_id named es w in
        (thrown ≡ none)
        × (w'.deliveries ≡ w.deliveries ++ delivered (due_all named es))
        × (values w'.rows ≡ values w.rows ++ failures next_id w.calls w.drawn (due_all named es))
  publish_all-delivers named es w f =
      rw (publish_all-deliver next_id named es w)
        (refl, deliver-deliveries (due_all named es) w, deliver-rows (due_all named es) w f)
