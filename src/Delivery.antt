-- ===== src/Delivery.antt =====
-- apps/api/src/bus.ts, deadLetters.ts: events, from the bus to its subscribers, and the dead letters
-- of those that fail. A subscriber is given by what its calls come to: an error or none, by the
-- number of calls before. The ids that `nextId` draws are a
-- parameter. The names of subscribers differ, as in `buildDeps`. The audit entry of a replay is in
-- the state of Cloud/Access, and left out here.
pub mod Fanout
use quorvel.Common.{
  ℕ, suc, ◌+◌, String, Bool, true, false, ◌&&◌, not, Option, none, some, List, [], ◌∷◌, ◌++◌, map,
  get_or, str_eq, leb, select, take, find, if◌then◌else◌,
}
use quorvel.Common.Dict.{Dict, lookup, insert, values}
use quorvel.Common.Sorting.{sort_by}
use quorvel.Cloud.Actions.{DomainEvent, EventKind}
use quorvel.Cloud.Errors.{ApiError, not_found}
use quorvel.Cloud.Text.{◌&◌}

pub record DeadLetterRecord : Type 0 where
  pub id : String
  pub org_id : String
  pub subscriber : String
  pub event_type : EventKind
  pub payload : DomainEvent
  pub attempts : ℕ
  pub error : String
  pub created_at : ℕ

-- `MemDeadLetterStore`
abbrev pub Rows : Type 0
Rows = Dict DeadLetterRecord

abbrev pub record_dead_letter : DeadLetterRecord → Rows → Rows
record_dead_letter r rows = insert r.id r rows

unfoldable pub list_dead_letters : String → Option ℕ → Rows → List DeadLetterRecord
list_dead_letters org limit rows = take (get_or limit 100) (
    sort_by (λ a b. leb b.created_at a.created_at)
      (select (λ r. str_eq r.org_id org) (values rows)))

abbrev pub of_org : String → Option DeadLetterRecord → Option DeadLetterRecord
of_org org none = none
of_org org (some r) = if str_eq r.org_id org then some r else none

abbrev pub get_dead_letter : String → String → Rows → Option DeadLetterRecord
get_dead_letter org id rows = of_org org (lookup id rows)

unfoldable pub remove_row : String → Rows → Rows
remove_row id [] = []
remove_row id ((j, r) ∷ rows) = if str_eq j id then rows else (j, r) ∷ remove_row id rows

unfoldable pub delete_dead_letter : String → String → Rows → Bool × Rows
unfolding remove_row
delete_dead_letter org id rows = elim (get_dead_letter org id rows) [
  | none ↦ (false, rows)
  | some r ↦ (true, remove_row id rows)
]

pub record NamedSubscriber : Type 0 where
  pub name : String
  pub handle : ℕ → DomainEvent → Option String

-- The dead letters, the ids drawn, and the calls of subscribers, the first one first.
pub record World : Type 0 where
  pub rows : Rows
  pub drawn : ℕ
  pub calls : ℕ
  pub deliveries : List (String × DomainEvent)

-- A subscriber on a bus: what it throws, and what it does.
abbrev pub Subscriber : Type 0
Subscriber = ℕ → DomainEvent → World → Option String × World

-- one call of a handler
abbrev pub called : NamedSubscriber → Subscriber
called s now e w = (
  s.handle w.calls e,
  record w { calls = suc w.calls; deliveries = w.deliveries ++ (s.name, e) ∷ [] },
)

-- an error that is thrown ends what follows
abbrev pub unless_thrown :
    (World → Option String × World) → Option String × World → Option String × World
unless_thrown next (none, w) = next w
unless_thrown next (some error, w) = (some error, w)

-- `InProcessBus.publish`: one subscriber after the other, up to the first that throws
unfoldable pub publish : List Subscriber → ℕ → DomainEvent → World → Option String × World
publish [] now e w = (none, w)
publish (s ∷ ss) now e w = unless_thrown (λ w1. publish ss now e w1) (s now e w)

module _ (next_id : ℕ → String) where
  abbrev pub dead_letter : ℕ → ℕ → DomainEvent → String → String → ℕ → DeadLetterRecord
  dead_letter drawn now e subscriber error attempts = record {
    id = next_id drawn;
    org_id = e.org_id;
    subscriber = subscriber;
    event_type = e.kind;
    payload = e;
    attempts = attempts;
    error = error;
    created_at = now;
  }

  -- `makeSink`
  abbrev pub sink : ℕ → DomainEvent → String → String → ℕ → World → World
  sink now e subscriber error attempts w = record w {
    rows = record_dead_letter (dead_letter w.drawn now e subscriber error attempts) w.rows;
    drawn = suc w.drawn;
  }

  abbrev pub caught : NamedSubscriber → ℕ → DomainEvent → Option String × World → World
  caught s now e (none, w) = w
  caught s now e (some error, w) = sink now e s.name error 1 w

  -- the wrapper that `resilient` puts around a subscriber
  abbrev pub shielded : NamedSubscriber → Subscriber
  shielded s now e w = (none, caught s now e (called s now e w))

  abbrev pub resilient : List NamedSubscriber → List Subscriber
  resilient named = map shielded named

  -- the in-process bus of `buildDeps`
  unfoldable pub publish_all :
      List NamedSubscriber → List (ℕ × DomainEvent) → World → Option String × World
  unfolding publish
  publish_all named [] w = (none, w)
  publish_all named ((now, e) ∷ es) w =
      unless_thrown (λ w1. publish_all named es w1) (publish (resilient named) now e w)

  -- `deadLetterReplay` of `buildDeps`
  unfoldable pub dead_letter_replay : List NamedSubscriber → DeadLetterRecord → Subscriber
  unfolding publish
  dead_letter_replay named rec now e w =
      if str_eq rec.subscriber "*"
      then publish (resilient named) now e w
      else elim (find (λ s. str_eq s.name rec.subscriber) named) [
        | none ↦ (some ("no subscriber named \"" & rec.subscriber & "\" to replay"), w)
        | some s ↦ called s now e w
      ]

-- What a replay comes to.
pub data Replayed : Type 0 where
  replayed : Replayed
  refused : ApiError → Replayed
  thrown : (error : String) → Replayed

module _ (next_id : ℕ → String) (named : List NamedSubscriber) where
  -- `replayDeadLetter` of the service: the row goes once the subscriber has taken the event
  unfoldable pub replay_dead_letter : ℕ → String → String → World → Replayed × World
  unfolding dead_letter_replay delete_dead_letter
  replay_dead_letter now org id w = elim (get_dead_letter org id w.rows) [
    | none ↦ (refused (not_found "dead letter not found"), w)
    | some rec ↦
        let (outcome, w1) = dead_letter_replay next_id named rec now rec.payload w in
        elim outcome [
          | some error ↦ (thrown error, w1)
          | none ↦ (replayed, record w1 { rows = (delete_dead_letter org id w1.rows).1 })
        ]
  ]
