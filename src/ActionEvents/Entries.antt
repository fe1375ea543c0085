-- ===== src/ActionEvents/Entries.antt =====
-- actionEvents.ts: what the log has of the events that reach it, and its order.
use mathlib.Core.List.{reverse-cons}
use quorvel.Common.{
  ◌<◌, All, reverse, append-nil, append_assoc, ◌++◌, sym, none, ℕ, suc, ◌≡◌, ◌∙◌, ap, refl, Bool,
  List, [], ◌∷◌, arith, select,
}
use quorvel.Common.Sorting.{insert_by, sort_by, All-sort_by}
use quorvel.Cloud.Actions.{DomainEvent}
use quorvel.ActionEvents.{ActionEvent, Log, newer, append, sink_event}

-- What is logged of the events of a history, that are numbered from a number on.
abbrev pub entries : ℕ → List (ℕ × DomainEvent) → List ActionEvent
entries n [] = []
entries n ((now, e) ∷ history) =
    record {
      id = n;
      org_id = e.org_id;
      idempotency_key = e.idempotency_key;
      type = e.kind;
      status = e.status;
      attempt = 0;
      reason = e.reason;
      error = none;
      at = e.at;
    }
    ∷ entries (suc n) history

-- the events of a history on the bus reach the log
abbrev pub sink_all : List (ℕ × DomainEvent) → Log → Log
sink_all [] log = log
sink_all ((now, e) ∷ history) log = sink_all history (sink_event now e log)

abbrev pub empty_log : Log
empty_log = record { seq = 0; events = [] }

-- the ids go up
abbrev pub Rises : List ActionEvent → Type 0
Rises [] = Unit
Rises (e ∷ es) = All (λ x. e.id < x.id) es × Rises es

All-select :
    (p : ActionEvent → Bool) (n : ℕ) (es : List ActionEvent)
    → All (λ x. n < x.id) es
    → All (λ x. n < x.id) (select p es)
All-select p n [] h = tt
All-select p n (e ∷ es) h = ground (arith, All-select p n es h.1)

pub select-Rises : (p : ActionEvent → Bool) (es : List ActionEvent) → Rises es → Rises (select p es)
select-Rises p [] h = tt
select-Rises p (e ∷ es) h = ground (arith, select-Rises p es h.1, All-select p e.id es h.0)

insert_by-last :
    (e : ActionEvent) (es : List ActionEvent)
    → All (λ x. e.id < x.id) es
    → insert_by newer e es ≡ es ++ e ∷ []
unfolding insert_by
insert_by-last e [] h = refl
insert_by-last e (x ∷ es) h = ground (arith, insert_by-last e es h.1)

-- sorting what was logged in order turns it round
pub sort_by-reverse : (es : List ActionEvent) → Rises es → sort_by newer es ≡ reverse es
unfolding sort_by
sort_by-reverse [] h = refl
sort_by-reverse (e ∷ es) h =
    insert_by-last e (sort_by newer es) (All-sort_by newer (λ x. e.id < x.id) es h.0)
    ∙ ap (λ l. l ++ e ∷ []) (sort_by-reverse es h.1)
    ∙ sym (reverse-cons e es)

All-entries :
    (m n : ℕ) (history : List (ℕ × DomainEvent)) → m < n → All (λ x. m < x.id) (entries n history)
All-entries m n [] h = tt
All-entries m n (e ∷ history) h = (h, All-entries m (suc n) history (omega (arith, h)))

pub entries-Rises : (n : ℕ) (history : List (ℕ × DomainEvent)) → Rises (entries n history)
entries-Rises n [] = tt
entries-Rises n (e ∷ history) =
    (All-entries n (suc n) history (omega arith), entries-Rises (suc n) history)

pub sink_all-entries :
    (history : List (ℕ × DomainEvent)) (log : Log)
    → (sink_all history log).events ≡ log.events ++ entries (suc log.seq) history
unfolding sink_event append
sink_all-entries [] log = sym (append-nil log.events)
sink_all-entries ((now, e) ∷ history) log =
    sink_all-entries history (sink_event now e log)
    ∙ append_assoc log.events _ (entries (suc (suc log.seq)) history)
