-- ===== src/Cloud/Lifecycle/Paths.antt =====
-- events.ts: lists of events that lead, by legal transitions, to a status.
use quorvel.Common.{
  String, ◌≡◌, ◌∙◌, refl, sym, Bool, true, false, ◌&&◌, not, Option, none, some, List, [], ◌∷◌,
  arith, str_eq, select, or_else,
}
use quorvel.Ledger.{ActionStatus, pending}
use quorvel.Ledger.InMemory.{eq_status}
use quorvel.Cloud.Actions.{StoredAction, get_action, DomainEvent, EventKind, created, transitioned}
use quorvel.Cloud.Lifecycle.{may_become, Cloud}

-- The events of one action, the latest first.
abbrev pub timeline : String → String → List DomainEvent → List DomainEvent
timeline o k es = select (λ e. str_eq e.org_id o && str_eq e.idempotency_key k) es

abbrev is_creation : EventKind → Bool
is_creation created = true
is_creation transitioned = false

-- The events lead from a creation, by transitions that are legal, to the status.
abbrev pub is_path : ActionStatus → List DomainEvent → Bool
is_path s [] = false
is_path s (e ∷ []) = is_creation e.kind && eq_status e.status pending && eq_status s pending
is_path s (e ∷ f ∷ es) =
    not (is_creation e.kind)
    && eq_status e.status s
    && may_become f.status s
    && is_path f.status (f ∷ es)

-- An action that is not there has no events; one that is there has events that lead to its status.
abbrev pub is_told : Option StoredAction → List DomainEvent → Bool
is_told none [] = true
is_told none (e ∷ es) = false
is_told (some r) es = is_path r.action.status es

abbrev pub IsTold : String → String → Cloud → Type 0
IsTold o k w = is_told (get_action o k w.actions) (timeline o k w.published) ≡ true

eq_status_refl : (s : ActionStatus) → eq_status s s ≡ true
eq_status_refl s = ground arith

eq_status_lem : (s t : ActionStatus) → eq_status s t ≡ true → s ≡ t
eq_status_lem s t h = ground arith

is_path-head :
    (s : ActionStatus) (e : DomainEvent) (es : List DomainEvent)
    → is_path s (e ∷ es) ≡ true
    → e.status ≡ s
is_path-head s e [] h =
    eq_status_lem e.status pending (ground arith) ∙ sym (eq_status_lem s pending (ground arith))
is_path-head s e (f ∷ es) h = eq_status_lem e.status s (ground arith)

pub is_path-extend :
    (s : ActionStatus) (e : DomainEvent) (es : List DomainEvent)
    → is_path s es ≡ true
    → may_become s e.status ≡ true
    → e.kind ≡ transitioned
    → is_path e.status (e ∷ es) ≡ true
is_path-extend s e [] h m kind = ground arith
is_path-extend s e (f ∷ es) h m kind =
    let same = is_path-head s f es h in rw kind (ground (arith, same, eq_status_refl e.status))

pub untold : (es : List DomainEvent) → is_told none es ≡ true → es ≡ []
untold [] h = refl
untold (e ∷ es) h = cc

pub or_none :
    (r : Option StoredAction) (es : List DomainEvent)
    → is_told r es ≡ true
    → is_told (or_else r none) es ≡ true
or_none none es h = h
or_none (some r) es h = h
