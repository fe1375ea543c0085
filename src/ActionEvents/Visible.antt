-- ===== src/ActionEvents/Visible.antt =====
-- service.ts, `listEvents`: what an organisation sees of the log under its plan.
use quorvel.Common.{
  ◌+◌, ◌||◌, reverse, true, none, if◌then◌else◌, ℕ, String, ◌≡◌, ◌∙◌, ap, refl, Bool, ◌&&◌, Option,
  some, List, [], ◌∷◌, arith, str_eq, leb, select, take, get_or,
}
use quorvel.Common.Sorting.{sort_by}
use quorvel.Ledger.{ActionStatus}
use quorvel.Ledger.InMemory.{eq_status}
use quorvel.Cloud.Actions.{DomainEvent}
use quorvel.ActionEvents.Entries.{
  entries, sink_all, empty_log, select-Rises, sort_by-reverse, entries-Rises, sink_all-entries,
}
use quorvel.ActionEvents.{
  ActionEvent, ListEventsFilter, newer, passes_key, passes_status, passes_since, list_recent_events,
  retention_days, retention_floor, clamp_since, list_events,
}

-- the milliseconds for which a plan keeps an event: 30 days, 365 or 7
abbrev pub kept : String → ℕ
kept plan =
    if str_eq plan "pro" then 2592000000 else if str_eq plan "scale" then 31536000000 else 604800000

-- The event is the organisation's, has the key, the status and the earliest time that the filter asks
-- for, if it does, and the plan has not outlived it. An empty key asks for nothing.
abbrev pub is_visible : ℕ → String → String → ListEventsFilter → ActionEvent → Bool
is_visible now plan org filter e =
    str_eq e.org_id org
    && elim filter.idempotency_key [
      | none ↦ true
      | some k ↦ str_eq k "" || str_eq e.idempotency_key k
    ]
    && elim filter.status [ none ↦ true | some s ↦ eq_status e.status s ]
    && elim filter.since [ none ↦ true | some t ↦ leb t e.at ]
    && leb now (e.at + kept plan)

-- the same test, as the code makes it
abbrev passes : ℕ → String → String → ListEventsFilter → ActionEvent → Bool
passes now plan org filter e =
    str_eq e.org_id org
    && passes_key filter.idempotency_key e
    && passes_status filter.status e
    && passes_since filter.since e
    && leb (retention_floor now (retention_days plan)) e.at

module _ {A : Type 0} where
  select-select :
      (p q : A → Bool) (xs : List A) → select p (select q xs) ≡ select (λ x. q x && p x) xs
  select-select p q [] = refl
  select-select p q (x ∷ xs) = ground (arith, select-select p q xs)

  select-ext : (p q : A → Bool) (xs : List A) → ((x : A) → p x ≡ q x) → select p xs ≡ select q xs
  select-ext p q [] h = refl
  select-ext p q (x ∷ xs) h = rw (h x, select-ext p q xs h) refl

same_parts : (a b c d e : Bool) → ((a && b) && c) && (d && e) ≡ a && b && c && d && e
same_parts a b c d e = ground arith

module _ (now : ℕ) (plan org : String) (filter : ListEventsFilter) where
  abbrev since_floor : Option ℕ
  since_floor = some (clamp_since filter.since (retention_floor now (retention_days plan)))

  -- the four filters, one after the other
  abbrev filtered : List ActionEvent → List ActionEvent
  filtered es = select (passes_since since_floor) (
      select (passes_status filter.status)
        (select (passes_key filter.idempotency_key) (select (λ e. str_eq e.org_id org) es)))

  clamped :
      (e : ActionEvent)
      → passes_since since_floor e
        ≡ passes_since filter.since e && leb (retention_floor now (retention_days plan)) e.at
  clamped e = ground arith

  same_tests :
      (e : ActionEvent)
      → ((str_eq e.org_id org && passes_key filter.idempotency_key e)
            && passes_status filter.status e)
          && passes_since since_floor e
        ≡ passes now plan org filter e
  same_tests e = rw (clamped e) (
      same_parts (str_eq e.org_id org) (passes_key filter.idempotency_key e)
        (passes_status filter.status e) (passes_since filter.since e)
        (leb (retention_floor now (retention_days plan)) e.at))

  plan_lem :
      (e : ActionEvent)
      → leb (retention_floor now (retention_days plan)) e.at ≡ leb now (e.at + kept plan)
  unfolding retention_floor retention_days
  plan_lem e = ground arith

  key_lem :
      (key : Option String) (e : ActionEvent)
      → passes_key key e
        ≡ elim key [ none ↦ true | some k ↦ str_eq k "" || str_eq e.idempotency_key k ]
  key_lem none e = refl
  key_lem (some k) e = ground arith

  status_lem :
      (status : Option ActionStatus) (e : ActionEvent)
      → passes_status status e ≡ elim status [ none ↦ true | some s ↦ eq_status e.status s ]
  status_lem none e = refl
  status_lem (some s) e = refl

  since_lem :
      (since : Option ℕ) (e : ActionEvent)
      → passes_since since e ≡ elim since [ none ↦ true | some t ↦ leb t e.at ]
  since_lem none e = refl
  since_lem (some t) e = refl

  passes-visible :
      (e : ActionEvent) → passes now plan org filter e ≡ is_visible now plan org filter e
  passes-visible e =
      rw
        (
          plan_lem e,
          key_lem filter.idempotency_key e,
          status_lem filter.status e,
          since_lem filter.since e,
        )
        refl

  filtered-visible :
      (es : List ActionEvent) → filtered es ≡ select (is_visible now plan org filter) es
  filtered-visible es =
      let mine = λ (e : ActionEvent). str_eq e.org_id org in
      let key = passes_key filter.idempotency_key in
      let status = passes_status filter.status in
      let since = passes_since since_floor in
      ap (λ l. select since (select status l)) (select-select key mine es)
      ∙ ap (select since) (select-select status (λ e. mine e && key e) es)
      ∙ select-select since (λ e. (mine e && key e) && status e) es
      ∙ select-ext (λ e. ((mine e && key e) && status e) && since e)
          (is_visible now plan org filter) es (λ e. same_tests e ∙ passes-visible e)

-- Of the log of any history of events, the service lists exactly those that are the organisation's,
-- pass the filter and are no older than its plan keeps, the last one first, up to the limit that is
-- given or 100.
pub list_events-visible :
    (now : ℕ) (plan org : String) (filter : ListEventsFilter) (history : List (ℕ × DomainEvent))
    → list_events now plan org filter (some (sink_all history empty_log))
      ≡ take
          (get_or filter.limit 100)
          (reverse (select (is_visible now plan org filter) (entries 1 history)))
unfolding list_events list_recent_events
list_events-visible now plan org filter history =
    let visible = is_visible now plan org filter in
    ap (λ l. take (get_or filter.limit 100) (sort_by newer l))
      (filtered-visible now plan org filter (sink_all history empty_log).events
        ∙ ap (select visible) (sink_all-entries history empty_log))
    ∙ ap (take (get_or filter.limit 100)) (
        sort_by-reverse (select visible (entries 1 history))
          (select-Rises visible (entries 1 history) (entries-Rises 1 history)))
