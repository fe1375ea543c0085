-- ===== src/Alerts/Limit.antt =====
-- service.ts: the number of alert rules of an organisation against its plan.
use quorvel.Common.{
  ℕ, ◌+◌, ◌≤◌, String, ◌≡◌, ◌∙◌, ◌⊎◌, eq_iff, refl, ap, inl, inr, false, not, Option, some, List,
  [], ◌∷◌, ◌++◌, reverse, arith, str_eq, length, length-append, select, find, Bool-cases,
  Option-cases, if◌then◌else◌,
}
use mathlib.Core.List.{reverse-cons}
use quorvel.Cloud.Errors.{ApiError, Answer, ok, fails}
use quorvel.Cloud.Access.Keys.{new_id}
use quorvel.Alerts.{
  CreateAlertRuleInput, UpdateAlertRuleInput, Rules, list_rules, new_rule, is_rule, modify_rule,
  update, remove,
}
use quorvel.Alerts.Calls.{
  State, max_alert_rules, plan_of, is_full, create_checked, create_alert_rule, update_alert_rule,
  delete_alert_rule, Call, creates, updates, deletes, perform, perform_all,
}
use quorvel.Alerts.Inputs.{RuleInput, create_input, update_input}

-- how many rules an organisation has
abbrev pub count : String → Rules → ℕ
count org [] = 0
count org (r ∷ rs) = (if str_eq r.org_id org then 1 else 0) + count org rs

count-append : (org : String) (rs ss : Rules) → count org (rs ++ ss) ≡ count org rs + count org ss
count-append org [] ss = omega arith
count-append org (r ∷ rs) ss = omega (arith, count-append org rs ss)

length-reverse : {A : Type 0} (xs : List A) → length (reverse xs) ≡ length xs
length-reverse [] = refl
length-reverse {A} (x ∷ xs) =
    ap length (reverse-cons x xs)
    ∙ length-append (reverse xs) (x ∷ [])
    ∙ omega (arith, length-reverse xs)

length-selected :
    (org : String) (rs : Rules) → length (select (λ r. str_eq r.org_id org) rs) ≡ count org rs
length-selected org [] = refl
length-selected org (r ∷ rs) = ground (arith, length-selected org rs)

length-list_rules : (org : String) (rs : Rules) → length (list_rules org rs) ≡ count org rs
length-list_rules org rs =
    length-reverse (select (λ r. str_eq r.org_id org) rs) ∙ length-selected org rs

count-modify_rule :
    (org o id : String) (patch : UpdateAlertRuleInput) (rs : Rules)
    → count org (modify_rule o id patch rs) ≡ count org rs
unfolding modify_rule
count-modify_rule org o id patch [] = refl
count-modify_rule org o id patch (r ∷ rs) = ground (arith, count-modify_rule org o id patch rs)

count-remove :
    (org o id : String) (rs : Rules)
    → count org (select (λ r. not (is_rule o id r)) rs) ≤ count org rs
count-remove org o id [] = omega arith
count-remove org o id (r ∷ rs) = ground (arith, count-remove org o id rs)

Answer-cases :
    {A : Type 0} (x : Answer A) → ((e : ApiError) × (x ≡ fails e)) ⊎ ((a : A) × (x ≡ ok a))
Answer-cases (ok a) = inr (a, refl)
Answer-cases (fails e) = inl (e, refl)

-- The plan allows that many rules, and the organisation has no more.
abbrev pub IsWithinPlan : String → ℕ → State → Type 0
IsWithinPlan org max st = (max_alert_rules (plan_of org st) ≡ some max) × (count org st.rules ≤ max)

module _ (org : String) (max : ℕ) where
  added :
      (now : ℕ) (rule_uuid o : String) (input : CreateAlertRuleInput) (st : State)
      → max_alert_rules (plan_of org st) ≡ some max
      → count org st.rules ≤ max
      → is_full (max_alert_rules (plan_of o st)) (length (list_rules o st.rules)) ≡ false
      → count org (st.rules ++ new_rule now o (new_id "alr" rule_uuid) input ∷ []) ≤ max
  added now rule_uuid o input st p c f =
      let grown = count-append org st.rules (new_rule now o (new_id "alr" rule_uuid) input ∷ []) in
      elim (Bool-cases (str_eq o org)) [
        | inr e ↦ rw (grown, e) (omega (arith, c))
        | inl e ↦
            let same : o ≡ org = (eq_iff o org).0 e in
            let room : is_full (some max) (count org st.rules) ≡ false =
              rw (same, p, length-list_rules org st.rules) at f in
            rw (grown, e) (ground (arith, room))
      ]

  create_checked-IsWithinPlan :
      (now : ℕ) (rule_uuid audit_uuid o : String) (input : CreateAlertRuleInput)
      (actor : Option String) (st : State)
      → IsWithinPlan org max st
      → IsWithinPlan org max (create_checked now rule_uuid audit_uuid o input actor st).1
  create_checked-IsWithinPlan now rule_uuid audit_uuid o input actor st (p, c) =
      let full = is_full (max_alert_rules (plan_of o st)) (length (list_rules o st.rules)) in
      elim (Bool-cases full) [
        | inl f ↦ rw (create_checked, f) (p, c)
        | inr f ↦ rw (create_checked, f) (p, added now rule_uuid o input st p c f)
      ]

  create-IsWithinPlan :
      (now : ℕ) (rule_uuid audit_uuid o : String) (input : RuleInput) (actor : Option String)
      (st : State)
      → IsWithinPlan org max st
      → IsWithinPlan org max (create_alert_rule now rule_uuid audit_uuid o input actor st).1
  unfolding create_alert_rule
  create-IsWithinPlan now rule_uuid audit_uuid o input actor st w =
      elim (Answer-cases (create_input input)) [
        | inl (e, f) ↦ rw (create_alert_rule, f) w
        | inr (clean, f) ↦
            rw (create_alert_rule, f)
              (create_checked-IsWithinPlan now rule_uuid audit_uuid o clean actor st w)
      ]

  update-IsWithinPlan :
      (now : ℕ) (uuid o id : String) (patch : RuleInput) (actor : Option String) (st : State)
      → IsWithinPlan org max st
      → IsWithinPlan org max (update_alert_rule now uuid o id patch actor st).1
  unfolding update_alert_rule update
  update-IsWithinPlan now uuid o id patch actor st w = elim (Answer-cases (update_input patch)) [
    | inl (e, f) ↦ rw (update_alert_rule, f) w
    | inr (clean, f) ↦ elim (Option-cases (find (is_rule o id) st.rules)) [
      | inl g ↦ rw (update_alert_rule, f, update, g) w
      | inr (r, g) ↦
          rw (update_alert_rule, f, update, g)
            (w.0, rw (count-modify_rule org o id clean st.rules) (w.1))
    ]
  ]

  delete-IsWithinPlan :
      (now : ℕ) (uuid o id : String) (actor : Option String) (st : State)
      → IsWithinPlan org max st
      → IsWithinPlan org max (delete_alert_rule now uuid o id actor st).1
  unfolding delete_alert_rule
  delete-IsWithinPlan now uuid o id actor st (p, c) =
      let fewer : count org (remove o id st.rules).1 ≤ max =
        omega (arith, c, count-remove org o id st.rules) in
      elim (Bool-cases (remove o id st.rules).0) [
        | inl f ↦ rw (delete_alert_rule, f) (p, fewer)
        | inr f ↦ rw (delete_alert_rule, f) (p, fewer)
      ]

  perform-IsWithinPlan :
      (c : Call) (st : State) → IsWithinPlan org max st → IsWithinPlan org max (perform c st)
  unfolding perform
  perform-IsWithinPlan (creates now rule_uuid audit_uuid o input actor) st w =
      create-IsWithinPlan now rule_uuid audit_uuid o input actor st w
  perform-IsWithinPlan (updates now uuid o id patch actor) st w =
      update-IsWithinPlan now uuid o id patch actor st w
  perform-IsWithinPlan (deletes now uuid o id actor) st w =
      delete-IsWithinPlan now uuid o id actor st w

  -- An organisation whose plan has a limit of alert rules, and that has no more rules than that, has
  -- no more after any history of calls that create, change and delete rules, made one after another,
  -- by whatever organisations and with whatever input.
  pub perform_all-IsWithinPlan :
      (cs : List Call) (st : State)
      → IsWithinPlan org max st
      → IsWithinPlan org max (perform_all cs st)
  unfolding perform_all
  perform_all-IsWithinPlan [] st w = w
  perform_all-IsWithinPlan (c ∷ cs) st w =
      perform_all-IsWithinPlan cs (perform c st) (perform-IsWithinPlan c st w)
