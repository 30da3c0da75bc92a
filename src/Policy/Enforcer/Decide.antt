-- ===== src/Policy/Enforcer/Decide.antt =====
-- api/pkg/policy/policy.go: when a request is permitted.
use mathlib.Core.Path.{subst, subst₂}
use multi_cloud.Common.{
  ℕ, ◌≡◌, ◌↔◌, refl, sym, ap, ◌∙◌, Bool, true, false, not, List, [], ◌∷◌, Option, none, some, Text,
  codes, text_eq, Outcome, ok, arith, if◌then◌else◌, bind-eq-ok, ok-injective, some_cancel,
  contained,
}
use multi_cloud.Policy.Check.{TextMap, lookup, Check, Fields}
use multi_cloud.Policy.Exec.{exec}
use multi_cloud.Policy.Parse.{Entry}
use multi_cloud.Policy.Enforcer.{
  Enforcer, System, load_rules, rules_of, Enforced, enforce_found, enforce_loaded, enforce,
  Decision, authorize,
}

-- The rule of the action exists and is true of the request.
pub record Granted (fuel : ℕ) (action : Text) (target : TextMap Text) (cred : Fields) (e : Enforcer)
    : Type 0 where
  pub rule : Check
  pub found : lookup action (rules_of e) ≡ some rule
  pub is_true :
      exec fuel (record { target = target; cred = cred; rules = rules_of e }) rule ≡ ok true

module _ (fuel : ℕ) (action : Text) (target : TextMap Text) (cred : Fields) (e : Enforcer) where
  abbrev Right : Bool → Enforced → Type 0
  Right loaded r =
      (r.enforcer ≡ e)
      × ((r.allowed ≡ true) ↔ ((loaded ≡ true) × Granted fuel action target cred e))

  enforce_found-Right :
      (o : Option Check) (r : Enforced)
      → lookup action (rules_of e) ≡ o
      → enforce_found fuel target cred e o ≡ ok r
      → Right true r
  unfolding enforce_found
  enforce_found-Right none r l h =
      subst (Right true) (ok-injective h)
        (refl, ((λ y. cc), λ g. absurd (ground (arith, g.1.found, l))))
  enforce_found-Right (some c) r l h =
      let (b, run, same) = bind-eq-ok (exec fuel _ c) _ h in
      subst (Right true) (ok-injective same) (
        refl,
        (
          (λ y. (refl, record { rule = c; found = l; is_true = run ∙ ap ok y })),
          λ g.
              let same_rule = some_cancel (sym l ∙ g.1.found) in
              ok-injective (
                sym run
                ∙ (ap (exec fuel (record { target = target; cred = cred; rules = rules_of e }))
                      same_rule
                    ∙ g.1.is_true)),
        ),
      )

  enforce_loaded-Right :
      (loaded : Bool) (r : Enforced)
      → enforce_loaded fuel action target cred (e, loaded) ≡ ok r
      → Right loaded r
  unfolding enforce_loaded
  enforce_loaded-Right true r h = enforce_found-Right (lookup action (rules_of e)) r refl h
  enforce_loaded-Right false r h =
      subst (Right false) (ok-injective h) (refl, ((λ y. cc), λ g. cc (g.0)))

abbrev pub tenant_target : Text → TextMap Text
tenant_target tenant_id = (codes "tenant_id", tenant_id) ∷ []

-- What `Authorize` answers, given whether the request is permitted.
abbrev pub Answers : List Text → Decision → Type 0
Answers roles d =
    (d.forbidden_sent ≡ not d.permitted)
    × (d.is_admin ≡ (if d.permitted then some (contained (codes "admin") roles) else none))

abbrev answer : Bool → List Text → Enforcer → Outcome Decision
answer b roles e =
    if b
    then ok (record {
      state = e;
      permitted = true;
      forbidden_sent = false;
      is_admin = some (contained (codes "admin") roles);
    })
    else ok (record { state = e; permitted = false; forbidden_sent = true; is_admin = none })

answer-Answers :
    (b : Bool) (roles : List Text) (e : Enforcer) (d : Decision)
    → answer b roles e ≡ ok d
    → (e ≡ d.state) × (b ≡ d.permitted) × Answers roles d
answer-Answers true roles e d h =
    let same = ok-injective h in
    subst (λ x. (e ≡ x.state) × (true ≡ x.permitted) × Answers roles x) same
      (refl, refl, (refl, refl))
answer-Answers false roles e d h =
    let same = ok-injective h in
    subst (λ x. (e ≡ x.state) × (false ≡ x.permitted) × Answers roles x) same
      (refl, refl, (refl, refl))

-- What the load and the rule say of the two results of a decision.
abbrev Decided :
    ℕ → System → List Entry → Text → TextMap Text → Fields → Enforcer → Enforcer → Bool → Type 0
Decided fuel sys order action target cred e state permitted =
    (loaded : Bool) × (load_rules sys order false e ≡ ok (state, loaded))
    × ((permitted ≡ true) ↔ ((loaded ≡ true) × Granted fuel action target cred state))

enforce-Decided :
    (fuel : ℕ) (sys : System) (order : List Entry) (action : Text) (target : TextMap Text)
    (cred : Fields) (e : Enforcer) (r : Enforced)
    → enforce fuel sys order action target cred e ≡ ok r
    → Decided fuel sys order action target cred e r.enforcer r.allowed
unfolding enforce
enforce-Decided fuel sys order action target cred e r h =
    let ((e', loaded), run, same) = bind-eq-ok (load_rules sys order false e) _ h in
    let right = enforce_loaded-Right fuel action target cred e' loaded r same in
    subst (λ x. Decided fuel sys order action target cred e x r.allowed) (sym right.0)
      (loaded, run, right.1)

-- With the strategy `keystone`, whenever `Authorize` returns, it has loaded the rules, and permits
-- the request exactly if this made no error, the action has a rule then, and the rule is true of the
-- tenant and the credentials. It sends the error 403 exactly if it does not permit, and writes the
-- context's field for an administrator, by the roles, exactly if it does.
pub authorize_keystone :
    (fuel : ℕ) (sys : System) (order : List Entry) (strategy action tenant_id : Text)
    (cred : Fields) (roles : List Text) (e : Enforcer) (d : Decision)
    → text_eq strategy (codes "keystone") ≡ true
    → authorize fuel sys order strategy action tenant_id cred roles e ≡ ok d
    → (loaded : Bool) × (load_rules sys order false e ≡ ok (d.state, loaded))
      × ((d.permitted ≡ true)
          ↔ ((loaded ≡ true) × Granted fuel action (tenant_target tenant_id) cred d.state))
      × Answers roles d
unfolding authorize
authorize_keystone fuel sys order strategy action tenant_id cred roles e d key h =
    let (r, run, same) =
      bind-eq-ok (enforce fuel sys order action (tenant_target tenant_id) cred e) _
        (rw (key, authorize) at h) in
    let (same_state, same_bit, answers) = answer-Answers r.allowed roles r.enforcer d same in
    let (loaded, load, granted) =
      subst₂ (Decided fuel sys order action (tenant_target tenant_id) cred e) same_state same_bit
        (enforce-Decided fuel sys order action (tenant_target tenant_id) cred e r run) in
    (loaded, load, granted, answers)
