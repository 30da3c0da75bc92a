-- ===== src/Gateway/Credentials.antt =====
-- api/pkg/filters and api/pkg/policy: what a request has when a filter has let it through, and what a
-- policy can tell of it.
use mathlib.Core.Path.{subst}
use multi_cloud.Common.{
  ℕ, zero, suc, ltb, true, false, Text, codes, text_eq, is_empty, List, Option, none, some, ◌≡◌,
  ◌≢◌, ◌∙◌, refl, ap, sym, arith, Outcome, ok, panic, out_of_fuel, ◌>>=◌, some_cancel, Bool-cases,
  inl, inr,
}
use multi_cloud.Common.Actions.{done}
use multi_cloud.Policy.Check.{
  TextMap, lookup, role_check, Fields, no_field, field, bool, Formatted, formatted, no_target,
  key_work_formatter, lookup_field,
}
use multi_cloud.Policy.Exec.{exec_role, exec_with, exec, match_roles}
use multi_cloud.Policy.Parse.{Entry}
use multi_cloud.Policy.Enforcer.{System, Enforcer, rules_of, Decision, authorize}
use multi_cloud.Policy.Enforcer.Decide.{tenant_target, authorize_keystone}
use multi_cloud.Gateway.Context.{
  filter_context, as_policy_context, get_context, to_policy_value, empty_context, new_context,
}
use multi_cloud.Gateway.Auth.{
  retry, GetResult, OpenStack, Exchange, trim_space, unauthorized, asked_token, set_up, verify_try,
  after_verify, validate_token, keystone_filter, no_result,
}
use multi_cloud.Gateway.Attributes.{retry-none, context_at, check_expiry-Passed}

-- The identity service was asked for the token and answered it without an error; `w'` is the world
-- after the answer.
abbrev pub Answered : {W P C : Type 0} → OpenStack W P C → Text → W → GetResult → Type 0
Answered {W} {P} {C} os token w' r =
    (identity : C) × (w : W) × (os.get_token identity token w ≡ (w', r)) × (r.err ≡ none)

-- The answer has a time at which the token expires, and that is not over.
abbrev pub InTime : {W P C : Type 0} → OpenStack W P C → W → GetResult → Type 0
InTime os w r = (t : ℕ) × (r.expires_at ≡ some t) × (ltb t (os.now w) ≡ false)

module _ {W P C : Type 0} (os : OpenStack W P C) (token : Text) where
  abbrev Has : C × W × GetResult → Type 0
  Has s = Answered os token s.1 s.2

  asked-Has :
      (identity : C) (w : W) (o : W × GetResult) (s : C × W × GetResult)
      → os.get_token identity token w ≡ o
      → asked_token os identity o ≡ (s, none)
      → Has s
  unfolding asked_token
  asked-Has identity w (w1, r1) s asked h =
      subst Has (ap (λ p. p.0) h) (identity, w, asked, ap (λ p. p.1) h)

  first_try-Has : (s s' : C × W × GetResult) → verify_try os token 0 none s ≡ (s', none) → Has s'
  unfolding verify_try
  first_try-Has (identity, w, r) s' h = asked-Has identity w _ s' refl h

  next_try-Has :
      (i : ℕ) (e : Text) (s s' : C × W × GetResult)
      → verify_try os token i (some e) s ≡ (s', none)
      → Has s'
  unfolding verify_try
  next_try-Has zero e (identity, w, r) s' h = asked-Has identity w _ s' refl h
  next_try-Has (suc i) e (identity, w, r) s' h =
      elim (Bool-cases (text_eq e (codes "Authentication failed"))) [
        | inl again ↦
            asked-Has (set_up os identity w).0 (set_up os identity w).1 _ s' refl (rw (again) at h)
        | inr given_up ↦ absurd (ground (arith, given_up, h))
      ]

  after_verify-Passed :
      (x x' : Exchange) (identity' : C) (w' : W) (o : (C × W × GetResult) × Option Text)
      → ((s : C × W × GetResult) → o ≡ (s, none) → Has s)
      → after_verify os x o ≡ ((identity', w'), done (x', true))
      → ((r : GetResult) × Answered os token w' r × InTime os w' r) × (context_at x' ≡ context_at x)
  unfolding after_verify unauthorized
  after_verify-Passed x x' identity' w' ((identity, w, r), some e) has h = ground (arith, h)
  after_verify-Passed x x' identity' w' ((identity, w, r), none) has h =
      let (in_time, context) =
        check_expiry-Passed (os.now w) r.expires_at r x x' (ap (λ p. p.1) h) in
      let same : w ≡ w' = ap (λ p. p.0.1) h in
      (
        (
          r,
          subst (λ v. Answered os token v r) same (has (identity, w, r) refl),
          subst (λ v. InTime os v r) same in_time,
        ),
        context,
      )

  validate_token-Passed :
      (x x' : Exchange) (identity identity' : C) (w w' : W)
      → validate_token os x token (identity, w) ≡ ((identity', w'), done (x', true))
      → (is_empty token ≡ false)
        × ((r : GetResult) × Answered os token w' r × InTime os w' r)
        × (context_at x' ≡ context_at x)
  unfolding validate_token unauthorized
  validate_token-Passed x x' identity identity' w w' h = elim (Bool-cases (is_empty token)) [
    | inl absent ↦ absurd (ground (arith, absent, h))
    | inr given ↦
        let (answer, context) =
          after_verify-Passed x x' identity' w'
            (retry (verify_try os token) 2 (identity, w, no_result os))
            (λ s e.
              retry-none (verify_try os token) Has first_try-Has next_try-Has 1
                (identity, w, no_result os) s e)
            (rw (given) at h) in
        (given, answer, context)
  ]

-- When the filter of keystone lets a request through that has come from the filter of the context,
-- the request has a token that is not white space, the identity service was asked for it and answered
-- without an error, and the answer has not expired; and whosever token it is, the context that the
-- handlers read is still the default one, with the tenant `tenantId` and the rights of an
-- administrator.
pub keystone_filter-Answered :
    {W P C : Type 0} (os : OpenStack W P C) (x x' : Exchange) (identity identity' : C) (w w' : W)
    → context_at x ≡ some (filter_context new_context)
    → keystone_filter os x (identity, w) ≡ ((identity', w'), done (x', true))
    → (is_empty (trim_space x.auth_token) ≡ false)
      × ((r : GetResult) × Answered os (trim_space x.auth_token) w' r × InTime os w' r)
      × (context_at x' ≡ some (filter_context new_context))
unfolding keystone_filter
keystone_filter-Answered os x x' identity identity' w w' default h =
    let (given, answer, context) =
      validate_token-Passed os (trim_space x.auth_token) x x' identity identity' w w' h in
    (given, answer, context ∙ default)

-- All that the policy sees of a request whose attribute is the context of the filter.
abbrev pub two_fields : Fields
two_fields =
    field (codes "is_admin") (bool false) (field (codes "is_admin_project") (bool false) no_field)

filter_context-credentials :
    (x : Exchange)
    → context_at x ≡ some (filter_context new_context)
    → to_policy_value (get_context x.attributes) ≡ two_fields
unfolding get_context to_policy_value empty_context
filter_context-credentials x h = ap (λ o. to_policy_value (as_policy_context o)) h

formatted_role :
    (o : Outcome Formatted)
    → (o >>= (λ m. elim m [
      | no_target ↦ ok false
      | formatted s ↦ match_roles s (lookup_field (codes "roles") two_fields)
    ]))
      ≢ ok true
unfolding match_roles lookup_field
formatted_role panic h = ground (arith, h)
formatted_role out_of_fuel h = ground (arith, h)
formatted_role (ok no_target) h = ground (arith, h)
formatted_role (ok (formatted s)) h = ground (arith, h)

exec_role-denied :
    (target : TextMap Text) (match : Text) → exec_role target two_fields match ≢ ok true
unfolding exec_role
exec_role-denied target match h = formatted_role (key_work_formatter target match) h

-- With keystone, once a request has gone through the filters of the context and of keystone, no rule
-- that asks for a role permits it, whatever the roles of the token are: `Authorize`, whenever it
-- returns, answers that the action is not permitted.
pub authorize-role_denied :
    {W P C : Type 0} (os : OpenStack W P C) (x x' : Exchange) (identity identity' : C) (w w' : W)
    → context_at x ≡ some (filter_context new_context)
    → keystone_filter os x (identity, w) ≡ ((identity', w'), done (x', true))
    → (fuel : ℕ) (sys : System) (order : List Entry) (strategy action tenant_id : Text)
      (e : Enforcer) (d : Decision) (kind match : Text)
    → text_eq strategy (codes "keystone") ≡ true
    → authorize fuel sys order strategy action tenant_id
        (to_policy_value (get_context x'.attributes))
        (get_context x'.attributes).roles
        e
      ≡ ok d
    → lookup action (rules_of d.state) ≡ some (role_check kind match)
    → d.permitted ≡ false
unfolding exec exec_with
authorize-role_denied os x x' identity identity' w w' default h fuel sys order strategy action
      tenant_id e d kind match key answer rule =
    let credentials =
      filter_context-credentials x'
        (keystone_filter-Answered os x x' identity identity' w w' default h).2 in
    let (loaded, load, granted, rest) =
      authorize_keystone fuel sys order strategy action tenant_id _ _ e d key answer in
    elim (Bool-cases d.permitted) [
      | inl permits ↦
          let g = (granted.0 permits).1 in
          absurd (
            exec_role-denied (tenant_target tenant_id) match (
              ap (λ c. exec_role (tenant_target tenant_id) c match) (sym credentials)
              ∙ ap
                  (λ c.
                    exec fuel
                      (record {
                        target = tenant_target tenant_id;
                        cred = to_policy_value (get_context x'.attributes);
                        rules = rules_of d.state;
                      })
                      c)
                  (some_cancel (sym rule ∙ g.found))
              ∙ g.is_true))
      | inr denies ↦ denies
    ]
