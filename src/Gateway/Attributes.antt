-- ===== src/Gateway/Attributes.antt =====
-- api/pkg/filters/auth/keystone.go: the context of a request that `setPolicyContext` has gone through, and
-- what a retry leaves.
use multi_cloud.Common.{
  ℕ, zero, suc, ◌+◌, ltb, Bool, true, false, Text, codes, text_eq, List, Option, none, some,
  if◌then◌else◌, ◌≡◌, ◌∙◌, refl, ap, sym, arith, Bool-cases, inl, inr,
}
use multi_cloud.Common.Actions.{Result, done, failed, panicked}
use multi_cloud.Policy.Check.{lookup}
use multi_cloud.Policy.Enforcer.Load.{lookup-insert}
use multi_cloud.Gateway.Context.{Attribute, text_attribute, texts_attribute}
use multi_cloud.Gateway.Auth.{
  retry_after, retry_from, retry, GetResult, Project, Exchange, set_attribute, set_attributes,
  set_extracted, set_policy_context, check_expiry, unauthorized,
}

module _ {S : Type 0} (fn : ℕ → Option Text → S → S × Option Text) (P : S → Type 0) where
  -- If every try that has no error leaves `P`, then so does a retry that has none.
  retry_after-none :
      (again : Text → S → S × Option Text) (o : S × Option Text) (s' : S)
      → ((e : Text) (s : S) → again e s ≡ (s', none) → P s')
      → (o ≡ (s', none) → P s')
      → retry_after again o ≡ (s', none)
      → P s'
  unfolding retry_after
  retry_after-none again (s, none) s' next now h = now h
  retry_after-none again (s, some e) s' next now h = next e s h

  retry_from-none :
      ((i : ℕ) (e : Text) (s s' : S) → fn i (some e) s ≡ (s', none) → P s')
      → (i n : ℕ) (e : Text) (s s' : S) → retry_from fn i n (some e) s ≡ (s', none)
      → P s'
  unfolding retry_from
  retry_from-none tries i zero e s s' h = absurd (ground (arith, h))
  retry_from-none tries i (suc n) e s s' h =
      retry_after-none _ (fn i (some e) s) s' (λ e' t. retry_from-none tries (i + 1) n e' t s')
        (tries i e s s') h

  pub retry-none :
      ((s s' : S) → fn 0 none s ≡ (s', none) → P s')
      → ((i : ℕ) (e : Text) (s s' : S) → fn i (some e) s ≡ (s', none) → P s')
      → (n : ℕ) (s s' : S) → retry fn (suc n) s ≡ (s', none)
      → P s'
  unfolding retry retry_from
  retry-none first tries n s s' h =
      retry_after-none _ (fn 0 none s) s' (λ e t. retry_from-none tries 1 n e t s') (first s s') h

-- What the handlers find under the name of the context.
abbrev pub context_at : Exchange → Option Attribute
context_at x = lookup (codes "context") x.attributes

set_attribute-context :
    (key : Text) (value : Attribute) (x : Exchange)
    → text_eq key (codes "context") ≡ false
    → context_at (set_attribute key value x) ≡ context_at x
unfolding set_attribute
set_attribute-context key value x h =
    lookup-insert key (codes "context") value x.attributes
    ∙ ap (λ b. if b then some value else context_at x) h

abbrev pub left : Exchange → Result (Exchange × Bool) → Exchange
left x (done (y, b)) = y
left x (failed e) = x
left x panicked = x

set_attributes-context :
    (names : List Text) (project : Option Project) (user : Option Text) (x x' : Exchange)
    → set_attributes names project user x ≡ done (x', true)
    → context_at x' ≡ context_at x
unfolding set_attributes
set_attributes-context names none user x x' h = ground (arith, h)
set_attributes-context names (some project) none x x' h = ground (arith, h)
set_attributes-context names (some project) (some user) x x' h =
    let x1 = set_attribute (codes "Roles") (text_attribute project.id) x in
    let x2 = set_attribute (codes "TenantId") (texts_attribute names) x1 in
    let x3 = set_attribute (codes "UserId") (text_attribute user) x2 in
    ap context_at (sym (ap (left x) h))
    ∙ set_attribute-context (codes "IsAdminProject") _ x3 refl
    ∙ set_attribute-context (codes "UserId") _ x2 refl
    ∙ set_attribute-context (codes "TenantId") _ x1 refl
    ∙ set_attribute-context (codes "Roles") _ x refl

set_extracted-context :
    (names : Option (List Text)) (project : Option (Option Project)) (user : Option (Option Text))
    (x x' : Exchange)
    → set_extracted names project user x ≡ done (x', true)
    → context_at x' ≡ context_at x
unfolding set_extracted unauthorized
set_extracted-context none project user x x' h = ground (arith, h)
set_extracted-context (some names) none user x x' h = ground (arith, h)
set_extracted-context (some names) (some project) none x x' h = ground (arith, h)
set_extracted-context (some names) (some project) (some user) x x' h =
    set_attributes-context names project user x x' h

pub check_expiry-Passed :
    (now : ℕ) (expires : Option ℕ) (r : GetResult) (x x' : Exchange)
    → check_expiry now expires r x ≡ done (x', true)
    → ((t : ℕ) × (expires ≡ some t) × (ltb t now ≡ false)) × (context_at x' ≡ context_at x)
unfolding check_expiry unauthorized set_policy_context
check_expiry-Passed now none r x x' h = ground (arith, h)
check_expiry-Passed now (some t) r x x' h = elim (Bool-cases (ltb t now)) [
  | inl late ↦ absurd (ground (arith, late, h))
  | inr in_time ↦
      ((t, refl, in_time), set_extracted-context r.roles r.project r.user x x' (rw (in_time) at h))
]
