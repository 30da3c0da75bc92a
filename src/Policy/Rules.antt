-- ===== src/Policy/Rules.antt =====
-- api/pkg/policy/checks.go: rule checks, which run another rule of the enforcer by its name.
use multi_cloud.Common.{
  ℕ, zero, suc, ◌+◌, ◌≡◌, ◌≢◌, refl, sym, ap, ◌∙◌, Bool, true, false, not, Option, none, some, Text,
  Outcome, ok, panic, out_of_fuel, ◌>>=◌, arith, ◌⊎◌, inl, inr, if◌then◌else◌,
}
use multi_cloud.Policy.Check.{
  lookup, Check, false_check, true_check, not_check, and_check, or_check, rule_check, role_check,
  generic_check, Checks, nil, cons,
}
use multi_cloud.Policy.Exec.{
  Request, exec_with, exec_all, exec_any, has_no_rule, run_found, exec_rule, exec,
}

-- The second run has the outcome of the first, unless that has run out of fuel.
abbrev Extends : Outcome Bool → Outcome Bool → Type 0
Extends m n = (m ≡ out_of_fuel) ⊎ (n ≡ m)

Extends-bind :
    (m n : Outcome Bool) (f g : Bool → Outcome Bool)
    → Extends m n
    → ((b : Bool) → Extends (f b) (g b))
    → Extends (m >>= f) (n >>= g)
Extends-bind m n f g (inl e) h = inl (rw e)
Extends-bind (ok b) n f g (inr e) h = rw e (h b)
Extends-bind panic n f g (inr e) h = inr (rw e)
Extends-bind out_of_fuel n f g (inr e) h = inl refl

Extends-if :
    (b : Bool) (m n m' n' : Outcome Bool)
    → Extends m n
    → Extends m' n'
    → Extends (if b then m else m') (if b then n else n')
Extends-if true m n m' n' h k = h
Extends-if false m n m' n' h k = k

module _ (r : Request) (call more : Text → Outcome Bool)
    (h : (m : Text) → Extends (call m) (more m)) where
  mutual
    unfolding exec_with

    exec_with-Extends : (c : Check) → Extends (exec_with r call c) (exec_with r more c)
    exec_with-Extends false_check = inr refl
    exec_with-Extends true_check = inr refl
    exec_with-Extends (not_check c) =
        Extends-bind (exec_with r call c) (exec_with r more c) (λ b. ok (not b)) (λ b. ok (not b))
          (exec_with-Extends c) (λ b. inr refl)
    exec_with-Extends (and_check cs) = exec_all-Extends cs
    exec_with-Extends (or_check cs) = exec_any-Extends cs
    exec_with-Extends (rule_check k m) = h m
    exec_with-Extends (role_check k m) = inr refl
    exec_with-Extends (generic_check k m) = inr refl

    exec_all-Extends : (cs : Checks) → Extends (exec_all r call cs) (exec_all r more cs)
    exec_all-Extends nil = inr refl
    exec_all-Extends (cons c cs) =
        Extends-bind (exec_with r call c) (exec_with r more c)
          (λ b. if b then exec_all r call cs else ok false)
          (λ b. if b then exec_all r more cs else ok false) (exec_with-Extends c)
          (λ b. Extends-if b _ _ _ _ (exec_all-Extends cs) (inr refl))

    exec_any-Extends : (cs : Checks) → Extends (exec_any r call cs) (exec_any r more cs)
    exec_any-Extends nil = inr refl
    exec_any-Extends (cons c cs) =
        Extends-bind (exec_with r call c) (exec_with r more c)
          (λ b. if b then ok true else exec_any r call cs)
          (λ b. if b then ok true else exec_any r more cs) (exec_with-Extends c)
          (λ b. Extends-if b _ _ _ _ (inr refl) (exec_any-Extends cs))

found-Extends :
    (o : Option Check) (f g : Check → Outcome Bool)
    → ((c : Check) → Extends (f c) (g c))
    → Extends (run_found f o) (run_found g o)
unfolding run_found
found-Extends none f g h = inr refl
found-Extends (some c) f g h = h c

exec_rule-Extends :
    (f : ℕ) (r : Request) (m : Text) → Extends (exec_rule f r m) (exec_rule (suc f) r m)
unfolding exec_rule
exec_rule-Extends zero r m = inl refl
exec_rule-Extends (suc f) r m = Extends-if (has_no_rule r.rules) _ _ _ _ (inr refl) (
    found-Extends (lookup m r.rules) _ _ (λ c.
      exec_with-Extends r (λ n. exec_rule f r n) (λ n. exec_rule (suc f) r n)
        (λ n. exec_rule-Extends f r n) c))

exec_step : (f : ℕ) (r : Request) (c : Check) → Extends (exec f r c) (exec (suc f) r c)
unfolding exec
exec_step f r c =
    exec_with-Extends r (exec_rule f r) (exec_rule (suc f) r) (exec_rule-Extends f r) c

settled : {m n : Outcome Bool} → Extends m n → m ≢ out_of_fuel → n ≡ m
settled (inl e) h = absurd (h e)
settled (inr e) h = e

-- An outcome that a run reaches with some fuel it reaches with more.
pub exec-more_fuel :
    (k f : ℕ) (r : Request) (c : Check) → exec f r c ≢ out_of_fuel → exec (k + f) r c ≡ exec f r c
exec-more_fuel zero f r c h = ap (λ n. exec n r c) (omega arith)
exec-more_fuel (suc k) f r c h =
    let ih = exec-more_fuel k f r c h in
    ap (λ n. exec n r c) (omega arith)
    ∙ (settled (exec_step (k + f) r c) (λ e. h (sym ih ∙ e)) ∙ ih)
