-- ===== src/Policy/Ranks.antt =====
-- api/pkg/policy/checks.go: with rules that do not refer to themselves, every run comes back.
use multi_cloud.Common.{
  ℕ, zero, suc, ◌<◌, ◌≡◌, ◌≢◌, refl, ap, ◌∙◌, [], ◌∷◌, Bool, true, false, not, Option, none, some,
  Text, Outcome, ok, out_of_fuel, arith, if◌then◌else◌,
}
use multi_cloud.Policy.Check.{
  TextMap, lookup, Check, false_check, true_check, not_check, and_check, or_check, rule_check,
  role_check, generic_check, Checks, nil, cons,
}
use multi_cloud.Policy.Exec.{
  Request, exec_with, exec_all, exec_any, has_no_rule, run_found, exec_rule, exec,
}
use multi_cloud.Policy.Leaves.{
  Ends, ok-Ends, panic-Ends, bind-Ends, if-Ends, exec_role-Ends, exec_generic-Ends,
}

-- Every rule check in the check names a rule of a rank below the bound.
unfoldable mutual
  pub NamesBelow : (Text → ℕ) → ℕ → Check → Type 0
  NamesBelow rank n (not_check c) = NamesBelow rank n c
  NamesBelow rank n (and_check cs) = AllNamesBelow rank n cs
  NamesBelow rank n (or_check cs) = AllNamesBelow rank n cs
  NamesBelow rank n (rule_check k m) = rank m < n
  NamesBelow rank n _ = Unit

  pub AllNamesBelow : (Text → ℕ) → ℕ → Checks → Type 0
  AllNamesBelow rank n nil = Unit
  AllNamesBelow rank n (cons c cs) = NamesBelow rank n c × AllNamesBelow rank n cs

-- The rules refer to rules of lower rank only, so no rule refers to itself, not even through others.
abbrev pub IsRanked : (Text → ℕ) → TextMap Check → Type 0
IsRanked rank rules =
    (name : Text) (c : Check) → lookup name rules ≡ some c → NamesBelow rank (rank name) c

module _ (r : Request) (call : Text → Outcome Bool) (rank : Text → ℕ) (n : ℕ)
    (h : (m : Text) → rank m < n → Ends (call m)) where
  mutual
    unfolding exec_with NamesBelow

    exec_with-Ends : (c : Check) → NamesBelow rank n c → Ends (exec_with r call c)
    exec_with-Ends false_check b = ok-Ends false
    exec_with-Ends true_check b = ok-Ends true
    exec_with-Ends (not_check c) b =
        bind-Ends (exec_with r call c) _ (exec_with-Ends c b) (λ x. ok-Ends (not x))
    exec_with-Ends (and_check cs) b = exec_all-Ends cs b
    exec_with-Ends (or_check cs) b = exec_any-Ends cs b
    exec_with-Ends (rule_check k m) b = h m b
    exec_with-Ends (role_check k m) b = exec_role-Ends r.target r.cred m
    exec_with-Ends (generic_check k m) b = exec_generic-Ends r.target r.cred k m

    exec_all-Ends : (cs : Checks) → AllNamesBelow rank n cs → Ends (exec_all r call cs)
    exec_all-Ends nil b = ok-Ends true
    exec_all-Ends (cons c cs) b =
        bind-Ends (exec_with r call c) _ (exec_with-Ends c b.0)
          (λ x. if-Ends x _ _ (exec_all-Ends cs b.1) (ok-Ends false))

    exec_any-Ends : (cs : Checks) → AllNamesBelow rank n cs → Ends (exec_any r call cs)
    exec_any-Ends nil b = ok-Ends false
    exec_any-Ends (cons c cs) b =
        bind-Ends (exec_with r call c) _ (exec_with-Ends c b.0)
          (λ x. if-Ends x _ _ (ok-Ends true) (exec_any-Ends cs b.1))

run_found-Ends :
    (run : Check → Outcome Bool) (o : Option Check)
    → ((c : Check) → o ≡ some c → Ends (run c))
    → Ends (run_found run o)
unfolding run_found
run_found-Ends run none h = panic-Ends
run_found-Ends run (some c) h = h c refl

exec_rule-Ends :
    (rank : Text → ℕ) (r : Request) (f : ℕ) (m : Text)
    → IsRanked rank r.rules
    → rank m < f
    → Ends (exec_rule f r m)
unfolding exec_rule
exec_rule-Ends rank r zero m h l = absurd (omega arith)
exec_rule-Ends rank r (suc f) m h l = if-Ends (has_no_rule r.rules) _ _ (ok-Ends _) (
    run_found-Ends (λ c. exec_with r (λ n. exec_rule f r n) c) (lookup m r.rules)
      λ c e.
        exec_with-Ends r (λ n. exec_rule f r n) rank (rank m)
          (λ n below. exec_rule-Ends rank r f n h (omega arith)) c (h m c e))

-- If every rule refers only to rules of lower rank, and a check only to rules of a rank below the
-- number of nested rule checks allowed, the run of the check comes back: with a Boolean, or with a
-- panic.
pub exec-Ends :
    (rank : Text → ℕ) (f : ℕ) (r : Request) (c : Check)
    → IsRanked rank r.rules
    → NamesBelow rank f c
    → exec f r c ≢ out_of_fuel
unfolding exec
exec-Ends rank f r c h b =
    exec_with-Ends r (exec_rule f r) rank f (λ m l. exec_rule-Ends rank r f m h l) c b

-- Rules that only refer to one another never come back, however many nested calls are allowed: in
-- the program the stack overflows.
pub exec_cycle :
    (loop : Text → Type 0) (next kind : Text → Text) (r : Request)
    → ((m : Text) → loop m → lookup m r.rules ≡ some (rule_check (kind m) (next m)))
    → ((m : Text) → loop m → loop (next m))
    → (f : ℕ) (m : Text) → loop m
    → exec_rule f r m ≡ out_of_fuel
unfolding exec_rule
exec_cycle loop next kind r found closed zero m l = refl
exec_cycle loop next kind r found closed (suc f) m l =
    let ih = exec_cycle loop next kind r found closed f (next m) (closed m l) in
    ap
      (λ b.
        if b
        then ok false
        else run_found (λ c. exec_with r (λ n. exec_rule f r n) c) (lookup m r.rules))
      (present r.rules (found m l))
    ∙ (ap (run_found (λ c. exec_with r (λ n. exec_rule f r n) c)) (found m l) ∙ ih)
  where
    present :
        {x : Check} (rules : TextMap Check) → lookup m rules ≡ some x → has_no_rule rules ≡ false
    present [] e = absurd (ground arith)
    present (y ∷ ys) e = refl
