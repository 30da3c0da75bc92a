-- ===== src/Policy/Parse/Meaning.antt =====
-- api/pkg/policy/parser.go: what the checks mean that the reductions build.
use multi_cloud.Common.{
  ◌≡◌, refl, ap, ◌∙◌, Bool, true, false, Text, Outcome, ok, panic, out_of_fuel,
}
use multi_cloud.Policy.Check.{
  Check, false_check, and_check, Checks, nil, cons, append_check, new_and_check, pop_from,
  pop_check,
}
use multi_cloud.Policy.Exec.{Request, exec_with, exec_all, exec_any}
use multi_cloud.Policy.Parse.{join_and}
use multi_cloud.Policy.Parse.Grammar.{short_and, short_or}

short_and-ok : (m : Outcome Bool) → short_and m (ok true) ≡ m
short_and-ok (ok true) = refl
short_and-ok (ok false) = refl
short_and-ok panic = refl
short_and-ok out_of_fuel = refl

pub short_or-ok : (m : Outcome Bool) → short_or m (ok false) ≡ m
short_or-ok (ok true) = refl
short_or-ok (ok false) = refl
short_or-ok panic = refl
short_or-ok out_of_fuel = refl

short_and_assoc : (a b c : Outcome Bool) → short_and a (short_and b c) ≡ short_and (short_and a b) c
short_and_assoc (ok true) b c = refl
short_and_assoc (ok false) b c = refl
short_and_assoc panic b c = refl
short_and_assoc out_of_fuel b c = refl

short_or_assoc : (a b c : Outcome Bool) → short_or a (short_or b c) ≡ short_or (short_or a b) c
short_or_assoc (ok true) b c = refl
short_or_assoc (ok false) b c = refl
short_or_assoc panic b c = refl
short_or_assoc out_of_fuel b c = refl

module _ (r : Request) (call : Text → Outcome Bool) where
  pub exec_all-append :
      (cs : Checks) (c : Check)
      → exec_all r call (append_check cs c) ≡ short_and (exec_all r call cs) (exec_with r call c)
  unfolding exec_all append_check
  exec_all-append nil c = short_and-ok (exec_with r call c)
  exec_all-append (cons d ds) c =
      ap (short_and (exec_with r call d)) (exec_all-append ds c)
      ∙ short_and_assoc (exec_with r call d) (exec_all r call ds) (exec_with r call c)

  pub exec_any-append :
      (cs : Checks) (c : Check)
      → exec_any r call (append_check cs c) ≡ short_or (exec_any r call cs) (exec_with r call c)
  unfolding exec_any append_check
  exec_any-append nil c = short_or-ok (exec_with r call c)
  exec_any-append (cons d ds) c =
      ap (short_or (exec_with r call d)) (exec_any-append ds c)
      ∙ short_or_assoc (exec_with r call d) (exec_any r call ds) (exec_with r call c)

  pub exec-new_and :
      (c d : Check)
      → exec_with r call (new_and_check c d) ≡ short_and (exec_with r call c) (exec_with r call d)
  unfolding exec_with new_and_check
  exec-new_and c d = ap (short_and (exec_with r call c)) (short_and-ok (exec_with r call d))

  pub exec-join_and :
      (c d : Check)
      → exec_with r call (join_and c d) ≡ short_and (exec_with r call c) (exec_with r call d)
  unfolding exec_with join_and
  exec-join_and (and_check cs) d = exec_all-append cs d
  exec-join_and false_check d = exec-new_and false_check d
  exec-join_and c d = exec-new_and c d

pop_from-append :
    (c : Check) (cs : Checks) (x : Check) → pop_from c (append_check cs x) ≡ (cons c cs, x)
unfolding pop_from append_check
pop_from-append c nil x = refl
pop_from-append c (cons d ds) x =
    ap (λ (p : Checks × Check). (cons c p.0, p.1)) (pop_from-append d ds x)

-- Popping undoes `AddCheck`.
pub pop_check-append : (cs : Checks) (x : Check) → pop_check (append_check cs x) ≡ ok (cs, x)
unfolding pop_check append_check
pop_check-append nil x = refl
pop_check-append (cons c cs) x = ap ok (pop_from-append c cs x)
