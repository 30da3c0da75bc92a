-- ===== src/Common/Succeeds.antt =====
-- The calls that have no error, from whatever world.
use mathlib.Core.Path.{◌≡◌, refl, ap, ◌∙◌}
use mathlib.Core.Bool.{Bool, true, false}
use multi_cloud.Common.Tests.{if◌then◌else◌}
use mathlib.Core.Option.{none}
use multi_cloud.Common.Texts.{Text}
use multi_cloud.Common.Actions.{
  Act, return, continue, ◌>>=◌, caught, attempt, renamed, or_fail, done,
}

-- From every world the call returns without an error, with a value that has `Q`.
pub record Succeeds {W A : Type 0} (act : Act W A) (Q : A → Type 0) : Type 0 where
  pub succeed : (w : W) → (w' : W) × (a : A) × (act w ≡ (w', done a)) × Q a

module _ {W A : Type 0} where
  pub return-Succeeds : {Q : A → Type 0} {a : A} → Q a → Succeeds {W = W} (return a) Q
  return-Succeeds {Q} {a} q = record { succeed = λ w. (w, a, refl, q) }

  pub Succeeds-weaken :
      {Q R : A → Type 0} {act : Act W A} → Succeeds act Q → ((a : A) → Q a → R a) → Succeeds act R
  Succeeds-weaken {Q} {R} {act} s h = record {
    succeed = λ w. let (w', a, e, q) = s.succeed w in (w', a, e, h a q);
  }

  pub attempt-Succeeds :
      {Q : A → Type 0} (act : Act W A) → Succeeds act Q → Succeeds (attempt act) (λ err. err ≡ none)
  unfolding attempt
  attempt-Succeeds {Q} act s = record {
    succeed = λ w. let (w', a, e, q) = s.succeed w in (w', none, ap caught e, refl);
  }

  pub or_fail-Succeeds :
      {Q : A → Type 0} (act : Act W A) (e : Text) → Succeeds act Q → Succeeds (or_fail e act) Q
  unfolding or_fail
  or_fail-Succeeds {Q} act e s = record {
    succeed = λ w. let (w', a, h, q) = s.succeed w in (w', a, ap (renamed e) h, q);
  }

  pub if-Succeeds :
      {Q : A → Type 0} {x y : Act W A} (b : Bool)
      → (b ≡ true → Succeeds x Q)
      → (b ≡ false → Succeeds y Q)
      → Succeeds (if b then x else y) Q
  if-Succeeds true t f = t refl
  if-Succeeds false t f = f refl

module _ {W A B : Type 0} where
  pub bind-Succeeds :
      {Q : A → Type 0} {R : B → Type 0} (act : Act W A) {rest : A → Act W B}
      → Succeeds act Q
      → ((a : A) → Q a → Succeeds (rest a) R)
      → Succeeds (act >>= rest) R
  unfolding ◌>>=◌
  bind-Succeeds {Q} {R} act {rest} first next = record {
    succeed = λ w.
        let (w1, a, e, q) = first.succeed w in
        let (w2, b, e2, r) = (next a q).succeed w1 in (w2, b, ap (continue rest) e ∙ e2, r);
  }
