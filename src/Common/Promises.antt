-- ===== src/Common/Promises.antt =====
-- What a call that uses the world promises: of its value and the world it leaves if it has no error
-- (Ensures), and of the world it leaves in any case (Keeps).
use mathlib.Core.Path.{subst, ◌≡◌, refl, ap, ◌∙◌}
use mathlib.Core.Bool.{Bool, true, false}
use multi_cloud.Common.Tests.{if◌then◌else◌}
use mathlib.Core.Option.{none}
use native.Mathlib.Omega.{arith}
use multi_cloud.Common.Texts.{Text}
use multi_cloud.Common.Actions.{
  Result, Act, return, fail, panic, continue, ◌>>=◌, caught, attempt, taken, tried, renamed,
  or_fail, done, failed, panicked,
}

-- If the call returns without an error from a world with `P`, its value and the world it leaves
-- have `Q`.
pub record Ensures {W A : Type 0} (P : W → Type 0) (act : Act W A) (Q : A → W → Type 0)
    : Type 0 where
  pub ensure : (w w' : W) (a : A) → act w ≡ (w', done a) → P w → Q a w'

-- Whatever the call returns, the world it leaves has `P` if the world before had it.
pub record Keeps {W A : Type 0} (P : W → Type 0) (act : Act W A) : Type 0 where
  pub keep : (w : W) → P w → P (act w).0

module _ {W A : Type 0} where
  abbrev from_done : A → W × Result A → A
  from_done b (w, done c) = c
  from_done b (w, failed e) = b
  from_done b (w, panicked) = b

  pub done-injective :
      {w w' : W} {a b : A} → ◌≡◌ {A = W × Result A} (w, done a) (w', done b) → a ≡ b
  done-injective {w} {w'} {a} h = ap (from_done a) h

  caught-Keeps : (P : W → Type 0) (o : W × Result A) → P o.0 → P (caught o).0
  caught-Keeps P (w, done a) p = p
  caught-Keeps P (w, failed e) p = p
  caught-Keeps P (w, panicked) p = p

  pub attempt-Keeps : {P : W → Type 0} (act : Act W A) → Keeps P act → Keeps P (attempt act)
  unfolding attempt
  attempt-Keeps {P} act k = record { keep = λ w p. caught-Keeps P (act w) (k.keep w p) }

  taken-Keeps : (P : W → Type 0) (o : W × Result A) → P o.0 → P (taken o).0
  taken-Keeps P (w, done a) p = p
  taken-Keeps P (w, failed e) p = p
  taken-Keeps P (w, panicked) p = p

  pub tried-Keeps : {P : W → Type 0} (act : Act W A) → Keeps P act → Keeps P (tried act)
  unfolding tried
  tried-Keeps {P} act k = record { keep = λ w p. taken-Keeps P (act w) (k.keep w p) }

  pub return-Keeps : {P : W → Type 0} {a : A} → Keeps P (return a)
  return-Keeps {P} {a} = record { keep = λ w p. p }

  pub fail-Keeps : {P : W → Type 0} {e : Text} → Keeps {A = A} P (fail e)
  fail-Keeps {P} {e} = record { keep = λ w p. p }

  pub panic-Keeps : {P : W → Type 0} → Keeps {A = A} P panic
  panic-Keeps {P} = record { keep = λ w p. p }

  pub if-Keeps :
      {P : W → Type 0} {x y : Act W A} (b : Bool)
      → Keeps P x
      → Keeps P y
      → Keeps P (if b then x else y)
  if-Keeps true h k = h
  if-Keeps false h k = k

  renamed-Keeps : (P : W → Type 0) (e : Text) (o : W × Result A) → P o.0 → P (renamed e o).0
  renamed-Keeps P e (w, done a) p = p
  renamed-Keeps P e (w, failed d) p = p
  renamed-Keeps P e (w, panicked) p = p

  pub or_fail-Keeps :
      {P : W → Type 0} (act : Act W A) (e : Text) → Keeps P act → Keeps P (or_fail e act)
  unfolding or_fail
  or_fail-Keeps {P} act e k = record { keep = λ w p. renamed-Keeps P e (act w) (k.keep w p) }

  renamed-done :
      (e : Text) (o : W × Result A) {w : W} {a : A} → renamed e o ≡ (w, done a) → o ≡ (w, done a)
  renamed-done e (w, done a) h = h
  renamed-done e (w, failed d) h = ground arith
  renamed-done e (w, panicked) h = ground arith

  pub or_fail-Ensures :
      {P : W → Type 0} {Q : A → W → Type 0} (act : Act W A) (e : Text)
      → Ensures P act Q
      → Ensures P (or_fail e act) Q
  unfolding or_fail
  or_fail-Ensures {P} {Q} act e s = record {
    ensure = λ w w' a h p. s.ensure w w' a (renamed-done e (act w) h) p;
  }

module _ {W A B : Type 0} where
  continue-Ensures :
      (Q : A → W → Type 0) (R : B → W → Type 0) (rest : A → Act W B)
      → ((a : A) → Ensures (Q a) (rest a) R)
      → (o : W × Result A) → ((w : W) (a : A) → o ≡ (w, done a) → Q a w)
      → (w : W) (b : B) → continue rest o ≡ (w, done b)
      → R b w
  continue-Ensures Q R rest next (w1, done a) first w b h =
      (next a).ensure w1 w b h (first w1 a refl)
  continue-Ensures Q R rest next (w1, failed e) first w b h = ground arith
  continue-Ensures Q R rest next (w1, panicked) first w b h = ground arith

  -- A call after a call.
  pub bind-Ensures :
      {P : W → Type 0} {R : B → W → Type 0} (act : Act W A) {rest : A → Act W B}
      (Q : A → W → Type 0)
      → Ensures P act Q
      → ((a : A) → Ensures (Q a) (rest a) R)
      → Ensures P (act >>= rest) R
  unfolding ◌>>=◌
  bind-Ensures {P} {R} act {rest} Q first next = record {
    ensure = λ w w' b h p.
        continue-Ensures Q R rest next (act w) (λ w1 a e. first.ensure w w1 a e p) w' b h;
  }

  continue-Keeps :
      (P : W → Type 0) (rest : A → Act W B)
      → ((a : A) → Keeps P (rest a))
      → (o : W × Result A) → P o.0
      → P (continue rest o).0
  continue-Keeps P rest next (w, done a) p = (next a).keep w p
  continue-Keeps P rest next (w, failed e) p = p
  continue-Keeps P rest next (w, panicked) p = p

  pub bind-Keeps :
      {P : W → Type 0} (act : Act W A) {rest : A → Act W B}
      → Keeps P act
      → ((a : A) → Keeps P (rest a))
      → Keeps P (act >>= rest)
  unfolding ◌>>=◌
  bind-Keeps {P} act {rest} first next = record {
    keep = λ w p. continue-Keeps P rest next (act w) (first.keep w p);
  }

  continue-Keeps_given :
      (P : W → Type 0) (Q : A → Type 0) (rest : A → Act W B)
      → ((a : A) → Q a → Keeps P (rest a))
      → (o : W × Result A) → P o.0
      → ((w : W) (a : A) → o ≡ (w, done a) → Q a)
      → P (continue rest o).0
  continue-Keeps_given P Q rest next (w, done a) p q = (next a (q w a refl)).keep w p
  continue-Keeps_given P Q rest next (w, failed e) p q = p
  continue-Keeps_given P Q rest next (w, panicked) p q = p

  -- The second call may count on what the first one promises of its value.
  pub bind-Keeps_given :
      {P : W → Type 0} (act : Act W A) {rest : A → Act W B} (Q : A → Type 0)
      → Keeps P act
      → Ensures (λ w. Unit {0}) act (λ a w. Q a)
      → ((a : A) → Q a → Keeps P (rest a))
      → Keeps P (act >>= rest)
  unfolding ◌>>=◌
  bind-Keeps_given {P} act {rest} Q first given next = record {
    keep = λ w p.
        continue-Keeps_given P Q rest next (act w) (first.keep w p)
          (λ w1 a e. given.ensure w w1 a e tt);
  }

module _ {W A : Type 0} where
  pub return-Ensures :
      {P : W → Type 0} {Q : A → W → Type 0} {a : A}
      → ((w : W) → P w → Q a w)
      → Ensures P (return a) Q
  return-Ensures {P} {Q} {a} h = record { ensure = λ w w' b e p. ground (arith, e, h w p) }

  pub fail-Ensures : {P : W → Type 0} {Q : A → W → Type 0} (e : Text) → Ensures P (fail e) Q
  fail-Ensures {P} {Q} e = record { ensure = λ w w' b h p. ground (arith, h) }

  pub panic-Ensures : {P : W → Type 0} {Q : A → W → Type 0} → Ensures P panic Q
  panic-Ensures {P} {Q} = record { ensure = λ w w' b h p. ground (arith, h) }

  pub if-Ensures :
      {P : W → Type 0} {Q : A → W → Type 0} {x y : Act W A} (b : Bool)
      → (b ≡ true → Ensures P x Q)
      → (b ≡ false → Ensures P y Q)
      → Ensures P (if b then x else y) Q
  if-Ensures true t f = t refl
  if-Ensures false t f = f refl

  pub any-Ensures : {P : W → Type 0} {act : Act W A} → Ensures P act (λ a w. Unit {0})
  any-Ensures {P} {act} = record { ensure = λ w w' a h p. tt }

  pub Keeps-Ensures : {P : W → Type 0} {act : Act W A} → Keeps P act → Ensures P act (λ a. P)
  Keeps-Ensures {P} {act} k = record { ensure = λ w w' a h p. subst (λ o. P o.0) h (k.keep w p) }

  -- A fact of the values, known only from the world before.
  pub given-Ensures :
      {P : W → Type 0} {H : Type 0} {Q : A → W → Type 0} {act : Act W A}
      → (H → Ensures P act Q)
      → Ensures (λ w. P w × H) act Q
  given-Ensures {P} {H} {Q} {act} s = record { ensure = λ w w' a e h. (s h.1).ensure w w' a e h.0 }

  caught-none : (o : W × Result A) (w : W) → caught o ≡ (w, done none) → (a : A) × (o ≡ (w, done a))
  caught-none (w1, done a) w h = (a, ground arith)
  caught-none (w1, failed e) w h = ground arith
  caught-none (w1, panicked) w h = ground arith

  -- What a call promises holds if it turns out to have had no error.
  pub attempt-Ensures :
      {P : W → Type 0} {Q : W → Type 0} (act : Act W A)
      → Ensures P act (λ a w. Q w)
      → Ensures P (attempt act) (λ err w. err ≡ none → Q w)
  unfolding attempt
  attempt-Ensures {P} {Q} act s = record {
    ensure = λ w w' err h p is_none.
        let (a, e) = caught-none (act w) w' (h ∙ ap (λ x. (w', done x)) is_none) in
        s.ensure w w' a e p;
  }

module _ {W A B : Type 0} where
  -- A block that ends in an error promises everything.
  pub fails-Ensures :
      {P : W → Type 0} {Q : B → W → Type 0} (act : Act W A) (e : Text)
      → Ensures P (act >>= λ a. fail e) Q
  fails-Ensures {P} {Q} act e = bind-Ensures act (λ a w. Unit {0}) any-Ensures (λ a. fail-Ensures e)
