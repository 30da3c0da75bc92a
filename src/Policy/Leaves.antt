-- ===== src/Policy/Leaves.antt =====
-- api/pkg/policy/checks.go: the checks that run no other rule come back with no fuel at all.
use multi_cloud.Common.{
  refl, ◌≢◌, Bool, true, false, List, [], ◌∷◌, Option, none, some, Text, Outcome, ok, panic,
  out_of_fuel, ◌>>=◌, if◌then◌else◌, ltb, length, contained, to_lower, codes, text_eq, split,
}
use multi_cloud.Policy.Check.{
  TextMap, lookup, Value, nil_value, text, object, slice, texts, other_slice, Values, end, item,
  Fields, has_no_field, lookup_field, find_item, find_text, find_below, find_in_map, value_at,
  find_all, Formatted, formatted, no_target, strip_format, key_work_formatter,
}
use multi_cloud.Policy.Exec.{match_roles, exec_role, is_quoted, simple_literal, exec_generic}

abbrev pub Ends : {A : Type 0} → Outcome A → Type 0
Ends m = m ≢ out_of_fuel

pub ok-Ends : {A : Type 0} (a : A) → Ends (ok a)
ok-Ends a e = cc

pub panic-Ends : {A : Type 0} → Ends {A = A} panic
panic-Ends e = cc

pub bind-Ends :
    {A B : Type 0} (m : Outcome A) (f : A → Outcome B)
    → Ends m
    → ((a : A) → Ends (f a))
    → Ends (m >>= f)
bind-Ends (ok a) f h k = k a
bind-Ends panic f h k = panic-Ends
bind-Ends out_of_fuel f h k = λ e. h refl

pub if-Ends :
    {A : Type 0} (b : Bool) (m n : Outcome A) → Ends m → Ends n → Ends (if b then m else n)
if-Ends true m n h k = h
if-Ends false m n h k = k

strip_format-Ends : (m : Text) → Ends (strip_format m)
unfolding strip_format
strip_format-Ends m = if-Ends (ltb (length m) 4) _ _ panic-Ends (ok-Ends _)

key_work_formatter-Ends : (target : TextMap Text) (s : Text) → Ends (key_work_formatter target s)
unfolding key_work_formatter
key_work_formatter-Ends target s = by_matches (find_all (length s) s)
  where
    by_matches :
        (found : List Text)
        → Ends (elim found [
          | [] ↦ ok (formatted s)
          | m ∷ ms ↦ elim ms [
            | [] ↦ strip_format m >>= λ k.
                ok (elim (lookup k target) [ none ↦ no_target | some val ↦ formatted val ])
            | n ∷ ns ↦ ok (formatted s)
          ]
        ])
    by_matches [] = ok-Ends _
    by_matches (m ∷ []) = bind-Ends (strip_format m) _ (strip_format-Ends m) (λ k. ok-Ends _)
    by_matches (m ∷ n ∷ ns) = ok-Ends _

match_roles-Ends : (s : Text) (o : Option Value) → Ends (match_roles s o)
unfolding match_roles
match_roles-Ends s none = ok-Ends _
match_roles-Ends s (some (texts roles)) = ok-Ends _
match_roles-Ends s (some _) = panic-Ends

pub exec_role-Ends :
    (target : TextMap Text) (cred : Fields) (m : Text) → Ends (exec_role target cred m)
unfolding exec_role
exec_role-Ends target cred m = bind-Ends _ _ (key_work_formatter-Ends target m) (by_format)
  where
    by_format :
        (f : Formatted)
        → Ends (elim f [
          | no_target ↦ ok false
          | formatted s ↦ match_roles s (lookup_field (codes "roles") cred)
        ])
    by_format no_target = ok-Ends _
    by_format (formatted s) = match_roles-Ends s _

find_item-Ends :
    (find : Value → Outcome Bool) (vs : Values)
    → ((v : Value) → Ends (find v))
    → Ends (find_item find vs)
unfolding find_item
find_item-Ends find end h = ok-Ends _
find_item-Ends find (item v vs) h =
    bind-Ends (find v) _ (h v) (λ b. if-Ends b _ _ (ok-Ends _) (find_item-Ends find vs h))

find_text-Ends :
    (find : Value → Outcome Bool) (ts : List Text)
    → ((v : Value) → Ends (find v))
    → Ends (find_text find ts)
unfolding find_text
find_text-Ends find [] h = ok-Ends _
find_text-Ends find (t ∷ ts) h =
    bind-Ends (find (text t)) _ (h (text t))
      (λ b. if-Ends b _ _ (ok-Ends _) (find_text-Ends find ts h))

find_below-Ends :
    (find : Value → Outcome Bool) (v : Value)
    → ((v : Value) → Ends (find v))
    → Ends (find_below find v)
unfolding find_below
find_below-Ends find nil_value h = ok-Ends _
find_below-Ends find (slice vs) h = find_item-Ends find vs h
find_below-Ends find (texts ts) h = find_text-Ends find ts h
find_below-Ends find other_slice h = panic-Ends
find_below-Ends find v h = h v

find_in_map-Ends : (segs : List Text) (m : Text) (v : Value) → Ends (find_in_map segs m v)
unfolding find_in_map
find_in_map-Ends [] m v = ok-Ends _
find_in_map-Ends (key ∷ segs) m v =
    find_below-Ends (find_in_map segs m) (value_at key v) (find_in_map-Ends segs m)

simple_literal-Ends : (k : Text) → Ends (simple_literal k)
unfolding simple_literal
simple_literal-Ends [] = panic-Ends
simple_literal-Ends (c ∷ s) = if-Ends (is_quoted (c ∷ s)) _ _ (ok-Ends _) (
    if-Ends (contained (to_lower (c ∷ s)) (codes "true" ∷ codes "false" ∷ [])) _ _ (ok-Ends _)
      (ok-Ends _))

pub exec_generic-Ends :
    (target : TextMap Text) (cred : Fields) (k m : Text) → Ends (exec_generic target cred k m)
unfolding exec_generic
exec_generic-Ends target cred k m =
    bind-Ends _ _ (key_work_formatter-Ends target (to_lower m)) by_format
  where
    by_literal :
        (s : Text) (l : Option Text)
        → Ends (elim l [
          | some test_value ↦ ok (text_eq (to_lower s) test_value)
          | none ↦
              if has_no_field cred then ok false else find_in_map (split b'.' k) s (object cred)
        ])
    by_literal s none =
        if-Ends (has_no_field cred) _ _ (ok-Ends _)
          (find_in_map-Ends (split b'.' k) s (object cred))
    by_literal s (some test_value) = ok-Ends _

    by_format :
        (f : Formatted)
        → Ends (elim f [
          | no_target ↦ ok false
          | formatted s ↦ simple_literal k >>= λ l. elim l [
            | some test_value ↦ ok (text_eq (to_lower s) test_value)
            | none ↦
                if has_no_field cred then ok false else find_in_map (split b'.' k) s (object cred)
          ]
        ])
    by_format no_target = ok-Ends _
    by_format (formatted s) = bind-Ends (simple_literal k) _ (simple_literal-Ends k) (by_literal s)
