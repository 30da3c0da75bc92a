-- ===== src/Policy/Enforcer/Load.antt =====
-- api/pkg/policy/policy.go: which rules the enforcer has once a policy file is loaded.
use mathlib.Core.Path.{subst, subst₂}
use multi_cloud.Common.{
  ◌≡◌, ◌≢◌, refl, sym, ap, ◌∙◌, Bool, true, false, not, ◌&&◌, List, [], ◌∷◌, ◌++◌, Option, none,
  some, Text, codes, text_eq, text_eq_sound, text_eq_refl, ok, arith, if◌then◌else◌, Bool-cases,
  Option-cases, inl, inr, bind-eq-ok, ok-injective, some_cancel,
}
use multi_cloud.Policy.Check.{TextMap, lookup, Check}
use multi_cloud.Policy.Parse.{Entry, parse_rule}
use multi_cloud.Policy.Enforcer.{
  DefaultRule, Enforcer, System, insert, add_defaults, parse_rules, new_rules, load_policy_file,
  load_directory, load_rules, is_some, ends_with,
}

-- Equality of texts as a test, from either side.
text_eq_trans : (a b c : Text) → text_eq a b ≡ true → text_eq a c ≡ text_eq b c
text_eq_trans a b c h = ap (λ x. text_eq x c) (text_eq_sound a b h)

text_eq_apart : (a b c : Text) → text_eq a b ≡ false → text_eq a c ≡ true → text_eq b c ≡ false
text_eq_apart a b c n y = elim (Bool-cases (text_eq b c)) [
  | inr o ↦ o
  | inl z ↦ ground (arith, text_eq_sound a c y, text_eq_sound b c z, text_eq_refl a)
]

pub lookup-insert {ℓ} :
    {A : Type ℓ} (k j : Text) (v : A) (m : TextMap A)
    → lookup j (insert k v m) ≡ (if text_eq k j then some v else lookup j m)
unfolding lookup insert
lookup-insert {A} k j v [] = refl
lookup-insert {A} k j v ((i, w) ∷ m) = elim (Bool-cases (text_eq i k)) [
  | inl y ↦ rw (y, text_eq_trans i k j y) (keep (text_eq k j) (some v) (some w) (lookup j m))
  | inr n ↦ elim (Bool-cases (text_eq i j)) [
    | inl z ↦ rw (n, z, text_eq_apart i k j n z)
    | inr o ↦ rw (n, o) (lookup-insert k j v m)
  ]
]
  where
    keep :
        (b : Bool) (x y z : Option A)
        → (if b then x else z) ≡ (if b then x else (if b then y else z))
    keep true x y z = refl
    keep false x y z = refl

lookup_eq {ℓ} :
    {V : Type ℓ} (a b : Text) (m : TextMap V) → text_eq a b ≡ true → lookup a m ≡ lookup b m
lookup_eq a b m h = ap (λ x. lookup x m) (text_eq_sound a b h)

-- The first default rule of the name.
default_of : Text → List DefaultRule → Option Text
default_of n [] = none
default_of n (d ∷ ds) = if text_eq d.name n then some d.check_str else default_of n ds

abbrev or_default : Option Text → Option Text → Option Text
or_default (some v) o = some v
or_default none o = o

-- The text of a rule: the file's, or else the default.
pub rule_text : Text → TextMap Text → List DefaultRule → Option Text
unfolding default_of
rule_text n m ds = or_default (lookup n m) (default_of n ds)

abbrev with_default : DefaultRule → TextMap Text → Option Text → TextMap Text
with_default d m o = elim o [ some v ↦ m | none ↦ insert d.name d.check_str m ]

rule_text_step :
    (n : Text) (m : TextMap Text) (d : DefaultRule) (ds : List DefaultRule)
    → rule_text n (with_default d m (lookup d.name m)) ds ≡ rule_text n m (d ∷ ds)
unfolding rule_text
rule_text_step n m d ds = elim (Option-cases (lookup d.name m)) [
  | inr (v, e) ↦ elim (Bool-cases (text_eq d.name n)) [
    | inl y ↦ rw (e, y, sym (lookup_eq d.name n m y) ∙ e)
    | inr o ↦ rw (e, o)
  ]
  | inl e ↦ elim (Bool-cases (text_eq d.name n)) [
    | inl y ↦ rw (e, lookup-insert d.name n d.check_str m, y, sym (lookup_eq d.name n m y) ∙ e)
    | inr o ↦ rw (e, lookup-insert d.name n d.check_str m, o)
  ]
]

add_defaults_step :
    (m : TextMap Text) (d : DefaultRule) (ds : List DefaultRule)
    → add_defaults m (d ∷ ds) ≡ add_defaults (with_default d m (lookup d.name m)) ds
unfolding add_defaults
add_defaults_step m d ds = refl

add_defaults_nil : (m : TextMap Text) → add_defaults m [] ≡ m
unfolding add_defaults
add_defaults_nil m = refl

lookup-add_defaults :
    (n : Text) (ds : List DefaultRule) (m : TextMap Text)
    → lookup n (add_defaults m ds) ≡ rule_text n m ds
unfolding rule_text
lookup-add_defaults n [] m = ap (lookup n) (add_defaults_nil m) ∙ or_none (lookup n m)
  where
    or_none : (o : Option Text) → o ≡ or_default o none
    or_none none = refl
    or_none (some v) = refl
lookup-add_defaults n (d ∷ ds) m =
    ap (lookup n) (add_defaults_step m d ds)
    ∙ (lookup-add_defaults n ds (with_default d m (lookup d.name m)) ∙ rule_text_step n m d ds)

-- What stands under a name once the texts are parsed.
abbrev pub ParsedFrom : List Entry → Option Text → Option Check → Type 0
ParsedFrom order none o = o ≡ none
ParsedFrom order (some t) o = (c : Check) × (parse_rule order t ≡ ok c) × (o ≡ some c)

parse_rules-ParsedFrom :
    (order : List Entry) (n : Text) (m : TextMap Text) {rules : TextMap Check}
    → parse_rules order m ≡ ok rules
    → ParsedFrom order (lookup n m) (lookup n rules)
unfolding parse_rules lookup
parse_rules-ParsedFrom order n [] h = ap (lookup n) (sym (ok-injective h))
parse_rules-ParsedFrom order n ((k, v) ∷ m) h =
    let (c, parsed, h') = bind-eq-ok (parse_rule order v) _ h in
    let (rest, parsed_rest, h'') = bind-eq-ok (parse_rules order m) _ h' in
    subst (λ rules. ParsedFrom order (if text_eq k n then some v else lookup n m) (lookup n rules))
      (ok-injective h'')
      (by_test (text_eq k n) c rest parsed (parse_rules-ParsedFrom order n m parsed_rest))
  where
    by_test :
        (b : Bool) (c : Check) (rest : TextMap Check)
        → parse_rule order v ≡ ok c
        → ParsedFrom order (lookup n m) (lookup n rest)
        → ParsedFrom order (if b then some v else lookup n m) (if b then some c else lookup n rest)
    by_test true c rest parsed h = (c, parsed, refl)
    by_test false c rest parsed h = h

-- Once a file is decoded and its rules are parsed, what stands under a name is the check that the
-- file's text of this name is parsed to; the text of the first default rule of the name, if the
-- file has none; and nothing, if no default has the name either.
pub new_rules-ParsedFrom :
    (sys : System) (order : List Entry) (content : Text) (defaults : List DefaultRule) (n : Text)
    {file : TextMap Text} {rules : TextMap Check}
    → sys.unmarshal content ≡ some file
    → new_rules sys order content defaults ≡ ok (some rules)
    → ParsedFrom order (rule_text n file defaults) (lookup n rules)
unfolding new_rules
new_rules-ParsedFrom sys order content defaults n {file} h run =
    let (rs, parsed, same) =
      bind-eq-ok (parse_rules order (add_defaults file defaults)) (λ r. ok (some r))
        (rw (h, new_rules) at run) in
    subst2 (lookup-add_defaults n defaults file) (ap (lookup n) (some_cancel (ok-injective same)))
      (parse_rules-ParsedFrom order n (add_defaults file defaults) parsed)
  where
    subst2 :
        {a b : Option Text} {x y : Option Check}
        → a ≡ b
        → x ≡ y
        → ParsedFrom order a x
        → ParsedFrom order b y
    subst2 p q h = subst₂ (ParsedFrom order) p q h

load_policy_file_loaded :
    (sys : System) (order : List Entry) (path : Text) (over_write : Bool) (e : Enforcer)
    → is_some e.rules ≡ true
    → load_policy_file sys order path false over_write e ≡ ok (e, true)
unfolding load_policy_file
load_policy_file_loaded sys order path over_write e h = rw h

load_directory_loaded :
    (sys : System) (order : List Entry) (path : Text) (files : List (Text × Bool)) (e : Enforcer)
    → is_some e.rules ≡ true
    → load_directory sys order path false files e ≡ ok (e, true)
unfolding load_directory
load_directory_loaded sys order path [] e h = refl
load_directory_loaded sys order path ((name, d) ∷ files) e h =
    elim (Bool-cases (not d && ends_with name (codes ".json"))) [
      | inl y ↦
          rw (y, load_policy_file_loaded sys order path false e h)
            (load_directory_loaded sys order path files e h)
      | inr n ↦ rw n (load_directory_loaded sys order path files e h)
    ]

-- Once there are rules, a load that is not forced changes nothing, whatever the files have become
-- since, as long as the policy path can still be listed.
pub load_rules_loaded :
    (sys : System) (order : List Entry) (e : Enforcer)
    → is_some e.rules ≡ true
    → sys.stat sys.policy_path ≢ none
    → sys.read_dir sys.policy_path ≢ none
    → load_rules sys order false e ≡ ok (e, true)
unfolding load_rules
load_rules_loaded sys order e h s d = elim (Option-cases (sys.stat sys.policy_path)) [
  | inl p ↦ absurd (s p)
  | inr (b, p) ↦ elim (Option-cases (sys.read_dir sys.policy_path)) [
    | inl q ↦ absurd (d q)
    | inr (files, q) ↦ rw (p, load_rules) (by_kind b files q)
  ]
]
  where
    by_kind :
        (b : Bool) (files : List (Text × Bool))
        → sys.read_dir sys.policy_path ≡ some files
        → (if b
            then elim (sys.read_dir sys.policy_path) [
              | none ↦ ok (e, false)
              | some fs ↦ load_directory sys order sys.policy_path false fs e
            ]
            else load_policy_file sys order sys.policy_path false e.over_write e)
          ≡ ok (e, true)
    by_kind true files q = rw q (load_directory_loaded sys order sys.policy_path files e h)
    by_kind false files q = load_policy_file_loaded sys order sys.policy_path e.over_write e h

fail_file :
    (sys : System) (order : List Entry) (path : Text) (e : Enforcer)
    → is_some e.rules ≡ false
    → sys.read_file path ≡ none
    → load_policy_file sys order path false false e ≡ ok (e, false)
unfolding load_policy_file
fail_file sys order path e h f = rw (h, f, load_policy_file)

fail_directory :
    (sys : System) (order : List Entry) (path : Text) (e : Enforcer) (name : Text)
    (before after : List (Text × Bool))
    → is_some e.rules ≡ false
    → sys.read_file path ≡ none
    → ends_with name (codes ".json") ≡ true
    → load_directory sys order path false (before ++ (name, false) ∷ after) e ≡ ok (e, false)
unfolding load_directory
fail_directory sys order path e name [] after h f j = rw (j, fail_file sys order path e h f)
fail_directory sys order path e name ((other, is_dir) ∷ before) after h f j =
    elim (Bool-cases (not is_dir && ends_with other (codes ".json"))) [
      | inl y ↦ rw (y, fail_file sys order path e h f)
      | inr n ↦ rw n (fail_directory sys order path e name before after h f j)
    ]

-- If the policy path is a directory, as `LoadRules` allows, the directory itself is read in place of
-- its files: since that is an error, no policy is loaded, and the call fails as soon as there is one
-- policy file in it.
pub load_rules_directory :
    (sys : System) (order : List Entry) (e : Enforcer) (name : Text)
    (before after : List (Text × Bool))
    → e.rules ≡ none
    → sys.stat sys.policy_path ≡ some true
    → sys.read_file sys.policy_path ≡ none
    → sys.read_dir sys.policy_path ≡ some (before ++ (name, false) ∷ after)
    → ends_with name (codes ".json") ≡ true
    → load_rules sys order false e ≡ ok (e, false)
unfolding load_rules
load_rules_directory sys order e name before after h d f l j =
    rw (d, l, load_rules)
      (fail_directory sys order sys.policy_path e name before after (ap is_some h) f j)
