-- ===== src/Policy/Check.antt =====
-- api/pkg/policy/checks.go: the checks, the values of the credentials and the lookups in them.
use multi_cloud.Common.{
  ℕ, zero, suc, ◌+◌, ◌-◌, Bool, true, false, ◌&&◌, Option, none, some, List, [], ◌∷◌, Text, codes,
  text_eq, to_lower, Outcome, ok, panic, ◌>>=◌, ltb, leb, ◌==◌, if◌then◌else◌, length, take, drop,
}

-- A Go map with text keys; the first entry of a key is the one that counts.
abbrev pub TextMap {ℓ} : Type ℓ → Type ℓ
TextMap V = List (Text × V)

unfoldable pub lookup {ℓ} : {V : Type ℓ} → Text → TextMap V → Option V
lookup k [] = none
lookup k ((j, v) ∷ m) = if text_eq j k then some v else lookup k m

-- The implementations of `BaseCheck`. `NewTrueCheck` never sets the field of `TrueCheck`.
mutual
  pub data Check : Type 0 where
    false_check : Check
    true_check : Check
    not_check : Check → Check
    and_check : Checks → Check
    or_check : Checks → Check
    rule_check : Text → Text → Check
    role_check : Text → Text → Check
    generic_check : Text → Text → Check

  pub data Checks : Type 0 where
    nil : Checks
    cons : Check → Checks → Checks

-- `append(this.rules, rule)`.
unfoldable pub append_check : Checks → Check → Checks
append_check nil c = cons c nil
append_check (cons d ds) c = cons d (append_check ds c)

-- `AddCheck` of an `AndCheck` and of an `OrCheck`.
unfoldable pub add_and : Checks → Check → Check
unfolding append_check
add_and rules rule = and_check (append_check rules rule)

unfoldable pub add_or : Checks → Check → Check
unfolding append_check
add_or rules rule = or_check (append_check rules rule)

-- `NewAndCheck` and `NewOrCheck` add twice to an empty list.
unfoldable pub new_and_check : Check → Check → Check
unfolding add_and
new_and_check check1 check2 = add_and (append_check nil check1) check2

unfoldable pub new_or_check : Check → Check → Check
unfolding add_or
new_or_check check1 check2 = add_or (append_check nil check1) check2

-- The last rule of a non-empty list, and those before it.
unfoldable pub pop_from : Check → Checks → Checks × Check
pop_from c nil = (nil, c)
pop_from c (cons d ds) = let (rest, x) = pop_from d ds in (cons c rest, x)

-- `PopCheck`: an index out of range on an empty list.
unfoldable pub pop_check : Checks → Outcome (Checks × Check)
unfolding pop_from
pop_check nil = panic
pop_check (cons c cs) = ok (pop_from c cs)

-- The values of the credentials, an `interface{}`: `texts` is `[]string`, `slice` is
-- `[]interface{}`, and `other_slice` is a slice of any other kind.
mutual
  pub data Value : Type 0 where
    nil_value : Value
    text : Text → Value
    bool : Bool → Value
    object : Fields → Value
    slice : Values → Value
    texts : List Text → Value
    other_slice : Value
    other : Value

  pub data Values : Type 0 where
    end : Values
    item : Value → Values → Values

  pub data Fields : Type 0 where
    no_field : Fields
    field : Text → Value → Fields → Fields

-- `m[key]` with its `ok`.
unfoldable pub lookup_field : Text → Fields → Option Value
lookup_field k no_field = none
lookup_field k (field j v m) = if text_eq j k then some v else lookup_field k m

abbrev pub has_no_field : Fields → Bool
has_no_field no_field = true
has_no_field (field k v m) = false

abbrev sprint_bool : Bool → Text
sprint_bool true = codes "true"
sprint_bool false = codes "false"

-- `findInMap` at the end of the path.
unfoldable pub find_leaf : Text → Value → Bool
unfolding to_lower
find_leaf match (text t) = text_eq (to_lower match) (to_lower t)
find_leaf match (bool b) = text_eq (to_lower match) (sprint_bool b)
find_leaf match _ = false

-- The two loops of `findInMap` over a slice, with the call for one element.
unfoldable pub find_item : (Value → Outcome Bool) → Values → Outcome Bool
find_item find end = ok false
find_item find (item v vs) =
    let rest = find_item find vs in do b ← find v; if b then ok true else rest

unfoldable pub find_text : (Value → Outcome Bool) → List Text → Outcome Bool
find_text find [] = ok false
find_text find (t ∷ ts) =
    let rest = find_text find ts in do b ← find (text t); if b then ok true else rest

-- `testVal[key]`: a value that is no map ends the search, as a missing key does.
unfoldable pub value_at : Text → Value → Value
unfolding lookup_field
value_at key (object m) = elim (lookup_field key m) [ none ↦ nil_value | some v ↦ v ]
value_at key _ = nil_value

-- What `findInMap` does with the value at the key.
unfoldable pub find_below : (Value → Outcome Bool) → Value → Outcome Bool
unfolding find_item find_text
find_below find nil_value = ok false
find_below find (slice vs) = find_item find vs
find_below find (texts ts) = find_text find ts
find_below find other_slice = panic
find_below find v = find v

unfoldable pub find_in_map : List Text → Text → Value → Outcome Bool
unfolding find_leaf value_at find_below
find_in_map [] match v = ok (find_leaf match v)
find_in_map (key ∷ segs) match v = find_below (find_in_map segs match) (value_at key v)

-- `[[:graph:]]`.
abbrev pub is_graph : ℕ → Bool
is_graph c = leb 33 c && leb c 126

-- How many letters of the text belong to its longest start of graphic letters that ends in an `s`;
-- 0 if there is none.
unfoldable pub graph_to_s : Text → ℕ
graph_to_s [] = 0
graph_to_s (c ∷ s) =
    let more = graph_to_s s in
    if is_graph c then (if ltb 0 more then more + 1 else if c == b's' then 1 else 0) else 0

-- The length of the match of `%([[:graph:]]+)s` that starts at the head, 0 if there is none: after
-- the percent sign stand one graphic letter at least and the `s`.
unfoldable pub match_here : Text → ℕ
unfolding graph_to_s
match_here (c ∷ d ∷ s) =
    let n = graph_to_s s in if c == b'%' && is_graph d && ltb 0 n then n + 2 else 0
match_here _ = 0

-- `FindAllString(match, -1)`, with as many rounds as the text has letters.
unfoldable pub find_all : ℕ → Text → List Text
unfolding match_here
find_all zero s = []
find_all (suc f) [] = []
find_all (suc f) (c ∷ s) =
    let n = match_here (c ∷ s) in
    let found = take n (c ∷ s) ∷ find_all f (drop n (c ∷ s)) in
    let next = find_all f s in if ltb 0 n then found else next

pub data Formatted : Type 0 where
  formatted : Text → Formatted
  no_target : Formatted

-- `ms[0][2 : len(ms[0])-2]`, out of range for a match of three letters.
unfoldable pub strip_format : Text → Outcome Text
strip_format m = if ltb (length m) 4 then panic else ok (take (length m - 4) (drop 2 m))

unfoldable pub key_work_formatter : TextMap Text → Text → Outcome Formatted
unfolding find_all strip_format lookup
key_work_formatter target match = elim (find_all (length match) match) [
  | [] ↦ ok (formatted match)
  | m ∷ ms ↦ elim ms [
    | [] ↦ strip_format m >>= λ s.
        ok (elim (lookup s target) [ none ↦ no_target | some val ↦ formatted val ])
    | n ∷ ns ↦ ok (formatted match)
  ]
]
