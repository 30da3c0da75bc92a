-- ===== src/Policy/Parse.antt =====
-- api/pkg/policy/parser.go: the shift-reduce parser. The two slices of `ParseState` are kept with
-- their last element first.
pub mod Order
pub mod Settle
pub mod Reductions
pub mod Operands
pub mod Meaning
pub mod Correct
pub mod Types
pub mod Total
pub mod Grammar
use multi_cloud.Common.{
  ℕ, zero, suc, ◌+◌, ◌<◌, ◌≡◌, refl, Bool, true, false, ◌&&◌, List, [], ◌∷◌, reverse, Text, Outcome,
  ok, panic, out_of_fuel, ◌>>=◌, ◌==◌, if◌then◌else◌, length, take, drop, is_empty, ltb,
}
use multi_cloud.Policy.Check.{
  Check, true_check, false_check, not_check, and_check, or_check, new_and_check, new_or_check,
  add_and, add_or, pop_check,
}
use multi_cloud.Policy.Token.{
  Token, lparen, rparen, and_token, or_token, not_token, string_token, check_token, and_expr,
  or_expr, TokenValue, word, check, TokenPair, parse_tokenize,
}

-- Tokens are compared as the strings that they stand for.
abbrev pub token_number : Token → ℕ
token_number lparen = 0
token_number rparen = 1
token_number and_token = 2
token_number or_token = 3
token_number not_token = 4
token_number string_token = 5
token_number check_token = 6
token_number and_expr = 7
token_number or_expr = 8

abbrev pub token_eq : Token → Token → Bool
token_eq a b = token_number a == token_number b

-- The entries of `ReduceFuncMap`, one for each key.
pub data Entry : Type 0 where
  wrap_check wrap_and wrap_or check_and_check or_and_check and_and_check check_or_check and_or_check
        or_or_check not_check_entry :
      Entry

-- The tokens of a key, the last one first.
abbrev pub key : Entry → List Token
key wrap_check = rparen ∷ check_token ∷ lparen ∷ []
key wrap_and = rparen ∷ and_expr ∷ lparen ∷ []
key wrap_or = rparen ∷ or_expr ∷ lparen ∷ []
key check_and_check = check_token ∷ and_token ∷ check_token ∷ []
key or_and_check = check_token ∷ and_token ∷ or_expr ∷ []
key and_and_check = check_token ∷ and_token ∷ and_expr ∷ []
key check_or_check = check_token ∷ or_token ∷ check_token ∷ []
key and_or_check = check_token ∷ or_token ∷ and_expr ∷ []
key or_or_check = check_token ∷ or_token ∷ or_expr ∷ []
key not_check_entry = check_token ∷ not_token ∷ []

-- `strings.HasSuffix(tokenStr, key)`: no name of a token has a comma, and none ends in another.
abbrev pub has_suffix : List Token → List Token → Bool
has_suffix ts [] = true
has_suffix [] (k ∷ ks) = false
has_suffix (t ∷ ts) (k ∷ ks) = token_eq t k && has_suffix ts ks

-- `v.(BaseCheck)`.
abbrev pub as_check : TokenValue → Outcome Check
as_check (check c) = ok c
as_check (word s) = panic

-- The functions of the map, on the arguments with the last one first. Every mismatch of a type
-- assertion or of the number of arguments is a panic.
unfoldable pub make_and_expr : List TokenValue → Outcome TokenPair
unfolding new_and_check
make_and_expr (c ∷ b ∷ a ∷ []) = do
  check1 ← as_check a
  check2 ← as_check c
  ok (and_expr, check (new_and_check check1 check2))
make_and_expr _ = panic

unfoldable pub make_or_expr : List TokenValue → Outcome TokenPair
unfolding new_or_check
make_or_expr (c ∷ b ∷ a ∷ []) = do
  check1 ← as_check a
  check2 ← as_check c
  ok (or_expr, check (new_or_check check1 check2))
make_or_expr _ = panic

unfoldable pub wrap : List TokenValue → Outcome TokenPair
wrap (c ∷ b ∷ a ∷ []) = as_check b >>= λ x. ok (check_token, check x)
wrap _ = panic

-- The last rule of the or-expression with the check behind an `and`.
unfoldable pub join_and : Check → Check → Check
unfolding add_and new_and_check
join_and (and_check rules) c = add_and rules c
join_and check1 c = new_and_check check1 c

unfoldable pub mix_or_and_expr : List TokenValue → Outcome TokenPair
unfolding pop_check add_or join_and
mix_or_and_expr (c ∷ b ∷ check (or_check rules) ∷ []) = do
  new ← as_check c
  popped ← pop_check rules
  ok (or_expr, check (add_or popped.0 (join_and popped.1 new)))
mix_or_and_expr _ = panic

unfoldable pub extend_and_expr : List TokenValue → Outcome TokenPair
unfolding add_and
extend_and_expr (c ∷ b ∷ check (and_check rules) ∷ []) =
    as_check c >>= λ check2. ok (and_expr, check (add_and rules check2))
extend_and_expr _ = panic

unfoldable pub extend_or_expr : List TokenValue → Outcome TokenPair
unfolding add_or
extend_or_expr (c ∷ b ∷ check (or_check rules) ∷ []) =
    as_check c >>= λ new. ok (or_expr, check (add_or rules new))
extend_or_expr _ = panic

unfoldable pub make_not_expr : List TokenValue → Outcome TokenPair
make_not_expr (c ∷ b ∷ []) = as_check c >>= λ x. ok (check_token, check (not_check x))
make_not_expr _ = panic

-- `ReduceFuncMap[key]`.
unfoldable pub reduce_func : Entry → List TokenValue → Outcome TokenPair
unfolding wrap make_and_expr mix_or_and_expr extend_and_expr make_or_expr extend_or_expr
    make_not_expr
reduce_func wrap_check args = wrap args
reduce_func wrap_and args = wrap args
reduce_func wrap_or args = wrap args
reduce_func check_and_check args = make_and_expr args
reduce_func or_and_check args = mix_or_and_expr args
reduce_func and_and_check args = extend_and_expr args
reduce_func check_or_check args = make_or_expr args
reduce_func and_or_check args = make_or_expr args
reduce_func or_or_check args = extend_or_expr args
reduce_func not_check_entry args = make_not_expr args

pub record ParseState : Type 0 where
  pub tokens : List Token
  pub values : List TokenValue

-- The body of the loop of `reduce` for an entry whose key fits: `p.values[argIdx:]` is out of range
-- if there are too few values.
unfoldable pub apply_entry : Entry → ParseState → Outcome ParseState
unfolding reduce_func
apply_entry e p =
    let n = length (key e) in
    if ltb (length p.values) n then panic else do
      r ← reduce_func e (take n p.values)
      ok (record { tokens = r.0 ∷ drop n p.tokens; values = r.1 ∷ drop n p.values })

-- The loop of `reduce` over the map in some order. `tokenStr` is computed before the loop and not
-- again after a reduction; `again` is the recursive call.
unfoldable pub reduce_loop :
    (ParseState → Outcome ParseState) → List Entry → List Token → ParseState → Outcome ParseState
unfolding apply_entry
reduce_loop again [] token_str p = ok p
reduce_loop again (e ∷ es) token_str p =
    if has_suffix token_str (key e)
    then apply_entry e p >>= (λ q. again q >>= (λ s. reduce_loop again es token_str s))
    else reduce_loop again es token_str p

-- `reduce`, with at most so many calls one within the other; `order` is the order in which the
-- range over the map visits its keys.
unfoldable pub reduce : ℕ → List Entry → ParseState → Outcome ParseState
unfolding reduce_loop
reduce zero order p = out_of_fuel
reduce (suc f) order p = reduce_loop (reduce f order) order p.tokens p

-- A reduction shortens the stack, so one call more than it has tokens is enough.
unfoldable pub shift : List Entry → TokenPair → ParseState → Outcome ParseState
unfolding reduce
shift order (tok, val) p =
    reduce (suc (suc (length p.tokens))) order
      (record { tokens = tok ∷ p.tokens; values = val ∷ p.values })

unfoldable pub shift_all : List Entry → List TokenPair → ParseState → Outcome ParseState
unfolding shift
shift_all order [] p = ok p
shift_all order (tp ∷ tps) p = shift order tp p >>= shift_all order tps

abbrev pub new_parse_state : ParseState
new_parse_state = record { tokens = []; values = [] }

-- `Result`, and the assertion `result.(BaseCheck)` of `parseRule`; an error makes a false check.
unfoldable pub result : ParseState → Outcome Check
result p = elim p.values [
  | [] ↦ ok false_check
  | v ∷ vs ↦ elim vs [ [] ↦ as_check v | w ∷ ws ↦ ok false_check ]
]

unfoldable pub parse_tokens : List Entry → List TokenPair → Outcome Check
unfolding shift_all result
parse_tokens order tps = shift_all order tps new_parse_state >>= result

unfoldable pub parse_rule : List Entry → Text → Outcome Check
unfolding parse_tokens parse_tokenize
parse_rule order rule =
    if is_empty rule then ok true_check else parse_tokens order (parse_tokenize rule)
