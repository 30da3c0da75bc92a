-- ===== src/Policy/Token.antt =====
-- api/pkg/policy/parser.go: `parseCheck` and `parseTokenize`.
use multi_cloud.Common.{
  ◌-◌, none, some, List, [], ◌∷◌, ◌++◌, Option, Text, codes, text_eq, to_lower, trim_left,
  trim_right, fields, cut_at, is_empty, if◌then◌else◌, length, replicate,
}
use multi_cloud.Policy.Check.{
  TextMap, lookup, Check, false_check, true_check, rule_check, role_check, generic_check,
}
use multi_cloud.Policy.Exec.{is_quoted, unquote}

-- `registeredChecks` after `registerAll`.
abbrev registered_checks : TextMap (Text → Text → Check)
registered_checks =
    (codes "rule", rule_check) ∷ (codes "role", role_check) ∷ (codes "generic", generic_check) ∷ []

unfoldable pub parse_check : Text → Check
unfolding cut_at lookup
parse_check rule =
    if text_eq rule (codes "!")
    then false_check
    else if text_eq rule (codes "@")
    then true_check
    else elim (cut_at b':' rule) [
      | none ↦ false_check
      | some (kind, match) ↦ elim (lookup kind registered_checks) [
        | some check ↦ check kind match
        | none ↦ elim (lookup (codes "generic") registered_checks) [
          | some check ↦ check kind match
          | none ↦ false_check
        ]
      ]
    ]

-- The names that a `TokenPair` may have as its token, those of the parser's reductions included.
pub data Token : Type 0 where
  lparen rparen and_token or_token not_token string_token check_token and_expr or_expr : Token

-- The value of a token: a text, or a check.
pub data TokenValue : Type 0 where
  word : Text → TokenValue
  check : Check → TokenValue

abbrev pub TokenPair : Type 0
TokenPair = Token × TokenValue

-- The keyword that a lowered text is.
unfoldable pub keyword : Text → Option Token
keyword s =
    if text_eq s (codes "and")
    then some and_token
    else if text_eq s (codes "or")
    then some or_token
    else if text_eq s (codes "not")
    then some not_token
    else none

-- The token of a word without its parentheses: a quoted text is told by the word with the trailing
-- parentheses, `tok`, and everything else by the word without them, `clean`.
unfoldable pub word_token : Text → Text → List TokenPair
unfolding keyword parse_check is_quoted unquote to_lower
word_token tok clean = elim (keyword (to_lower clean)) [
  | some t ↦ (t, word clean) ∷ []
  | none ↦
      if is_empty clean
      then []
      else if is_quoted tok
      then (string_token, word (unquote tok)) ∷ []
      else (check_token, check (parse_check clean)) ∷ []
]

abbrev pub open_paren : TokenPair
open_paren = (lparen, word (codes "("))

abbrev pub close_paren : TokenPair
close_paren = (rparen, word (codes ")"))

-- One round of the loop of `parseTokenize`.
unfoldable pub tokenize_field : Text → List TokenPair
unfolding trim_left trim_right word_token
tokenize_field tok =
    let tok' = trim_left b'(' tok in
    let clean = trim_right b')' tok' in
    let opening = replicate (length tok - length tok') open_paren in
    if is_empty tok'
    then opening
    else opening ++ (word_token tok' clean ++ replicate (length tok' - length clean) close_paren)

unfoldable pub tokenize_fields : List Text → List TokenPair
unfolding tokenize_field
tokenize_fields [] = []
tokenize_fields (tok ∷ toks) = tokenize_field tok ++ tokenize_fields toks

unfoldable pub parse_tokenize : Text → List TokenPair
unfolding tokenize_fields fields
parse_tokenize rule = tokenize_fields (fields rule)
