-- ===== src/Policy/Parse/Reductions.antt =====
-- api/pkg/policy/parser.go: the reductions, one by one, on any stack below the key.
use multi_cloud.Common.{◌≡◌, refl, List, [], ◌∷◌, none, arith}
use multi_cloud.Policy.Check.{
  Check, not_check, and_check, or_check, Checks, append_check, new_and_check, new_or_check,
}
use multi_cloud.Policy.Token.{
  Token, lparen, rparen, and_token, or_token, not_token, check_token, and_expr, or_expr, TokenValue,
  check,
}
use multi_cloud.Policy.Parse.{
  wrap_check, wrap_and, wrap_or, check_and_check, or_and_check, and_and_check, check_or_check,
  and_or_check, or_or_check, not_check_entry, ParseState, apply_entry, join_and,
}
use multi_cloud.Policy.Parse.Order.{all_entries, first_fit}
use multi_cloud.Policy.Parse.Settle.{push, Settles, Settles-done, Settles-step}
use multi_cloud.Policy.Parse.Meaning.{pop_check-append}

pub Settles-not :
    (c : Check) (v : TokenValue) (p q : ParseState)
    → Settles (push check_token (check (not_check c)) p) q
    → Settles (push check_token (check c) (push not_token v p)) q
Settles-not c v p q s =
    Settles-step not_check_entry _ (push check_token (check (not_check c)) p) q
      (unfold first_fit in refl) (unfold apply_entry in ground arith) (omega arith) s

pub Settles-and :
    (c d : Check) (v : TokenValue) (p q : ParseState)
    → Settles (push and_expr (check (new_and_check d c)) p) q
    → Settles (push check_token (check c) (push and_token v (push check_token (check d) p))) q
Settles-and c d v p q s =
    Settles-step check_and_check _ (push and_expr (check (new_and_check d c)) p) q
      (unfold first_fit in refl) (unfold apply_entry in ground arith) (omega arith) s

pub Settles-extend_and :
    (c : Check) (cs : Checks) (v : TokenValue) (p q : ParseState)
    → Settles (push and_expr (check (and_check (append_check cs c))) p) q
    → Settles
        (push check_token (check c) (push and_token v (push and_expr (check (and_check cs)) p)))
        q
Settles-extend_and c cs v p q s =
    Settles-step and_and_check _ (push and_expr (check (and_check (append_check cs c))) p) q
      (unfold first_fit in refl) (unfold apply_entry in ground arith) (omega arith) s

pub Settles-or :
    (c d : Check) (v : TokenValue) (p q : ParseState)
    → Settles (push or_expr (check (new_or_check d c)) p) q
    → Settles (push check_token (check c) (push or_token v (push check_token (check d) p))) q
Settles-or c d v p q s =
    Settles-step check_or_check _ (push or_expr (check (new_or_check d c)) p) q
      (unfold first_fit in refl) (unfold apply_entry in ground arith) (omega arith) s

pub Settles-and_or :
    (c d : Check) (v : TokenValue) (p q : ParseState)
    → Settles (push or_expr (check (new_or_check d c)) p) q
    → Settles (push check_token (check c) (push or_token v (push and_expr (check d) p))) q
Settles-and_or c d v p q s =
    Settles-step and_or_check _ (push or_expr (check (new_or_check d c)) p) q
      (unfold first_fit in refl) (unfold apply_entry in ground arith) (omega arith) s

pub Settles-extend_or :
    (c : Check) (cs : Checks) (v : TokenValue) (p q : ParseState)
    → Settles (push or_expr (check (or_check (append_check cs c))) p) q
    → Settles
        (push check_token (check c) (push or_token v (push or_expr (check (or_check cs)) p)))
        q
Settles-extend_or c cs v p q s =
    Settles-step or_or_check _ (push or_expr (check (or_check (append_check cs c))) p) q
      (unfold first_fit in refl) (unfold apply_entry in ground arith) (omega arith) s

-- The popped rule is joined with the check, and put back.
pub Settles-mix :
    (c d : Check) (cs : Checks) (v : TokenValue) (p q : ParseState)
    → Settles (push or_expr (check (or_check (append_check cs (join_and d c)))) p) q
    → Settles
        (push check_token
          (check c)
          (push and_token v (push or_expr (check (or_check (append_check cs d))) p)))
        q
Settles-mix c d cs v p q s =
    Settles-step or_and_check _ (push or_expr (check (or_check (append_check cs (join_and d c)))) p)
      q (unfold first_fit in refl) (unfold apply_entry in ground (arith, pop_check-append cs d))
      (omega arith) s

pub Settles-wrap_check :
    (c : Check) (u v : TokenValue) (p q : ParseState)
    → Settles (push check_token (check c) p) q
    → Settles (push rparen u (push check_token (check c) (push lparen v p))) q
Settles-wrap_check c u v p q s =
    Settles-step wrap_check _ (push check_token (check c) p) q (unfold first_fit in refl)
      (unfold apply_entry in ground arith) (omega arith) s

pub Settles-wrap_and :
    (c : Check) (u v : TokenValue) (p q : ParseState)
    → Settles (push check_token (check c) p) q
    → Settles (push rparen u (push and_expr (check c) (push lparen v p))) q
Settles-wrap_and c u v p q s =
    Settles-step wrap_and _ (push check_token (check c) p) q (unfold first_fit in refl)
      (unfold apply_entry in ground arith) (omega arith) s

pub Settles-wrap_or :
    (c : Check) (u v : TokenValue) (p q : ParseState)
    → Settles (push check_token (check c) p) q
    → Settles (push rparen u (push or_expr (check c) (push lparen v p))) q
Settles-wrap_or c u v p q s =
    Settles-step wrap_or _ (push check_token (check c) p) q (unfold first_fit in refl)
      (unfold apply_entry in ground arith) (omega arith) s

-- No key ends in any of these tokens.
abbrev pub IsQuiet : Token → Type 0
IsQuiet check_token = ⊥
IsQuiet rparen = ⊥
IsQuiet _ = Unit

pub IsQuiet-Settles :
    (t : Token) (v : TokenValue) (p : ParseState) → IsQuiet t → Settles (push t v p) (push t v p)
IsQuiet-Settles t v p h = Settles-done (push t v p) (quiet t h)
  where
    quiet : (u : Token) → IsQuiet u → first_fit all_entries (u ∷ p.tokens) ≡ none
    quiet u h = unfold first_fit in ground arith

-- Where a rule or the inside of parentheses begins.
abbrev pub IsStart : List Token → Type 0
IsStart [] = Unit
IsStart (lparen ∷ ts) = Unit
IsStart (_ ∷ ts) = ⊥

pub IsStart-Settles :
    (v : TokenValue) (p : ParseState)
    → IsStart p.tokens
    → Settles (push check_token v p) (push check_token v p)
IsStart-Settles v p h = Settles-done (push check_token v p) (start p.tokens h)
  where
    start : (ts : List Token) → IsStart ts → first_fit all_entries (check_token ∷ ts) ≡ none
    start [] h = unfold first_fit in refl
    start (lparen ∷ ts) h = unfold first_fit in refl
    start (_ ∷ ts) h = absurd h
