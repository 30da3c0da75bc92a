-- ===== src/Dataflow/Plans/Checked.antt =====
-- dataflow/pkg/plan/plan.go: what the tests of `Create` come to.
use multi_cloud.Common.{
  ℕ, suc, ◌≡◌, ◌∙◌, refl, ap, sym, arith, Bool, true, false, not, Text, Option, none, some,
  if◌then◌else◌, Bool-cases, text_eq, text_eq_refl, get_elem?, [], ◌∷◌, inl, inr,
}
use multi_cloud.Dataflow.Types.{Plan}
use multi_cloud.Dataflow.Connectors.{check_conn_validation}
use multi_cloud.Datamover.Types.{opensds, Connector}
use multi_cloud.Dataflow.Plans.{check_plan}
use multi_cloud.Dataflow.Connectors.{is_opensds, is_equal}
use multi_cloud.Dataflow.Updates.{name_char, match_name}

-- What the tests of `Create` come to.
abbrev pub HasNameChar : Text → Type 0
HasNameChar name = (i : ℕ) × (c : ℕ) × (get_elem? name i ≡ some c) × (name_char c ≡ true)

pub match_name-HasNameChar : (name : Text) → match_name name ≡ true → HasNameChar name
unfolding match_name
match_name-HasNameChar [] h = ground (arith, h)
match_name-HasNameChar (c ∷ s) h = elim (Bool-cases (name_char c)) [
  | inl yes_char ↦ (0, c, refl, yes_char)
  | inr no_char ↦
      let (i, d, at, fits) = match_name-HasNameChar s (ground (arith, h, no_char)) in
      (suc i, d, at, fits)
]

abbrev pub SameBucket : Connector → Connector → Type 0
SameBucket src dest =
    (src.type ≡ opensds) × (dest.type ≡ opensds) × (src.bucket_name ≡ dest.bucket_name)

pub is_equal-SameBucket :
    (src dest : Connector) → is_equal src dest ≡ false → ¬ (SameBucket src dest)
unfolding is_equal is_opensds
is_equal-SameBucket src dest h (src_own, dest_own, same) = ground (
  arith,
  h,
  ap is_opensds src_own,
  ap is_opensds dest_own,
  ap (text_eq src.bucket_name) (sym same) ∙ text_eq_refl src.bucket_name,
)

passed_all :
    (a b c d : Bool) (e f g h : Text)
    → ◌≡◌ {A = Option Text}
        (if not a
          then some e
          else if b
          then some f
          else if not c
          then some g
          else if not d
          then some h
          else none)
        none
    → (a ≡ true) × (b ≡ false) × (c ≡ true) × (d ≡ true)
passed_all false b c d e f g h r = ground (arith, r)
passed_all true true c d e f g h r = ground (arith, r)
passed_all true false false d e f g h r = ground (arith, r)
passed_all true false true false e f g h r = ground (arith, r)
passed_all true false true true e f g h r = (refl, refl, refl, refl)

pub check_plan_passed :
    (plan : Plan)
    → check_plan plan ≡ none
    → (match_name plan.name ≡ true)
      × (is_equal plan.source_conn plan.dest_conn ≡ false)
      × (check_conn_validation plan.source_conn ≡ true)
      × (check_conn_validation plan.dest_conn ≡ true)
unfolding check_plan
check_plan_passed plan h = passed_all _ _ _ _ _ _ _ _ h
