-- ===== src/Dataflow/Triggers/TimeTables.antt =====
-- dataflow/pkg/scheduler/trigger/crontrigger: the time tables by which the crons run a plan.
use multi_cloud.Common.{
  ℕ, ◌<◌, ◌==◌, ◌≡◌, ◌∙◌, refl, ap, sym, arith, Bool, true, false, Text, text_eq, text_eq_sound,
  text_eq_refl, List, [], ◌∷◌, Option, none, some, if◌then◌else◌, All, Bool-cases, inl, inr, ==_iff,
  ◌⊎◌,
}
use multi_cloud.Dataflow.Triggers.{Executer, Running, CronTrigger, put, stop}

abbrev pub starts : Text → Option Executer → Bool
starts id none = false
starts id (some exe) = text_eq exe.plan_id id

-- The time tables by which the crons that have not been stopped run a plan.
abbrev pub time_tables : Text → List Running → List Text
time_tables id [] = []
time_tables id (r ∷ rs) =
    let rest = time_tables id rs in if starts id r.executer then r.properties ∷ rest else rest

-- The cron runs a plan that has it in the map.
abbrev pub Owned : (Text → Option ℕ) → Running → Type 0
Owned plans r = (exe : Executer) × (r.executer ≡ some exe) × (plans exe.plan_id ≡ some r.handle)

-- Every cron that runs can be found by its plan, so that it can be stopped, and no two plans share one.
pub record IsTidy (c : CronTrigger) : Type 0 where
  pub owned : All (Owned c.plans) c.running
  pub apart : (i j : Text) (h : ℕ) → c.plans i ≡ some h → c.plans j ≡ some h → i ≡ j
  pub below : (i : Text) (h : ℕ) → c.plans i ≡ some h → h < c.next

-- The call leaves the crons tidy; a plan has these time tables, and every other has those it had.
pub record Sets (c : CronTrigger) (id : Text) (tables : List Text) (c' : CronTrigger) : Type 0 where
  pub tidy : IsTidy c'
  pub tables_of :
      (j : Text)
      → time_tables j c'.running ≡ (if text_eq id j then tables else time_tables j c.running)

-- Two texts are the same or not.
pub text_eq-cases : (a b : Text) → (a ≡ b) ⊎ ((text_eq a b ≡ false) × (text_eq b a ≡ false))
text_eq-cases a b = elim (Bool-cases (text_eq a b)) [
  | inl e ↦ inl (text_eq_sound a b e)
  | inr e ↦ elim (Bool-cases (text_eq b a)) [
    | inl e' ↦ inl (sym (text_eq_sound b a e'))
    | inr e' ↦ inr (e, e')
  ]
]

-- What a stopped cron was for.
module _ (plans : Text → Option ℕ) (id : Text) (h : ℕ)
    (apart : (i j : Text) (h : ℕ) → plans i ≡ some h → plans j ≡ some h → i ≡ j)
    (here : plans id ≡ some h) where
  handle_mine :
      (r : Running) (exe : Executer)
      → plans exe.plan_id ≡ some r.handle
      → exe.plan_id ≡ id
      → (r.handle == h) ≡ true
  handle_mine r exe e same = ground (arith, ap plans same, here, e)

  handle_other :
      (r : Running) (exe : Executer)
      → plans exe.plan_id ≡ some r.handle
      → text_eq exe.plan_id id ≡ false
      → (r.handle == h) ≡ false
  handle_other r exe e other = elim (Bool-cases (r.handle == h)) [
    | inl eq ↦
        let same : exe.plan_id ≡ id =
          apart exe.plan_id id h (e ∙ ap some ((==_iff r.handle h).0 eq)) here in
        ground (arith, other, text_eq_refl id, ap (λ i. text_eq i id) same)
    | inr ne ↦ ne
  ]

  pub stop-time_tables :
      (rs : List Running)
      → All (Owned plans) rs
      → (j : Text) → time_tables j (stop h rs) ≡ (if text_eq id j then [] else time_tables j rs)
  unfolding stop
  stop-time_tables [] all j = ground arith
  stop-time_tables (r ∷ rs) ((exe, is_exe, e), all) j = elim (text_eq-cases exe.plan_id id) [
    | inl same ↦ ground (
      arith,
      handle_mine r exe e same,
      stop-time_tables rs all j,
      ap (starts j) is_exe ∙ ap (λ i. text_eq i j) same,
    )
    | inr (other, other') ↦ elim (text_eq-cases id j) [
      | inl is_j ↦ ground (
        arith,
        handle_other r exe e other,
        stop-time_tables rs all j,
        ap (starts j) is_exe ∙ ap (text_eq exe.plan_id) (sym is_j) ∙ other,
      )
      | inr (not_j, not_j') ↦ ground (arith, handle_other r exe e other, stop-time_tables rs all j)
    ]
  ]

  -- The crons that go on are those of the other plans.
  pub stop-Owned :
      (rs : List Running) → All (Owned plans) rs → All (Owned (put id none plans)) (stop h rs)
  unfolding stop
  stop-Owned [] all = tt
  stop-Owned (r ∷ rs) ((exe, is_exe, e), all) = elim (text_eq-cases id exe.plan_id) [
    | inl same ↦ rw (handle_mine r exe e (sym same)) (stop-Owned rs all)
    | inr (other, other') ↦
        rw (handle_other r exe e other') ((exe, is_exe, rw (other) e), stop-Owned rs all)
  ]

-- A plan that is not in the map is run by no cron.
pub unknown-time_tables :
    (plans : Text → Option ℕ) (id : Text)
    → plans id ≡ none
    → (rs : List Running) → All (Owned plans) rs
    → time_tables id rs ≡ []
unknown-time_tables plans id unknown [] all = refl
unknown-time_tables plans id unknown (r ∷ rs) ((exe, is_exe, e), all) =
    elim (text_eq-cases exe.plan_id id) [
      | inl same ↦ absurd (ground (arith, ap plans same, unknown, e))
      | inr (other, other') ↦
          rw (ap (starts id) is_exe ∙ other) (unknown-time_tables plans id unknown rs all)
    ]

pub if_same : (b : Bool) (xs ys : List Text) → (b ≡ true → ys ≡ xs) → ys ≡ (if b then xs else ys)
if_same true xs ys e = e refl
if_same false xs ys e = refl

pub kept_of_put :
    (plans : Text → Option ℕ) (id i : Text) (k : ℕ)
    → put id none plans i ≡ some k
    → plans i ≡ some k
kept_of_put plans id i k e = ground (arith, e)
