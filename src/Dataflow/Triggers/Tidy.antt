-- ===== src/Dataflow/Triggers/Tidy.antt =====
-- dataflow/pkg/scheduler/trigger/crontrigger/crontrigger.go: which time tables a plan is run by.
use multi_cloud.Common.{
  ℕ, ◌+◌, ◌<◌, ◌≡◌, ◌∙◌, refl, ap, sym, arith, Text, text_eq, text_eq_sound, text_eq_refl, List, [],
  ◌∷◌, Option, none, some, All, Bool-cases, inl, inr, ◌⊎◌,
}
use multi_cloud.Common.Actions.{◌>>=◌}
use multi_cloud.Dataflow.Triggers.{
  Executer, Running, CronTrigger, put, start_with, remove_found, remove, add, update_by, update,
}
use multi_cloud.Dataflow.Triggers.TimeTables.{
  starts, time_tables, Owned, IsTidy, Sets, text_eq-cases, stop-time_tables, stop-Owned,
  unknown-time_tables, if_same, kept_of_put,
}

remove_found-Sets :
    (c : CronTrigger) (id : Text) (found : Option ℕ)
    → c.plans id ≡ found
    → IsTidy c
    → Sets c id [] (remove_found id found c)
unfolding remove_found
remove_found-Sets c id none e t = record {
  tidy = t;
  tables_of = λ j. if_same (text_eq id j) [] (time_tables j c.running) (λ is_j.
      ap (λ i. time_tables i c.running) (sym (text_eq_sound id j is_j))
      ∙ unknown-time_tables c.plans id e c.running t.owned);
}
remove_found-Sets c id (some h) e t = record {
  tidy = record {
    owned = stop-Owned c.plans id h t.apart e c.running t.owned;
    apart = λ i j k hi hj.
        t.apart i j k (kept_of_put c.plans id i k hi) (kept_of_put c.plans id j k hj);
    below = λ i k hi. t.below i k (kept_of_put c.plans id i k hi);
  };
  tables_of = stop-time_tables c.plans id h t.apart e c.running t.owned;
}

-- After a plan is removed no cron runs it, and every other plan is run as before.
pub remove-Sets : (c : CronTrigger) (id : Text) → IsTidy c → Sets c id [] (remove id c).0
unfolding remove
remove-Sets c id t = remove_found-Sets c id (c.plans id) refl t

put_cases :
    (plans : Text → Option ℕ) (id i : Text) (n k : ℕ)
    → put id (some n) plans i ≡ some k
    → ((id ≡ i) × (n ≡ k)) ⊎ (plans i ≡ some k)
put_cases plans id i n k e = elim (Bool-cases (text_eq id i)) [
  | inl same ↦ inl (text_eq_sound id i same, ground (arith, same, e))
  | inr other ↦ inr (ground (arith, other, e))
]

-- The map with a new cron in it.
module _ (c : CronTrigger) (id : Text) (t : IsTidy c) where
  new_apart :
      (i j : Text) (k : ℕ)
      → put id (some c.next) c.plans i ≡ some k
      → put id (some c.next) c.plans j ≡ some k
      → i ≡ j
  new_apart i j k hi hj = elim (put_cases c.plans id i c.next k hi) [
    | inl (is_i, at_i) ↦ elim (put_cases c.plans id j c.next k hj) [
      | inl (is_j, at_j) ↦ sym is_i ∙ is_j
      | inr old_j ↦ absurd (omega (arith, t.below j k old_j, at_i))
    ]
    | inr old_i ↦ elim (put_cases c.plans id j c.next k hj) [
      | inl (is_j, at_j) ↦ absurd (omega (arith, t.below i k old_i, at_j))
      | inr old_j ↦ t.apart i j k old_i old_j
    ]
  ]

  new_below : (i : Text) (k : ℕ) → put id (some c.next) c.plans i ≡ some k → k < c.next + 1
  new_below i k hi = elim (put_cases c.plans id i c.next k hi) [
    | inl (is_i, at_i) ↦ omega (arith, at_i)
    | inr old_i ↦ omega (arith, t.below i k old_i)
  ]

  -- Crons that do not run the plan are still found.
  others-Owned :
      (rs : List Running)
      → All (Owned c.plans) rs
      → time_tables id rs ≡ []
      → All (Owned (put id (some c.next) c.plans)) rs
  others-Owned [] all idle = tt
  others-Owned (r ∷ rs) ((exe, is_exe, e), all) idle = elim (text_eq-cases id exe.plan_id) [
    | inl same ↦ absurd (
        ground (
          arith,
          idle,
          ap (starts id) is_exe ∙ ap (λ i. text_eq i id) (sym same) ∙ text_eq_refl id,
        ))
    | inr (other, other') ↦ (
      (exe, is_exe, rw (other) e),
      others-Owned rs all (ground (arith, idle, ap (starts id) is_exe ∙ other')),
    )
  ]

module _ (cron_error : Text → Option Text) where
  -- What a plan is run by once a time table has been added: none, if it cannot be read.
  abbrev pub readable : Text → List Text
  readable properties = elim (cron_error properties) [ none ↦ properties ∷ [] | some e ↦ [] ]

  start_with-Sets :
      (c : CronTrigger) (id properties : Text) (exe : Executer) (error : Option Text)
      → IsTidy c
      → exe.plan_id ≡ id
      → time_tables id c.running ≡ []
      → Sets c id
          (elim error [ none ↦ properties ∷ [] | some e ↦ [] ])
          (start_with error c.next id properties
            (some exe)
            (record c { plans = put id (some c.next) c.plans; next = c.next + 1 })).0
  unfolding start_with
  start_with-Sets c id properties exe (some e) t mine idle = record {
    tidy = record {
      owned = others-Owned c id t c.running t.owned idle;
      apart = new_apart c id t;
      below = new_below c id t;
    };
    tables_of = λ j.
        if_same (text_eq id j) [] (time_tables j c.running)
          (λ is_j. ap (λ i. time_tables i c.running) (sym (text_eq_sound id j is_j)) ∙ idle);
  }
  start_with-Sets c id properties exe none t mine idle = record {
    tidy = record {
      owned = (
        (exe, refl, rw (ap (text_eq id) mine ∙ text_eq_refl id) refl),
        others-Owned c id t c.running t.owned idle,
      );
      apart = new_apart c id t;
      below = new_below c id t;
    };
    tables_of = λ j. elim (Bool-cases (text_eq id j)) [
      | inl is_j ↦ ground (
        arith,
        is_j,
        ap (λ i. text_eq i j) mine,
        ap (λ i. time_tables i c.running) (sym (text_eq_sound id j is_j)) ∙ idle,
      )
      | inr not_j ↦ ground (arith, not_j, ap (λ i. text_eq i j) mine)
    ];
  }

  -- A plan that no cron runs is run by its time table once that is added, if it can be read.
  pub add-Sets :
      (c : CronTrigger) (id properties : Text) (exe : Executer)
      → IsTidy c
      → exe.plan_id ≡ id
      → time_tables id c.running ≡ []
      → Sets c id (readable properties) (add cron_error id properties (some exe) c).0
  unfolding add
  add-Sets c id properties exe t mine idle =
      start_with-Sets c id properties exe (cron_error properties) t mine idle

  -- Whatever a plan was run by before, after an update it is run by the new time table alone, or by
  -- none if that cannot be read, and every other plan is run as before.
  pub update-Sets :
      (c : CronTrigger) (id properties : Text) (exe : Executer)
      → IsTidy c
      → exe.plan_id ≡ id
      → Sets c id (readable properties) (update cron_error id properties (some exe) c).0
  unfolding update update_by remove ◌>>=◌
  update-Sets c id properties exe t mine =
      let gone = remove_found-Sets c id (c.plans id) refl t in
      let added =
        add-Sets (remove_found id (c.plans id) c) id properties exe gone.tidy mine
          (rw (text_eq_refl id) at (gone.tables_of id)) in
      record {
        tidy = added.tidy;
        tables_of = λ j. ground (arith, added.tables_of j, gone.tables_of j);
      }
