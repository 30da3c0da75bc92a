-- ===== src/Dataflow/Scheduler/Pages.antt =====
-- dataflow/pkg/scheduler/scheduler.go: the loop over the pages.
use multi_cloud.Common.{
  ℕ, zero, suc, ◌+◌, ◌<◌, ◌≤◌, ◌≡◌, ◌∙◌, refl, ap, sym, arith, true, Text, List, [], ◌∷◌, ◌++◌,
  Bool, length, take, drop, Option,
}
use multi_cloud.Common.Actions.{Act, Result, done, failed, panicked, continue, ◌>>=◌, return}
use multi_cloud.Dataflow.Types.{Plan}
use multi_cloud.Dataflow.Driver.{Mongo}
use multi_cloud.Dataflow.Triggers.Manager.{Service}
use multi_cloud.Dataflow.Scheduler.{load_plan, load_each, load_page, load_pages}

suc_add : (m n : ℕ) → suc m + n ≡ suc (m + n)
suc_add m n = omega arith

module _ {A : Type 0} where
  take-append-drop : (n : ℕ) (xs : List A) → take n xs ++ drop n xs ≡ xs
  take-append-drop zero xs = refl
  take-append-drop (suc n) [] = refl
  take-append-drop (suc n) (x ∷ xs) = ap (λ ys. x ∷ ys) (take-append-drop n xs)

  drop-length-take : (n : ℕ) (xs : List A) → drop (length (take n xs)) xs ≡ drop n xs
  drop-length-take zero xs = refl
  drop-length-take (suc n) [] = refl
  drop-length-take (suc n) (x ∷ xs) = drop-length-take n xs

  drop_nil : (n : ℕ) → drop {A = A} n [] ≡ []
  drop_nil zero = refl
  drop_nil (suc n) = refl

  drop-drop : (m n : ℕ) (xs : List A) → drop (m + n) xs ≡ drop n (drop m xs)
  drop-drop zero n xs = ap (λ k. drop k xs) (omega arith)
  drop-drop (suc m) n [] = drop_nil (suc m + n) ∙ sym (drop_nil n)
  drop-drop (suc m) n (x ∷ xs) = ap (λ k. drop k (x ∷ xs)) (suc_add m n) ∙ drop-drop m n xs

  length-drop-le : (n : ℕ) (xs : List A) → length (drop n xs) ≤ length xs
  length-drop-le zero xs = omega arith
  length-drop-le (suc n) [] = omega arith
  length-drop-le (suc n) (x ∷ xs) = omega (arith, length-drop-le n xs)

module _ {W A B C : Type 0} where
  continue_assoc :
      (f : A → Act W B) (g : B → Act W C) (o : W × Result A)
      → continue g (continue f o) ≡ continue (λ a w. continue g (f a w)) o
  continue_assoc f g (w, done a) = refl
  continue_assoc f g (w, failed e) = refl
  continue_assoc f g (w, panicked) = refl

  pub bind_assoc :
      (act : Act W A) (f : A → Act W B) (g : B → Act W C) (w : W)
      → ((act >>= f) >>= g) w ≡ (act >>= λ a. f a >>= g) w
  unfolding ◌>>=◌
  bind_assoc act f g w = continue_assoc f g (act w)

module _ {W : Type 0} (db : Mongo W) (cron_error : Text → Option Text) where
  load_each-append :
      (ps qs : List Plan) {B : Type 0} (f : Unit {0} → Act (Service W) B) (s : Service W)
      → (load_each db cron_error (ps ++ qs) >>= f) s
        ≡ (load_each db cron_error ps >>= λ loaded. load_each db cron_error qs >>= f) s
  unfolding load_each ◌>>=◌
  load_each-append [] qs f s = refl
  load_each-append (p ∷ ps) qs f s =
      bind_assoc (load_plan db cron_error p) (λ loaded. load_each db cron_error (ps ++ qs)) f s
      ∙ (λ i. (load_plan db cron_error p >>= λ loaded w. load_each-append ps qs f w i) s)
      ∙ sym (
          bind_assoc (load_plan db cron_error p) (λ loaded. load_each db cron_error ps)
            (λ loaded. load_each db cron_error qs >>= f) s)

  -- One turn, by what is left at its offset.
  turn-load_each :
      (k offset : ℕ) (all rest : List Plan) (next : ℕ → Act (Service W) Bool) (s : Service W)
      → rest ≡ drop offset all
      → ((o : ℕ) (s : Service W)
          → length (drop o all) < length rest
          → next o s ≡ (load_each db cron_error (drop o all) >>= λ loaded. return true) s)
      → load_page db cron_error next offset (s, done (take (suc k) rest))
        ≡ (load_each db cron_error rest >>= λ loaded. return true) s
  unfolding load_page load_each ◌>>=◌
  turn-load_each k offset all [] next s e go = refl
  turn-load_each k offset all (p ∷ ps) next s e go =
      let page = p ∷ take k ps in
      let o = offset + length page in
      let left : drop o all ≡ drop k ps =
        drop-drop offset (length page) all
        ∙ ap (drop (length page)) (sym e)
        ∙ drop-length-take k ps in
      (λ i.
        (load_each db cron_error page >>= λ loaded w.
        (go o w (omega (arith, ap length left, length-drop-le k ps))
            ∙ ap (λ qs. (load_each db cron_error qs >>= λ loaded. return true) w) left)
          i)
          s)
      ∙ sym (load_each-append page (drop k ps) (λ loaded. return true) s)
      ∙ ap (λ qs. (load_each db cron_error (p ∷ qs) >>= λ loaded. return true) s)
          (take-append-drop k ps)

  load_pages-left :
      (pages : ℕ → Act (Service W) (List Plan)) (k : ℕ) (all : List Plan)
      → ((offset : ℕ) (s : Service W) → pages offset s ≡ (s, done (take (suc k) (drop offset all))))
      → (turns offset : ℕ) (s : Service W) → length (drop offset all) < turns
      → load_pages db cron_error pages turns offset s
        ≡ (load_each db cron_error (drop offset all) >>= λ loaded. return true) s
  unfolding load_pages
  load_pages-left pages k all paged zero offset s enough = absurd (omega arith)
  load_pages-left pages k all paged (suc turns) offset s enough =
      ap (load_page db cron_error (load_pages db cron_error pages turns) offset) (paged offset s)
      ∙ turn-load_each k offset all (drop offset all) (load_pages db cron_error pages turns) s refl
          (λ o w less. load_pages-left pages k all paged turns o w (omega arith))

  -- If the listing gives the plans page by page, of any positive length, and leaves the world as it
  -- is, then the loop ends after at most one more turn than there are plans, and has then loaded every
  -- plan once and in order, as one pass over all of them does; only a panic stops it before.
  pub load_pages-load_each :
      (pages : ℕ → Act (Service W) (List Plan)) (limit : ℕ) (all : List Plan)
      → 0 < limit
      → ((offset : ℕ) (s : Service W) → pages offset s ≡ (s, done (take limit (drop offset all))))
      → (turns : ℕ) (s : Service W) → length all < turns
      → load_pages db cron_error pages turns 0 s
        ≡ (load_each db cron_error all >>= λ loaded. return true) s
  load_pages-load_each pages zero all positive paged turns s enough = absurd (omega arith)
  load_pages-load_each pages (suc k) all positive paged turns s enough =
      load_pages-left pages k all paged turns 0 s enough
