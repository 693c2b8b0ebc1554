-- ===== src/Jobs/Invariant.antt =====
-- What holds in every reachable state of the executor.
use pal_panel_host_wine.Prelude.{
  ℕ, ◌+◌, ◌≤◌, ◌<◌, ◌≡◌, ◌≢◌, refl, sym, inl, inr, Bool, true, false, ltb, ◌==◌, if◌then◌else◌,
  Bool-cases, update, total, total-update, arith,
}
use pal_panel_host_wine.Jobs.{
  Class, general, lifecycle, Job, Phase, absent, working, ended, Executor, new_executor,
  is_terminal, update_failure, ensure_terminal, after_work,
}

-- 1 for a job of the class in its work.
unfoldable pub works : Class → Phase → ℕ
works general (working general) = 1
works lifecycle (working lifecycle) = 1
works _ _ = 0

-- Jobs of the class that are in their work.
abbrev pub count : Class → Executor → ℕ
count c e = total (works c) e.next e.phase

pub record Inv (max : ℕ) (e : Executor) : Type 0 where
  pub generals : count general e ≡ e.in_general
  pub room : e.in_general ≤ max
  pub lifecycles : count lifecycle e ≡ (if e.held then 1 else 0)
  pub fresh : (i : ℕ) → e.next ≤ i → e.phase i ≡ absent
  pub settled : (i : ℕ) → e.phase i ≡ ended true → is_terminal (e.table i).status ≡ true

pub new_executor-Inv : (max : ℕ) → Inv max new_executor
unfolding total
new_executor-Inv max = record {
  generals = refl;
  room = omega arith;
  lifecycles = refl;
  fresh = λ i h. refl;
  settled = λ i h. absurd (cc);
}

-- The row behind the work is terminal once the store has accepted.
pub after_work-terminal :
    (panicked stopped : Bool) (job : Job)
    → is_terminal (after_work panicked true stopped job).status ≡ true
unfolding after_work ensure_terminal update_failure is_terminal
after_work-terminal true stopped job = refl
after_work-terminal false stopped job = elim (Bool-cases (is_terminal job.status)) [
  | inl t ↦ rw t t
  | inr f ↦ rw f refl
]

-- A goroutine that exists has a number below `next`.
pub below : {max : ℕ} (e : Executor) (i : ℕ) → Inv max e → e.phase i ≢ absent → i < e.next
below e i v h = elim (Bool-cases (ltb i e.next)) [
  | inl t ↦ ground arith
  | inr f ↦ absurd (h (v.fresh i (ground arith)))
]

module _ (e : Executor) (i : ℕ) (p : Phase) where
  pub fresh_still :
      i < e.next
      → ((j : ℕ) → e.next ≤ j → e.phase j ≡ absent)
      → (j : ℕ) → e.next ≤ j
      → update e.phase i p j ≡ absent
  unfolding update
  fresh_still lt h j le = ground (arith, h j)

  pub settled_still :
      (table : ℕ → Job)
      → ((j : ℕ) → i ≢ j → table j ≡ e.table j)
      → (p ≡ ended true → is_terminal (table i).status ≡ true)
      → ((j : ℕ) → e.phase j ≡ ended true → is_terminal (e.table j).status ≡ true)
      → (j : ℕ) → update e.phase i p j ≡ ended true
      → is_terminal (table j).status ≡ true
  unfolding update
  settled_still table others own h j q = elim (Bool-cases (i == j)) [
    | inl same ↦ let s : i ≡ j = ground arith in rw (sym s) (own (rw same at q))
    | inr other ↦ rw (others j (ground arith)) (h j (rw other at q))
  ]

-- How a write to a phase changes the counts.
pub count_changed :
    (c : Class) (e : Executor) (i : ℕ) (p q : Phase)
    → i < e.next
    → e.phase i ≡ p
    → total (works c) e.next (update e.phase i q) + works c p ≡ count c e + works c q
count_changed c e i p q lt h = rw (sym h) (total-update (works c) e.next e.phase i q lt)

pub untouched :
    (table : ℕ → Job) (i : ℕ) (job : Job) (j : ℕ) → i ≢ j → update table i job j ≡ table j
unfolding update
untouched table i job j ne = ground arith

pub written : (table : ℕ → Job) (i : ℕ) (job : Job) → update table i job i ≡ job
unfolding update
written table i job = ground arith
