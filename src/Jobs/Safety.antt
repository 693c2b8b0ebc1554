-- ===== src/Jobs/Safety.antt =====
-- How many jobs work at a time, and what a job that has ended leaves in the table.
use pal_panel_host_wine.Prelude.{
  ℕ, ◌≤◌, ◌≡◌, ◌≢◌, sym, ap, ◌∙◌, inl, inr, true, ◌==◌, Bool-cases, update, weight-le-total, arith,
}
use pal_panel_host_wine.Jobs.{
  general, lifecycle, absent, working, ended, Executor, is_terminal, capacity, Reach,
}
use pal_panel_host_wine.Jobs.Invariant.{works, count, Inv, below, count_changed}
use pal_panel_host_wine.Jobs.Keeps.{Reach-Inv}

-- In every state that the executor reaches, at most `maxConcurrent` general jobs are in their
-- work, or 4 if that is less than 1.
pub count-general-le :
    {e : Executor} (max_concurrent : ℕ)
    → Reach (capacity max_concurrent) e
    → count general e ≤ capacity max_concurrent
count-general-le max_concurrent r = let v = Reach-Inv r in omega (arith, v.generals, v.room)

-- With one lifecycle job taken out of the count, another one is still in it.
two_counted :
    {max : ℕ} (e : Executor) (i j : ℕ)
    → Inv max e
    → e.phase i ≡ working lifecycle
    → e.phase j ≡ working lifecycle
    → i ≢ j
    → 2 ≤ count lifecycle e
unfolding works
two_counted e i j v p q ne =
    let lt_i = below e i v (λ a. no (sym p ∙ a)) in
    let lt_j = below e j v (λ a. no (sym q ∙ a)) in
    let still : update e.phase i absent j ≡ working lifecycle = other ∙ q in
    omega (
      arith,
      count_changed lifecycle e i (working lifecycle) absent lt_i p,
      weight-le-total (works lifecycle) e.next (update e.phase i absent) j lt_j,
      ap (works lifecycle) still,
    )
  where
    no : working lifecycle ≡ absent → ⊥
    no h = cc

    other : update e.phase i absent j ≡ e.phase j
    other = unfold update in ground (arith, ne)

-- In every state that the executor reaches, two lifecycle jobs that are in their work are the same
-- job.
pub lifecycle_exclusive :
    {max : ℕ} {e : Executor} (i j : ℕ)
    → Reach max e
    → e.phase i ≡ working lifecycle
    → e.phase j ≡ working lifecycle
    → i ≡ j
lifecycle_exclusive {e} i j r p q = elim (Bool-cases (i == j)) [
  | inl same ↦ ground arith
  | inr other ↦
      let v = Reach-Inv r in
      absurd (ground (arith, two_counted e i j v p q (ground arith), v.lifecycles))
]

-- In every state that the executor reaches, the row of a job whose goroutine has ended is
-- completed, failed or cancelled, if the store accepted that goroutine's own calls: also after a
-- panic, a refusal at shutdown, or work that reported no end.
pub ended-is_terminal :
    {max : ℕ} {e : Executor} (i : ℕ)
    → Reach max e
    → e.phase i ≡ ended true
    → is_terminal (e.table i).status ≡ true
ended-is_terminal i r h = (Reach-Inv r).settled i h
