-- ===== src/Jobs/Keeps.antt =====
-- Every turn of the executor keeps the invariant.
use pal_panel_host_wine.Prelude.{
  ℕ, suc, ◌≤◌, ◌<◌, ◌≡◌, ◌≢◌, refl, sym, ap, ◌∙◌, Bool, true, false, update, total-update_next,
  arith,
}
use pal_panel_host_wine.Jobs.{
  Class, general, lifecycle, interrupted_by_shutdown, Job, Phase, absent, acquiring, working, ended,
  Executor, is_terminal, update_failure, after_work, submit, acquire, can_acquire, refuse, report,
  release, finish, close, stop, Step, submits, acquires, refuses, reports, finishes, closes, stops,
  Steps, here, later, Reach,
}
use pal_panel_host_wine.Jobs.Invariant.{
  works, Inv, new_executor-Inv, after_work-terminal, below, fresh_still, settled_still,
  count_changed, untouched, written,
}

fresh_next :
    (e : Executor) (p : Phase)
    → ((i : ℕ) → e.next ≤ i → e.phase i ≡ absent)
    → (i : ℕ) → suc e.next ≤ i
    → update e.phase e.next p i ≡ absent
unfolding update
fresh_next e p h i le = ground (arith, h i)

not_ended : (c : Class) → acquiring c ≢ ended true
not_ended c h = cc

not_over : (c : Class) → working c ≢ ended true
not_over c h = cc

submit-Inv : {max : ℕ} (c : Class) (e : Executor) → Inv max e → Inv max (submit c e)
unfolding submit works
submit-Inv c e v = record {
  generals =
      total-update_next (works general) e.next e.phase (acquiring c) ∙ ground (arith, v.generals);
  room = v.room;
  lifecycles =
      total-update_next (works lifecycle) e.next e.phase (acquiring c)
      ∙ ground (arith, v.lifecycles);
  fresh = fresh_next e (acquiring c) v.fresh;
  settled =
      settled_still e e.next (acquiring c) _ (untouched e.table e.next _)
        (λ q. absurd (not_ended c q)) v.settled;
}

-- A goroutine with a phase has a number.
numbered :
    {max : ℕ} (e : Executor) (i : ℕ) (p : Phase)
    → Inv max e
    → p ≢ absent
    → e.phase i ≡ p
    → i < e.next
numbered e i p v ne h = below e i v (λ a. ne (sym h ∙ a))

acquiring_present : (c : Class) → acquiring c ≢ absent
acquiring_present c h = cc

working_present : (c : Class) → working c ≢ absent
working_present c h = cc

acquire-Inv :
    {max : ℕ} (i : ℕ) (c : Class) (e : Executor)
    → e.phase i ≡ acquiring c
    → can_acquire max c e ≡ true
    → Inv max e
    → Inv max (acquire i c e)
unfolding acquire can_acquire works
acquire-Inv i general e h g v =
    let lt = numbered e i (acquiring general) v (acquiring_present general) h in
    record {
      generals = omega (arith, count_changed general e i _ (working general) lt h, v.generals);
      room = ground (arith, g);
      lifecycles =
          ground (arith, count_changed lifecycle e i _ (working general) lt h, v.lifecycles);
      fresh = fresh_still e i (working general) lt v.fresh;
      settled =
          settled_still e i (working general) e.table (λ j n. refl)
            (λ q. absurd (not_over general q)) v.settled;
    }
acquire-Inv i lifecycle e h g v =
    let lt = numbered e i (acquiring lifecycle) v (acquiring_present lifecycle) h in
    record {
      generals = omega (arith, count_changed general e i _ (working lifecycle) lt h, v.generals);
      room = v.room;
      lifecycles =
          ground (arith, count_changed lifecycle e i _ (working lifecycle) lt h, v.lifecycles, g);
      fresh = fresh_still e i (working lifecycle) lt v.fresh;
      settled =
          settled_still e i (working lifecycle) e.table (λ j n. refl)
            (λ q. absurd (not_over lifecycle q)) v.settled;
    }

-- The row of a goroutine that ends, if the store has accepted.
ended_row :
    (table : ℕ → Job) (i : ℕ) (job : Bool → Job) (accepted : Bool)
    → is_terminal (job true).status ≡ true
    → ended accepted ≡ ended true
    → is_terminal (update table i (job accepted) i).status ≡ true
ended_row table i job true t q = rw (written table i (job true)) t
ended_row table i job false t q = absurd (no q)
  where
    no : ended false ≡ ended true → ⊥
    no q = cc

refuse-Inv :
    {max : ℕ} (i : ℕ) (c : Class) (accepted : Bool) (e : Executor)
    → e.phase i ≡ acquiring c
    → Inv max e
    → Inv max (refuse i accepted e)
unfolding refuse works
refuse-Inv i c accepted e h v =
    let lt = numbered e i (acquiring c) v (acquiring_present c) h in
    record {
      generals = ground (arith, count_changed general e i _ (ended accepted) lt h, v.generals);
      room = v.room;
      lifecycles =
          ground (arith, count_changed lifecycle e i _ (ended accepted) lt h, v.lifecycles);
      fresh = fresh_still e i (ended accepted) lt v.fresh;
      settled =
          settled_still e i (ended accepted) _ (untouched e.table i _)
            (ended_row e.table i (λ b. update_failure b interrupted_by_shutdown (e.table i))
              accepted (unfold update_failure in unfold is_terminal in refl))
            v.settled;
    }

report-Inv :
    {max : ℕ} (i : ℕ) (c : Class) (job : Job) (e : Executor)
    → e.phase i ≡ working c
    → Inv max e
    → Inv max (report i job e)
unfolding report
report-Inv i c job e h v = record {
  generals = v.generals;
  room = v.room;
  lifecycles = v.lifecycles;
  fresh = v.fresh;
  settled = λ j q. rw (untouched e.table i job j (other j q)) (v.settled j q);
}
  where
    other : (j : ℕ) → e.phase j ≡ ended true → i ≢ j
    other j q same = not_over c (sym h ∙ ap e.phase same ∙ q)

finish-Inv :
    {max : ℕ} (i : ℕ) (c : Class) (panicked accepted : Bool) (e : Executor)
    → e.phase i ≡ working c
    → Inv max e
    → Inv max (finish i c panicked accepted e)
unfolding finish release works
finish-Inv i general panicked accepted e h v =
    let lt = numbered e i (working general) v (working_present general) h in
    record {
      generals = omega (arith, count_changed general e i _ (ended accepted) lt h, v.generals);
      room = omega (arith, v.room);
      lifecycles =
          ground (arith, count_changed lifecycle e i _ (ended accepted) lt h, v.lifecycles);
      fresh = fresh_still e i (ended accepted) lt v.fresh;
      settled =
          settled_still e i (ended accepted) _ (untouched e.table i _)
            (ended_row e.table i (λ b. after_work panicked b e.stopped (e.table i)) accepted
              (after_work-terminal panicked e.stopped (e.table i)))
            v.settled;
    }
finish-Inv i lifecycle panicked accepted e h v =
    let lt = numbered e i (working lifecycle) v (working_present lifecycle) h in
    record {
      generals = omega (arith, count_changed general e i _ (ended accepted) lt h, v.generals);
      room = v.room;
      lifecycles =
          ground (arith, count_changed lifecycle e i _ (ended accepted) lt h, v.lifecycles);
      fresh = fresh_still e i (ended accepted) lt v.fresh;
      settled =
          settled_still e i (ended accepted) _ (untouched e.table i _)
            (ended_row e.table i (λ b. after_work panicked b e.stopped (e.table i)) accepted
              (after_work-terminal panicked e.stopped (e.table i)))
            v.settled;
    }

close-Inv : {max : ℕ} (e : Executor) → Inv max e → Inv max (close e)
unfolding close
close-Inv e v = record {
  generals = v.generals;
  room = v.room;
  lifecycles = v.lifecycles;
  fresh = v.fresh;
  settled = v.settled;
}

stop-Inv : {max : ℕ} (e : Executor) → Inv max e → Inv max (stop e)
unfolding stop
stop-Inv e v = record {
  generals = v.generals;
  room = v.room;
  lifecycles = v.lifecycles;
  fresh = v.fresh;
  settled = v.settled;
}

Step-Inv : {max : ℕ} {e f : Executor} → Step max e f → Inv max e → Inv max f
Step-Inv {e} (submits c h) v = submit-Inv c e v
Step-Inv {e} (acquires i c h g) v = acquire-Inv i c e h g v
Step-Inv {e} (refuses i c accepted h g) v = refuse-Inv i c accepted e h v
Step-Inv {e} (reports i c job h) v = report-Inv i c job e h v
Step-Inv {e} (finishes i c panicked accepted h) v = finish-Inv i c panicked accepted e h v
Step-Inv {e} closes v = close-Inv e v
Step-Inv {e} (stops h) v = stop-Inv e v

pub Steps-Inv : {max : ℕ} {e f : Executor} → Steps max e f → Inv max e → Inv max f
Steps-Inv here v = v
Steps-Inv (later r st) v = Step-Inv st (Steps-Inv r v)

pub Reach-Inv : {max : ℕ} {e : Executor} → Reach max e → Inv max e
Reach-Inv {max} r = Steps-Inv r (new_executor-Inv max)
