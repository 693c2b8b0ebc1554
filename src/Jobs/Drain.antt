-- ===== src/Jobs/Drain.antt =====
-- No turn order blocks the executor for good: `Shutdown` can always come to its end.
use pal_panel_host_wine.Prelude.{
  ℕ, zero, suc, ◌+◌, ◌≤◌, ◌<◌, ◌≡◌, refl, sym, ap, ◌∙◌, inl, inr, Bool, true, false, ltb,
  Bool-cases, update, total, total-update, total-positive, weight-le-total, arith,
}
use pal_panel_host_wine.Jobs.{
  Class, general, lifecycle, Phase, absent, acquiring, working, ended, Executor, acquire,
  can_acquire, can_refuse, refuse, release, finish, capacity, Step, acquires, refuses, finishes,
  Steps, here, later, Reach,
}
use pal_panel_host_wine.Jobs.Invariant.{works, count, Inv}
use pal_panel_host_wine.Jobs.Keeps.{Steps-Inv, Reach-Inv}

-- Turns that a goroutine still needs at most.
unfoldable pub turns : Phase → ℕ
turns (acquiring c) = 2
turns (working c) = 1
turns _ = 0

abbrev left : Executor → ℕ
left e = total turns e.next e.phase

-- A goroutine that is in `acquire` or in its work.
unfoldable pub is_active : Phase → Bool
is_active (acquiring c) = true
is_active (working c) = true
is_active _ = false

left_changed :
    (e : Executor) (i : ℕ) (p q : Phase)
    → i < e.next
    → e.phase i ≡ p
    → total turns e.next (update e.phase i q) + turns p ≡ left e + turns q
left_changed e i p q lt h = rw (sym h) (total-update turns e.next e.phase i q lt)

-- A turn after which less is left.
abbrev Progress : ℕ → Executor → Type 0
Progress max e = (f : Executor) × Step max e f × (left f < left e)

finish_less :
    (e : Executor) (i : ℕ) (c : Class)
    → i < e.next
    → e.phase i ≡ working c
    → left (finish i c false true e) < left e
unfolding finish release turns
finish_less e i general lt h = omega (arith, left_changed e i (working general) (ended true) lt h)
finish_less e i lifecycle lt h =
    omega (arith, left_changed e i (working lifecycle) (ended true) lt h)

works_working : (c : Class) (p : Phase) → 0 < works c p → p ≡ working c
unfolding works
works_working general (working general) h = refl
works_working lifecycle (working lifecycle) h = refl
works_working general (working lifecycle) h = absurd (omega arith)
works_working lifecycle (working general) h = absurd (omega arith)
works_working general absent h = absurd (omega arith)
works_working lifecycle absent h = absurd (omega arith)
works_working general (acquiring c) h = absurd (omega arith)
works_working lifecycle (acquiring c) h = absurd (omega arith)
works_working general (ended b) h = absurd (omega arith)
works_working lifecycle (ended b) h = absurd (omega arith)

module _ {max : ℕ} (e : Executor) where
  finish-Progress : (i : ℕ) (c : Class) → i < e.next → e.phase i ≡ working c → Progress max e
  finish-Progress i c lt h =
      (finish i c false true e, finishes i c false true h, finish_less e i c lt h)

  -- A counted job can end.
  count-Progress : (c : Class) → 0 < count c e → Progress max e
  count-Progress c h =
      let (i, lt, some) = total-positive (works c) e.next e.phase h in
      finish-Progress i c lt (works_working c (e.phase i) some)

  -- With no job in its work, a goroutine gets through `acquire`, or is refused.
  acquire-Progress :
      (i : ℕ) (c : Class)
      → 0 < max
      → e.in_general ≡ 0
      → e.held ≡ false
      → i < e.next
      → e.phase i ≡ acquiring c
      → Progress max e
  unfolding can_acquire can_refuse turns acquire refuse
  acquire-Progress i general room free idle lt h = (
    acquire i general e,
    acquires i general h (ground arith),
    omega (arith, left_changed e i (acquiring general) (working general) lt h),
  )
  acquire-Progress i lifecycle room free idle lt h = elim (Bool-cases e.stopped) [
    | inl stopped ↦ (
      refuse i true e,
      refuses i lifecycle true h (ground arith),
      omega (arith, left_changed e i (acquiring lifecycle) (ended true) lt h),
    )
    | inr live ↦ (
      acquire i lifecycle e,
      acquires i lifecycle h (ground arith),
      omega (arith, left_changed e i (acquiring lifecycle) (working lifecycle) lt h),
    )
  ]

  idle-Progress :
      (i : ℕ) (p : Phase)
      → 0 < max
      → e.in_general ≡ 0
      → e.held ≡ false
      → i < e.next
      → e.phase i ≡ p
      → 0 < turns p
      → Progress max e
  unfolding turns
  idle-Progress i (acquiring c) room free idle lt h some = acquire-Progress i c room free idle lt h
  idle-Progress i (working c) room free idle lt h some = finish-Progress i c lt h
  idle-Progress i absent room free idle lt h some = absurd (omega arith)
  idle-Progress i (ended b) room free idle lt h some = absurd (omega arith)

  progress : 0 < max → Inv max e → 0 < left e → Progress max e
  progress room v some = elim (Bool-cases (ltb 0 e.in_general)) [
    | inl general_works ↦ count-Progress general (ground (arith, v.generals))
    | inr free ↦ elim (Bool-cases e.held) [
      | inl held ↦ count-Progress lifecycle (ground (arith, v.lifecycles, held))
      | inr idle ↦
          let (i, lt, turn) = total-positive turns e.next e.phase some in
          idle-Progress i (e.phase i) room (ground arith) idle lt refl turn
    ]
  ]

Steps-first : {max : ℕ} {e f g : Executor} → Step max e f → Steps max f g → Steps max e g
Steps-first st here = later here st
Steps-first st (later r last) = later (Steps-first st r) last

drain :
    {max : ℕ} (n : ℕ) (e : Executor)
    → 0 < max
    → Inv max e
    → left e ≤ n
    → (f : Executor) × Steps max e f × Inv max f × (left f ≡ 0)
drain zero e room v h = (e, here, v, omega arith)
drain (suc n) e room v h = elim (Bool-cases (ltb 0 (left e))) [
  | inl some ↦
      let (f, st, less) = progress e room v (ground arith) in
      let (g, r, w, done) = drain n f room (Steps-Inv (later here st) v) (omega arith) in
      (g, Steps-first st r, w, done)
  | inr done ↦ (e, here, v, ground arith)
]

capacity_positive : (max_concurrent : ℕ) → 0 < capacity max_concurrent
capacity_positive max_concurrent = ground arith

inactive : (p : Phase) → turns p ≡ 0 → is_active p ≡ false
unfolding turns is_active
inactive absent h = refl
inactive (acquiring c) h = absurd (omega arith)
inactive (working c) h = absurd (omega arith)
inactive (ended b) h = refl

-- From every state that the executor reaches, some sequence of turns leads to a state in which no
-- goroutine waits in `acquire` or works: whatever happened before, no goroutine is blocked for
-- good.
pub drains :
    {e : Executor} (max_concurrent : ℕ)
    → Reach (capacity max_concurrent) e
    → (f : Executor) × Steps (capacity max_concurrent) e f
      × ((i : ℕ) → is_active (f.phase i) ≡ false)
drains {e} max_concurrent r =
    let (f, steps, v, done) =
      drain (left e) e (capacity_positive max_concurrent) (Reach-Inv r) (omega arith) in
    (f, steps, λ i. all_ended f i v done)
  where
    all_ended :
        (f : Executor) (i : ℕ)
        → Inv (capacity max_concurrent) f
        → left f ≡ 0
        → is_active (f.phase i) ≡ false
    all_ended f i v done = elim (Bool-cases (ltb i f.next)) [
      | inl lt ↦
          inactive (f.phase i)
            (omega (arith, weight-le-total turns f.next f.phase i (ground arith)))
      | inr above ↦
          inactive (f.phase i) (ap turns (v.fresh i (ground arith)) ∙ (unfold turns in refl))
    ]
