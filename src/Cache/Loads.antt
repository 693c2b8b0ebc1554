-- ===== src/Cache/Loads.antt =====
-- One load at a time for each key, and who waits for it.
use pal_panel_host_wine.Prelude.{
  put_key, ℕ, suc, ◌≤◌, ◌≡◌, refl, sym, ap, ◌∙◌, inl, inr, Bool, true, Option, none, some, List,
  Bytes, bytes_eq, bytes_eq_iff, ◌==◌, if◌then◌else◌, Bool-cases, update, arith,
}
use pal_panel_host_wine.Cache.{
  loaded, failed, Cache, join, set, delete_prefix, fresh, join_or_load, enter_with, enter, arrive,
  settle,
}
use pal_panel_host_wine.Cache.History.{
  Load, unknown, loading, arrived, settled, State, Write, launched, Reach, start, enters, arrives,
  settles, sets, deletes,
}

-- The key of a load that has not settled.
unfoldable pub open_key : Load → Option Bytes
open_key (loading k) = some k
open_key (arrived k) = some k
open_key _ = none

-- The flights are the loads that have not settled.
record Inv (flights : Bytes → Option ℕ) (loads : ℕ → Load) (next : ℕ) : Type 0 where
  pub to : (k : Bytes) (i : ℕ) → flights k ≡ some i → open_key (loads i) ≡ some k
  pub from : (i : ℕ) (k : Bytes) → open_key (loads i) ≡ some k → flights k ≡ some i
  pub fresh : (i : ℕ) → next ≤ i → loads i ≡ unknown

-- A new load.
load-Inv :
    (flights : Bytes → Option ℕ) (loads : ℕ → Load) (next : ℕ) (key : Bytes)
    → flights key ≡ none
    → Inv flights loads next
    → Inv (put_key key (some next) flights) (update loads next (loading key)) (suc next)
unfolding put_key update open_key
load-Inv flights loads next key free v = record { to = to; from = from; fresh = fresh }
  where
    to :
        (k : Bytes) (i : ℕ)
        → (if bytes_eq key k then some next else flights k) ≡ some i
        → open_key (if next == i then loading key else loads i) ≡ some k
    to k i h = elim (Bool-cases (bytes_eq key k)) [
      | inl same ↦
          let e : some next ≡ some i = rw same at h in
          let n : next ≡ i = cc in
          let s : (next == i) ≡ true = ground arith in rw s (ap some ((bytes_eq_iff key k).0 same))
      | inr other ↦
          let old : open_key (loads i) ≡ some k = v.to k i (rw other at h) in
          elim (Bool-cases (next == i)) [
            | inl at_next ↦
                let n : next ≡ i = ground arith in
                let gone : loads i ≡ unknown = v.fresh i (omega arith) in
                absurd (closed (sym (ap open_key gone) ∙ old))
            | inr older ↦ rw older old
          ]
    ]
      where
        closed : {k : Bytes} → open_key unknown ≡ some k → ⊥
        closed h = cc

    from :
        (i : ℕ) (k : Bytes)
        → open_key (if next == i then loading key else loads i) ≡ some k
        → (if bytes_eq key k then some next else flights k) ≡ some i
    from i k h = elim (Bool-cases (next == i)) [
      | inl at_next ↦
          let e : some key ≡ some k = rw at_next at h in
          let c : bytes_eq key k ≡ true = (bytes_eq_iff key k).1 (cc) in
          rw c (ap some (ground arith))
      | inr older ↦
          let old : flights k ≡ some i = v.from i k (rw older at h) in
          elim (Bool-cases (bytes_eq key k)) [
            | inl same ↦
                let e : flights key ≡ some i = ap flights ((bytes_eq_iff key k).0 same) ∙ old in
                absurd (taken (sym free ∙ e))
            | inr other ↦ rw other old
          ]
    ]
      where
        taken : none ≡ some i → ⊥
        taken h = cc

    fresh : (i : ℕ) → suc next ≤ i → (if next == i then loading key else loads i) ≡ unknown
    fresh i h = ground (arith, v.fresh i)

-- A load that stays open under its key.
arrive-Inv :
    (flights : Bytes → Option ℕ) (loads : ℕ → Load) (next i : ℕ) (key : Bytes)
    → loads i ≡ loading key
    → Inv flights loads next
    → Inv flights (update loads i (arrived key)) next
unfolding update open_key
arrive-Inv flights loads next i key h v = record {
  to = λ k j e. same_open j ∙ v.to k j e;
  from = λ j k e. v.from j k (sym (same_open j) ∙ e);
  fresh = λ j le. fresh j le;
}
  where
    same_open : (j : ℕ) → open_key (if i == j then arrived key else loads j) ≡ open_key (loads j)
    same_open j = elim (Bool-cases (i == j)) [
      | inl same ↦
          let e : loads j ≡ loading key = ap loads (sym (the_same j same)) ∙ h in
          rw same (sym (ap open_key e))
      | inr other ↦ rw other refl
    ]
      where
        the_same : (j : ℕ) → (i == j) ≡ true → i ≡ j
        the_same j s = ground arith

    fresh : (j : ℕ) → next ≤ j → (if i == j then arrived key else loads j) ≡ unknown
    fresh j le = elim (Bool-cases (i == j)) [
      | inl same ↦
          let e : i ≡ j = ground arith in
          let gone : loads i ≡ unknown = v.fresh i (omega arith) in
          absurd (not_unknown (sym gone ∙ h))
      | inr other ↦ rw other (v.fresh j le)
    ]
      where
        not_unknown : unknown ≡ loading key → ⊥
        not_unknown e = cc

-- A load that settles leaves its flight.
settle-Inv :
    (flights : Bytes → Option ℕ) (loads : ℕ → Load) (next i : ℕ) (key : Bytes)
    → loads i ≡ arrived key
    → Inv flights loads next
    → Inv (put_key key none flights) (update loads i (settled key)) next
unfolding update put_key open_key
settle-Inv flights loads next i key h v = record { to = to; from = from; fresh = fresh }
  where
    flight : flights key ≡ some i
    flight = v.from i key (ap open_key h)

    to :
        (k : Bytes) (j : ℕ)
        → (if bytes_eq key k then none else flights k) ≡ some j
        → open_key (if i == j then settled key else loads j) ≡ some k
    to k j e = elim (Bool-cases (bytes_eq key k)) [
      | inl same ↦ absurd (no_flight (rw same at e))
      | inr other ↦
          let old : open_key (loads j) ≡ some k = v.to k j (rw other at e) in
          elim (Bool-cases (i == j)) [
            | inl this ↦
                let n : i ≡ j = ground arith in
                let o : some key ≡ some k =
                  sym (ap open_key h) ∙ ap (λ x. open_key (loads x)) n ∙ old in
                let q : bytes_eq key k ≡ true = (bytes_eq_iff key k).1 (cc) in absurd (cc)
            | inr else' ↦ rw else' old
          ]
    ]
      where
        no_flight : {j : ℕ} → none ≡ some j → ⊥
        no_flight e = cc

    from :
        (j : ℕ) (k : Bytes)
        → open_key (if i == j then settled key else loads j) ≡ some k
        → (if bytes_eq key k then none else flights k) ≡ some j
    from j k e = elim (Bool-cases (i == j)) [
      | inl this ↦ absurd (closed (rw this at e))
      | inr else' ↦
          let old : flights k ≡ some j = v.from j k (rw else' at e) in
          elim (Bool-cases (bytes_eq key k)) [
            | inl same ↦
                let both : some i ≡ some j =
                  sym flight ∙ ap flights ((bytes_eq_iff key k).0 same) ∙ old in
                let n : i ≡ j = cc in absurd (ground arith)
            | inr other ↦ rw other old
          ]
    ]
      where
        closed : none ≡ some k → ⊥
        closed e = cc

    fresh : (j : ℕ) → next ≤ j → (if i == j then settled key else loads j) ≡ unknown
    fresh j le = elim (Bool-cases (i == j)) [
      | inl same ↦
          let e : i ≡ j = ground arith in
          let gone : loads i ≡ unknown = v.fresh i (omega arith) in
          absurd (not_unknown (sym gone ∙ h))
      | inr other ↦ rw other (v.fresh j le)
    ]
      where
        not_unknown : unknown ≡ arrived key → ⊥
        not_unknown e = cc

module _ {A : Type 0} where
  -- The bookkeeping of a state.
  abbrev Holds : State A → Type 0
  Holds s = Inv s.cache.flights s.loads s.cache.next

  join_or_load-Inv :
      (key : Bytes) (s : State A) (o : Option ℕ)
      → s.cache.flights key ≡ o
      → Holds s
      → Holds (record {
        cache = (join_or_load key s.cache o).0;
        loads = launched key (join_or_load key s.cache o).1 s.loads;
      })
  unfolding join_or_load launched
  join_or_load-Inv key s (some i) e v = v
  join_or_load-Inv key s none e v = load-Inv s.cache.flights s.loads s.cache.next key e v

  enter_with-Inv :
      (key : Bytes) (s : State A) (o : Option A)
      → Holds s
      → Holds (record {
        cache = (enter_with key s.cache o).0;
        loads = launched key (enter_with key s.cache o).1 s.loads;
      })
  unfolding enter_with
  enter_with-Inv key s (some x) v = unfold launched in v
  enter_with-Inv key s none v = join_or_load-Inv key s (s.cache.flights key) refl v

  Reach-Inv : {s : State A} {log : List (Write A)} → Reach s log → Holds s
  unfolding enter arrive settle set delete_prefix
  Reach-Inv start = record {
    to = λ k i h. absurd (cc);
    from = λ i k h. (unfold open_key in absurd (cc));
    fresh = λ i h. refl;
  }
  Reach-Inv (enters {s} now refresh key r) =
      enter_with-Inv key s (fresh now refresh (s.cache.items key)) (Reach-Inv r)
  Reach-Inv (arrives {s} i key outcome h r) =
      arrive-Inv s.cache.flights s.loads s.cache.next i key h (Reach-Inv r)
  Reach-Inv (settles {s} now ttl i key (failed e) h q r) =
      settle-Inv s.cache.flights s.loads s.cache.next i key h (Reach-Inv r)
  Reach-Inv (settles {s} now ttl i key (loaded x) h q r) =
      settle-Inv s.cache.flights s.loads s.cache.next i key h (Reach-Inv r)
  Reach-Inv (sets now ttl key x r) = Reach-Inv r
  Reach-Inv (deletes prefix r) = Reach-Inv r

  -- In every history, two loads of one key that have started and not settled are the same load.
  pub one_load :
      {s : State A} {log : List (Write A)} (key : Bytes) (i j : ℕ)
      → Reach s log
      → open_key (s.loads i) ≡ some key
      → open_key (s.loads j) ≡ some key
      → i ≡ j
  one_load key i j r a b =
      let p = (Reach-Inv r).from i key a in let q = (Reach-Inv r).from j key b in cc

  join_or_load-join :
      (key : Bytes) (c : Cache A) (o : Option ℕ) (i : ℕ)
      → (join_or_load key c o).1 ≡ join i
      → o ≡ some i
  unfolding join_or_load
  join_or_load-join key c (some j) i h = let e : j ≡ i = cc in ap some e
  join_or_load-join key c none i h = absurd (cc)

  enter_with-join :
      (key : Bytes) (c : Cache A) (o : Option A) (i : ℕ)
      → (enter_with key c o).1 ≡ join i
      → c.flights key ≡ some i
  unfolding enter_with
  enter_with-join key c (some v) i h = absurd (cc)
  enter_with-join key c none i h = join_or_load-join key c (c.flights key) i h

  -- In every history, a request that waits for a load waits for a load of its own key that has
  -- started and not settled.
  pub enter-join :
      {s : State A} {log : List (Write A)} (now : ℕ) (refresh : Bool) (key : Bytes) (i : ℕ)
      → Reach s log
      → (enter now refresh key s.cache).1 ≡ join i
      → open_key (s.loads i) ≡ some key
  unfolding enter
  enter-join {s} now refresh key i r h =
      (Reach-Inv r).to key i
        (enter_with-join key s.cache (fresh now refresh (s.cache.items key)) i h)
