-- ===== src/Idempotency/Trace.antt =====
-- Requests and endings in any order: the history of a store since the program started.
use pal_panel_host_wine.Prelude.{
  update, ℕ, ◌≡◌, ◌≢◌, refl, sym, Option, none, some, List, [], ◌∷◌, Bytes, ◌==◌, Bool-cases, inl,
  inr, arith,
}
use pal_panel_host_wine.Idempotency.{
  Store, Attempt, Decision, conflict, busy, wait, run, begin, finish,
}
use pal_panel_host_wine.Idempotency.Valid.{IsValid, begin-IsValid, finish-IsValid}
use pal_panel_host_wine.Idempotency.Single.{Runs, begin-Runs, Runs-begin, Runs-finish}

-- A request reaches the store, or an action ends. The times are arbitrary.
pub data Event (A : Type 0) : Type 0 where
  request : ℕ → Bytes → Bytes → Event A
  ending : ℕ → ℕ → ℕ → Attempt A → Event A

-- The store, and the key that each running action has been started for.
pub record State (A : Type 0) : Type 0 where
  pub store : Store A
  pub running : ℕ → Option Bytes

unfoldable pub launched : Bytes → Decision → (ℕ → Option Bytes) → ℕ → Option Bytes
launched key (run i) running = update running i (some key)
launched key (wait i) running = running
launched key conflict running = running
launched key busy running = running

spared :
    (running : ℕ → Option Bytes) (i j : ℕ) (k : Bytes)
    → update running i none j ≡ some k
    → (i ≢ j) × (running j ≡ some k)
unfolding update
spared running i j k e = elim (Bool-cases (i == j)) [
  | inl same ↦ absurd (ground (arith, e, same))
  | inr other ↦ (ground arith, (rw other at e))
]

module _ {A : Type 0} where
  abbrev pub initial : State A
  initial = record {
    store = record {
      entries = [];
      heap = λ _. record { fingerprint = []; created_at = 0; outcome = none };
      next = 0;
    };
    running = λ _. none;
  }

  abbrev pub ended : ℕ → ℕ → ℕ → Attempt A → State A → Option Bytes → State A
  ended now ttl i attempt s none = s
  ended now ttl i attempt s (some key) = record {
    store = finish now ttl i attempt s.store;
    running = update s.running i none;
  }

  -- Only a running action ends.
  unfoldable pub advance : Event A → State A → State A
  advance (request now key fingerprint) s =
      let (store, decision) = begin now key fingerprint s.store in
      record { store = store; running = launched key decision s.running }
  advance (ending now ttl i attempt) s = ended now ttl i attempt s (s.running i)

  -- The state after the events; the last event stands first.
  unfoldable pub history : List (Event A) → State A
  history [] = initial
  history (e ∷ es) = advance e (history es)

  pub record Holds (s : State A) : Type 0 where
    pub valid : IsValid s.store
    pub runs : (i : ℕ) (k : Bytes) → s.running i ≡ some k → Runs s.store k i

  launched-Runs :
      (k : Bytes) (s : Store A) (d : Decision) (running : ℕ → Option Bytes)
      → ((i : ℕ) → d ≡ run i → Runs s k i)
      → ((i : ℕ) (j : Bytes) → running i ≡ some j → Runs s j i)
      → (i : ℕ) (j : Bytes) → launched k d running i ≡ some j
      → Runs s j i
  unfolding launched update
  launched-Runs k s conflict running new old i j h = old i j h
  launched-Runs k s busy running new old i j h = old i j h
  launched-Runs k s (wait x) running new old i j h = old i j h
  launched-Runs k s (run x) running new old i j h = elim (Bool-cases (x == i)) [
    | inl same ↦
        let a : k ≡ j = ground (arith, h, same) in
        let b : x ≡ i = ground (arith, same) in rw (sym a) (rw (sym b) (new x refl))
    | inr other ↦ old i j (rw other at h)
  ]

  advance-Holds : (e : Event A) (s : State A) → Holds s → Holds (advance e s)
  unfolding advance
  advance-Holds (request now k f) s h = record {
    valid = begin-IsValid now k f s.store h.valid;
    runs =
        launched-Runs k (begin now k f s.store).0 (begin now k f s.store).1 s.running
          (begin-Runs now k f s.store)
          (λ i j e. Runs-begin now k f j s.store i h.valid (h.runs i j e));
  }
  advance-Holds (ending now ttl i a) s h = ended-Holds (s.running i)
    where
      others :
          (j : ℕ) (k : Bytes)
          → update s.running i none j ≡ some k
          → Runs (finish now ttl i a s.store) k j
      others j k e =
          let (ne, r) = spared s.running i j k e in
          Runs-finish now ttl a s.store i j k ne (h.runs j k r)

      ended-Holds : (o : Option Bytes) → Holds (ended now ttl i a s o)
      ended-Holds none = h
      ended-Holds (some k) = record {
        valid = finish-IsValid now ttl i a s.store h.valid;
        runs = others;
      }

  pub history-Holds : (es : List (Event A)) → Holds (history es)
  unfolding history
  history-Holds [] = record {
    valid = record { distinct = tt; bounded = omega arith };
    runs = λ i k h. absurd (cc);
  }
  history-Holds (e ∷ es) = advance-Holds e (history es) (history-Holds es)

  -- In every history of requests and endings, two running actions that were started for one key
  -- are the same action.
  pub single_flight :
      (es : List (Event A)) (k : Bytes) (i j : ℕ)
      → (history es).running i ≡ some k
      → (history es).running j ≡ some k
      → i ≡ j
  single_flight es k i j a b =
      let p = ((history-Holds es).runs i k a).found in
      let q = ((history-Holds es).runs j k b).found in cc
