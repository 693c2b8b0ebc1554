-- ===== src/Tests/Idempotency.antt =====
-- The idempotency theorems on a store with one running action.
use pal_panel_host_wine.Prelude.{
  ◌++◌, update, ℕ, ◌≡◌, refl, none, some, [], ◌∷◌, Bytes, codes, bytes_eq, if◌then◌else◌, arith,
  List,
}
use pal_panel_host_wine.Idempotency.{
  Entry, Store, Attempt, conflict, wait, run, find, begin, finish, await, admit, start, purge,
}
use pal_panel_host_wine.Idempotency.Valid.{IsValid, begin-IsValid}
use pal_panel_host_wine.Idempotency.Single.{Runs, begin_single, Runs-begin}
use pal_panel_host_wine.Idempotency.Replay.{reply_to, replay, rerun}
use pal_panel_host_wine.Idempotency.Trace.{Event, advance, history, launched, single_flight}

abbrev idle : Entry ℕ
idle = record { fingerprint = codes "f"; created_at = 10; outcome = none }

abbrev key : Bytes
key = codes "gm/k"

abbrev store : Store ℕ
store = record { entries = (key, 0) ∷ []; heap = λ _. idle; next = 2 }

store-IsValid : IsValid store
unfolding find
store-IsValid = record { distinct = (refl, tt); bounded = omega arith }

store-Runs : Runs store key 0
unfolding find bytes_eq
store-Runs = record { found = refl; pending = refl; old = omega arith }

begin_single_example :
    (begin 20 key (codes "g") store).1
    ≡ (if bytes_eq (codes "f") (codes "g") then wait 0 else conflict)
begin_single_example = begin_single 20 key (codes "g") store 0 store-IsValid store-Runs

begin-IsValid_example : IsValid (begin 20 (codes "gm/l") (codes "g") store).0
begin-IsValid_example = begin-IsValid 20 (codes "gm/l") (codes "g") store store-IsValid

Runs-begin_example : Runs (begin 20 (codes "gm/l") (codes "g") store).0 key 0
Runs-begin_example = Runs-begin 20 (codes "gm/l") (codes "g") key store 0 store-IsValid store-Runs

-- Two requests for one key, and one for another; the last event stands first.
abbrev events : List (Event ℕ)
events =
    Event.request 3 key (codes "f")
    ∷ Event.request 2 (codes "gm/l") (codes "f")
    ∷ Event.request 1 key (codes "f")
    ∷ []

running_key : (history events).running 0 ≡ some key
unfolding history advance begin purge find bytes_eq admit start update launched
running_key = refl

abbrev first_id : ℕ
first_id = 0

single_flight_example : first_id ≡ first_id
single_flight_example = single_flight events key first_id first_id running_key running_key

-- A request, the end of its action, and a request for another key.
abbrev first_request : List (Event ℕ)
first_request = Event.request 1 key (codes "f") ∷ []

abbrev other_request : List (Event ℕ)
other_request = Event.request 25 (codes "gm/l") (codes "f") ∷ []

abbrev all_events : List (Event ℕ)
all_events = other_request ++ Event.ending 20 60 0 (Attempt.returned 5) ∷ first_request

first_runs : (history first_request).running 0 ≡ some key
unfolding history advance begin purge find bytes_eq admit start update launched
first_runs = refl

first_fingerprint : ((history first_request).store.heap 0).fingerprint ≡ codes "f"
unfolding history advance begin purge find bytes_eq admit start update launched
first_fingerprint = refl

still_there : find key (history all_events).store.entries ≡ some 0
unfolding history advance begin purge find bytes_eq admit start update launched finish
still_there = refl

replay_example :
    ((begin 50 key (codes "f") (history all_events).store).1 ≡ wait 0)
    × (await 0 (begin 50 key (codes "f") (history all_events).store).0
        ≡ some (reply_to (Attempt.returned 5)))
replay_example =
    replay other_request first_request 20 60 50 0 key (codes "f") (Attempt.returned 5) first_runs
      first_fingerprint still_there (omega arith)

rerun_example :
    (begin 80 key (codes "g") (history all_events).store).1 ≡ run (history all_events).store.next
rerun_example =
    rerun other_request first_request 20 60 80 0 key (codes "g") (Attempt.returned 5) first_runs
      still_there (omega arith)
