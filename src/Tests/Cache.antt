-- ===== src/Tests/Cache.antt =====
-- The cache theorems on a load that two requests share.
use pal_panel_host_wine.Prelude.{
  ℕ, ◌≡◌, refl, true, false, some, [], Bytes, codes, bytes_eq, put_key, update, List,
}
use pal_panel_host_wine.Cache.{
  loaded, failed, join, get, enter, enter_with, fresh, join_or_load, arrive, settle, loader_answer,
  waiter_answer,
}
use pal_panel_host_wine.Cache.Answers.{kept_or, failed_answer}
use pal_panel_host_wine.Cache.History.{
  Load, State, Write, initial, launched, Reach, start, enters, arrives, settles, result_writes,
  last_write, served, get-last_write,
}
use pal_panel_host_wine.Cache.Loads.{open_key, one_load, enter-join}

abbrev key : Bytes
key = codes "mods/a"

abbrev request : ℕ → State ℕ → State ℕ
request now s = record {
  cache = (enter now false key s.cache).0;
  loads = launched key (enter now false key s.cache).1 s.loads;
}

-- A request that loads, and a second one that joins it.
abbrev two_wait : State ℕ
two_wait = request 6 (request 5 initial)

two_wait-Reach : Reach two_wait []
two_wait-Reach = enters 6 false key (enters 5 false key start)

open_load : open_key (two_wait.loads 0) ≡ some key
unfolding open_key launched enter enter_with fresh join_or_load update put_key bytes_eq
open_load = refl

abbrev first : ℕ
first = 0

one_load_example : first ≡ first
one_load_example = one_load key first first two_wait-Reach open_load open_load

joined : (enter 7 true key two_wait.cache).1 ≡ join first
unfolding launched enter enter_with fresh join_or_load update put_key bytes_eq
joined = refl

enter-join_example : open_key (two_wait.loads first) ≡ some key
enter-join_example = enter-join 7 true key first two_wait-Reach joined

-- The load ends and is kept; then the keys of another prefix are dropped.
abbrev arrived_state : State ℕ
arrived_state = record {
  cache = arrive 0 (loaded 42) two_wait.cache;
  loads = update two_wait.loads 0 (Load.arrived key);
}

abbrev settled_state : State ℕ
settled_state = record {
  cache = settle 9 10 key (loaded 42) arrived_state.cache;
  loads = update arrived_state.loads 0 (Load.settled key);
}

is_loading : two_wait.loads 0 ≡ Load.loading key
unfolding launched enter enter_with fresh join_or_load update put_key bytes_eq
is_loading = refl

has_arrived : arrived_state.loads 0 ≡ Load.arrived key
unfolding update
has_arrived = refl

has_outcome : arrived_state.cache.calls 0 ≡ some (loaded 42)
unfolding arrive update
has_outcome = refl

abbrev settled_log : List (Write ℕ)
settled_log = result_writes 9 10 key (loaded 42) []

settled-Reach : Reach settled_state settled_log
settled-Reach =
    settles 9 10 0 key (loaded 42) has_arrived has_outcome
      (arrives 0 key (loaded 42) is_loading two_wait-Reach)

get-last_write_example : get 30 key settled_state.cache ≡ served 30 (last_write key settled_log)
get-last_write_example = get-last_write 30 key settled-Reach

failed_answer_example :
    (loader_answer 30 key (failed (codes "e")) settled_state.cache
      ≡ kept_or (codes "e") (last_write key settled_log))
    × (waiter_answer 30 key (failed (codes "e")) settled_state.cache
        ≡ kept_or (codes "e") (last_write key settled_log))
failed_answer_example = failed_answer 30 key (codes "e") settled-Reach
