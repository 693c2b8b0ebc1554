-- ===== src/Cache/History.antt =====
-- Requests, loads and invalidations in any order, and the abstract cache that they implement: the
-- last write of each key.
use pal_panel_host_wine.Prelude.{
  put_key, ℕ, ◌+◌, ◌≡◌, refl, ap, ◌∙◌, Bool, Option, none, some, List, [], ◌∷◌, Bytes, bytes_eq,
  has_prefix, ltb, if◌then◌else◌, update,
}
use pal_panel_host_wine.Cache.{
  CacheStatus, hit, stale, Item, Outcome, loaded, failed, Cache, Entry, found, join, load,
  new_cache, get, set, delete_prefix, fresh, join_or_load, enter_with, enter, arrive, settle,
}

-- What is known of a load: the key it was started for, and how far it has come.
pub data Load : Type 0 where
  unknown : Load
  loading arrived settled : Bytes → Load

-- What a turn does to the abstract cache.
pub data Write (A : Type 0) : Type 0 where
  writes : Bytes → Item A → Write A
  drops : Bytes → Write A

pub record State (A : Type 0) : Type 0 where
  pub cache : Cache A
  pub loads : ℕ → Load

module _ {A : Type 0} where
  abbrev pub initial : State A
  initial = record { cache = new_cache; loads = λ _. unknown }

  unfoldable pub launched : Bytes → Entry A → (ℕ → Load) → ℕ → Load
  launched key (found v) loads = loads
  launched key (join i) loads = loads
  launched key (load i) loads = update loads i (loading key)

  -- What a load's end writes.
  unfoldable pub result_writes : ℕ → ℕ → Bytes → Outcome A → List (Write A) → List (Write A)
  result_writes now ttl key (failed e) log = log
  result_writes now ttl key (loaded v) log =
      writes key (record { value = v; expires_at = now + ttl }) ∷ log

  -- The states that turns lead to, with the writes so far, the last one first. The times are
  -- arbitrary. A load settles the key and the outcome that it has.
  pub data Reach : State A → List (Write A) → Type 0 where
    start : Reach initial []
    enters :
        {s : State A} {log : List (Write A)} (now : ℕ) (refresh : Bool) (key : Bytes)
        → Reach s log
        → Reach
            (record {
              cache = (enter now refresh key s.cache).0;
              loads = launched key (enter now refresh key s.cache).1 s.loads;
            })
            log
    arrives :
        {s : State A} {log : List (Write A)} (i : ℕ) (key : Bytes) (outcome : Outcome A)
        → s.loads i ≡ loading key
        → Reach s log
        → Reach
            (record { cache = arrive i outcome s.cache; loads = update s.loads i (arrived key) })
            log
    settles :
        {s : State A} {log : List (Write A)} (now ttl i : ℕ) (key : Bytes) (outcome : Outcome A)
        → s.loads i ≡ arrived key
        → s.cache.calls i ≡ some outcome
        → Reach s log
        → Reach
            (record {
              cache = settle now ttl key outcome s.cache;
              loads = update s.loads i (settled key);
            })
            (result_writes now ttl key outcome log)
    sets :
        {s : State A} {log : List (Write A)} (now ttl : ℕ) (key : Bytes) (v : A)
        → Reach s log
        → Reach
            (record s { cache = set now ttl key v s.cache })
            (writes key (record { value = v; expires_at = now + ttl }) ∷ log)
    deletes :
        {s : State A} {log : List (Write A)} (prefix : Bytes)
        → Reach s log
        → Reach (record s { cache = delete_prefix prefix s.cache }) (drops prefix ∷ log)

  -- The abstract cache: the last write of the key, unless it was dropped behind it.
  unfoldable pub last_write : Bytes → List (Write A) → Option (Item A)
  last_write key [] = none
  last_write key (writes k it ∷ log) =
      let older = last_write key log in if bytes_eq k key then some it else older
  last_write key (drops prefix ∷ log) =
      let older = last_write key log in if has_prefix key prefix then none else older

  join_or_load-items :
      (key : Bytes) (c : Cache A) (o : Option ℕ) → (join_or_load key c o).0.items ≡ c.items
  unfolding join_or_load
  join_or_load-items key c none = refl
  join_or_load-items key c (some i) = refl

  enter-items :
      (now : ℕ) (refresh : Bool) (key : Bytes) (c : Cache A)
      → (enter now refresh key c).0.items ≡ c.items
  unfolding enter
  enter-items now refresh key c = by_value (fresh now refresh (c.items key))
    where
      by_value : (o : Option A) → (enter_with key c o).0.items ≡ c.items
      by_value (some v) = unfold enter_with in refl
      by_value none = unfold enter_with in join_or_load-items key c (c.flights key)

  items-last_write :
      {s : State A} {log : List (Write A)} (key : Bytes)
      → Reach s log
      → s.cache.items key ≡ last_write key log
  unfolding last_write set delete_prefix settle arrive result_writes put_key
  items-last_write key start = refl
  items-last_write key (enters {s} now refresh k r) =
      ap (λ m. m key) (enter-items now refresh k s.cache) ∙ items-last_write key r
  items-last_write key (arrives i k outcome h r) = items-last_write key r
  items-last_write key (settles now ttl i k (failed e) h q r) = items-last_write key r
  items-last_write key (settles now ttl i k (loaded v) h q r) = rw (items-last_write key r) refl
  items-last_write key (sets now ttl k v r) = rw (items-last_write key r) refl
  items-last_write key (deletes prefix r) = rw (items-last_write key r) refl

  -- An abstract item as `Get` serves it.
  abbrev pub served : ℕ → Option (Item A) → Option (A × CacheStatus)
  served now none = none
  served now (some it) = some (it.value, (if ltb now it.expires_at then hit else stale))

  get-served : (now : ℕ) (key : Bytes) (c : Cache A) → get now key c ≡ served now (c.items key)
  unfolding get
  get-served now key c = by_item (c.items key)
    where
      by_item :
          (o : Option (Item A))
          → elim o [
            | none ↦ none
            | some it ↦ some (it.value, (if ltb now it.expires_at then hit else stale))
          ]
            ≡ served now o
      by_item none = refl
      by_item (some it) = refl

  -- Behind every history of requests, loads, settings and deletions of prefixes, in any order and
  -- at any times, `Get` answers for a key as the abstract cache: the last value written for the
  -- key by a load or by `Set`, unless a deletion of one of its prefixes came later; it is a hit
  -- until the value expires, and stale from then on.
  pub get-last_write :
      {s : State A} {log : List (Write A)} (now : ℕ) (key : Bytes)
      → Reach s log
      → get now key s.cache ≡ served now (last_write key log)
  get-last_write {s} now key r =
      get-served now key s.cache ∙ ap (served now) (items-last_write key r)
