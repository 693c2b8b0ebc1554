-- ===== src/Cache.antt =====
-- backend/internal/api/cache.go: the cache of the API's answers. A time is a number, a Go map a
-- function of its keys, and a pointer to a call a number. `GetOrLoad` holds the lock twice, in
-- `enter` before the load and in `settle` behind it; between them stands `arrive`, the end of the
-- load, and other requests may come in at each of these points. The look-up before the first lock
-- is left out: where it hits, `enter` at that time answers the same.
pub mod Answers
pub mod History
pub mod Loads
use pal_panel_host_wine.Prelude.{
  put_key, ℕ, suc, ◌+◌, ◌≡◌, Bool, true, false, Option, none, some, Bytes, bytes_eq, has_prefix,
  ltb, if◌then◌else◌, update,
}

pub data CacheStatus : Type 0 where
  hit miss stale : CacheStatus

pub record Item (A : Type 0) : Type 0 where
  pub value : A
  pub expires_at : ℕ

-- What a load gives; a value beside an error is not kept.
pub data Outcome (A : Type 0) : Type 0 where
  loaded : A → Outcome A
  failed : Bytes → Outcome A

-- `calls` holds none until the load has ended, while `wg` makes its waiters wait.
pub record Cache (A : Type 0) : Type 0 where
  pub items : Bytes → Option (Item A)
  pub flights : Bytes → Option ℕ
  pub calls : ℕ → Option (Outcome A)
  pub next : ℕ

-- What a request gets: a value with its status, or an error, always with a miss.
pub data Answer (A : Type 0) : Type 0 where
  value : A → CacheStatus → Answer A
  error : Bytes → Answer A

-- What `GetOrLoad` does after its first critical section: answer, wait for a call, or load.
pub data Entry (A : Type 0) : Type 0 where
  found : A → Entry A
  join load : ℕ → Entry A

module _ {A : Type 0} where
  abbrev pub new_cache : Cache A
  new_cache = record { items = λ _. none; flights = λ _. none; calls = λ _. none; next = 0 }

  abbrev item_status : ℕ → Item A → CacheStatus
  item_status now it = if ltb now it.expires_at then hit else stale

  -- `Get`, without a value for a miss.
  unfoldable pub get : ℕ → Bytes → Cache A → Option (A × CacheStatus)
  get now key c = elim (c.items key) [ none ↦ none | some it ↦ some (it.value, item_status now it) ]

  unfoldable pub set : ℕ → ℕ → Bytes → A → Cache A → Cache A
  set now ttl key v c = record c {
    items = put_key key (some (record { value = v; expires_at = now + ttl })) c.items;
  }

  unfoldable pub delete_prefix : Bytes → Cache A → Cache A
  delete_prefix prefix c = record c { items = λ k. if has_prefix k prefix then none else c.items k }

  -- The value that the locked look-up returns.
  unfoldable pub fresh : ℕ → Bool → Option (Item A) → Option A
  fresh now refresh none = none
  fresh now refresh (some it) =
      if refresh then none else (if ltb now it.expires_at then some it.value else none)

  unfoldable pub join_or_load : Bytes → Cache A → Option ℕ → Cache A × Entry A
  join_or_load key c (some i) = (c, join i)
  join_or_load key c none =
      (record c { flights = put_key key (some c.next) c.flights; next = suc c.next }, load c.next)

  unfoldable pub enter_with : Bytes → Cache A → Option A → Cache A × Entry A
  enter_with key c (some v) = (c, found v)
  enter_with key c none = join_or_load key c (c.flights key)

  -- The first critical section of `GetOrLoad`.
  unfoldable pub enter : ℕ → Bool → Bytes → Cache A → Cache A × Entry A
  enter now refresh key c = enter_with key c (fresh now refresh (c.items key))

  -- The load has ended: its outcome stands in the call, and waiters go on.
  unfoldable pub arrive : ℕ → Outcome A → Cache A → Cache A
  arrive i outcome c = record c { calls = update c.calls i (some outcome) }

  -- The second critical section.
  unfoldable pub settle : ℕ → ℕ → Bytes → Outcome A → Cache A → Cache A
  settle now ttl key (failed e) c = record c { flights = put_key key none c.flights }
  settle now ttl key (loaded v) c = record c {
    flights = put_key key none c.flights;
    items = put_key key (some (record { value = v; expires_at = now + ttl })) c.items;
  }

  unfoldable pub stale_or : Bytes → Option (A × CacheStatus) → Answer A
  stale_or e none = error e
  stale_or e (some (v, status)) = value v stale

  -- What the request that has loaded returns.
  unfoldable pub loader_answer : ℕ → Bytes → Outcome A → Cache A → Answer A
  loader_answer now key (loaded v) c = value v miss
  loader_answer now key (failed e) c = stale_or e (get now key c)

  -- What a request that has waited returns.
  unfoldable pub waiter_answer : ℕ → Bytes → Outcome A → Cache A → Answer A
  waiter_answer now key (loaded v) c = value v hit
  waiter_answer now key (failed e) c = stale_or e (get now key c)
