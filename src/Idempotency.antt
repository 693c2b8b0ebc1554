-- ===== src/Idempotency.antt =====
-- backend/internal/api/paldefender_gm_idempotency.go: the store that runs a GM write once for each
-- idempotency key. `do` holds the lock twice: `begin` is the part before the action, `finish` the
-- part behind it, and other requests may come in between.
-- A time is a number. An entry is a pointer: `heap` holds what the pointers point to.
pub mod Entries
pub mod Replay
pub mod Single
pub mod Trace
pub mod Valid
use pal_panel_host_wine.Prelude.{
  ℕ, suc, ◌+◌, Bool, true, false, Option, none, some, List, [], ◌∷◌, ◌++◌, Bytes, bytes_eq, length,
  ltb, leb, ◌==◌, if◌then◌else◌, update,
}

abbrev pub max_entries : ℕ
max_entries = 1024

-- What an action gave: its result, its error, or a panic. A result beside an error is not kept.
pub data Attempt (A : Type 0) : Type 0 where
  returned : A → Attempt A
  failed : Bytes → Attempt A
  panicked : Attempt A

-- What waiters receive; a panic is an error to them.
pub data Reply (A : Type 0) : Type 0 where
  value : A → Reply A
  error : Bytes → Reply A
  failed_unexpectedly : Reply A

unfoldable pub settle : {A : Type 0} → Attempt A → Reply A
settle (returned a) = value a
settle (failed e) = error e
settle panicked = failed_unexpectedly

pub record Done (A : Type 0) : Type 0 where
  pub reply : Reply A
  pub expires_at : ℕ

-- `outcome` is none until the action ends: until then `expiresAt` is zero and `done` is open.
pub record Entry (A : Type 0) : Type 0 where
  pub fingerprint : Bytes
  pub created_at : ℕ
  pub outcome : Option (Done A)

pub record Store (A : Type 0) : Type 0 where
  pub entries : List (Bytes × ℕ)
  pub heap : ℕ → Entry A
  pub next : ℕ

-- What `begin` decides: the two refusals, to wait for an entry, or to run the action for a new one.
pub data Decision : Type 0 where
  conflict busy : Decision
  wait run : ℕ → Decision

-- `m[k]`.
unfoldable pub find : Bytes → List (Bytes × ℕ) → Option ℕ
find k [] = none
find k ((j, i) ∷ es) = if bytes_eq j k then some i else find k es

-- `delete(m, k)`.
unfoldable pub remove : Bytes → List (Bytes × ℕ) → List (Bytes × ℕ)
remove k [] = []
remove k ((j, i) ∷ es) = let rest = remove k es in if bytes_eq j k then rest else (j, i) ∷ rest

module _ {A : Type 0} where
  abbrev pub expired_outcome : ℕ → Option (Done A) → Bool
  expired_outcome now none = false
  expired_outcome now (some d) = leb d.expires_at now

  abbrev pub expired : ℕ → Entry A → Bool
  expired now e = expired_outcome now e.outcome

  abbrev pub is_done : Option (Done A) → Bool
  is_done none = false
  is_done (some d) = true

  -- The loop that deletes expired entries.
  unfoldable pub purge : ℕ → (ℕ → Entry A) → List (Bytes × ℕ) → List (Bytes × ℕ)
  purge now heap [] = []
  purge now heap ((k, i) ∷ es) =
      let rest = purge now heap es in if expired now (heap i) then rest else (k, i) ∷ rest

  -- `oldestKey == "" || existing.createdAt.Before(oldest)`.
  abbrev pub improves : Entry A → Option (Bytes × ℕ) → Bool
  improves e none = true
  improves e (some (k, oldest)) = ltb e.created_at oldest

  -- The loop that looks for the oldest entry whose action has ended. Go ranges over a map in any
  -- order, which decides between entries of the same age; here the list's order does.
  unfoldable pub oldest_from :
      (ℕ → Entry A) → List (Bytes × ℕ) → Option (Bytes × ℕ) → Option (Bytes × ℕ)
  oldest_from heap [] best = best
  oldest_from heap ((k, i) ∷ es) best = oldest_from heap es (
      if is_done (heap i).outcome
      then (if improves (heap i) best then some (k, (heap i).created_at) else best)
      else best)

  -- The new entry, in the map and behind its pointer.
  unfoldable pub start : ℕ → Bytes → Bytes → Store A → List (Bytes × ℕ) → Store A × Decision
  start now key fingerprint s es = (
    record {
      entries = (key, s.next) ∷ es;
      heap =
          update s.heap s.next
            (record { fingerprint = fingerprint; created_at = now; outcome = none });
      next = suc s.next;
    },
    run s.next,
  )

  unfoldable pub make_room :
      ℕ → Bytes → Bytes → Store A → List (Bytes × ℕ) → Option (Bytes × ℕ) → Store A × Decision
  make_room now key fingerprint s es none = (record s { entries = es }, busy)
  make_room now key fingerprint s es (some (victim, _)) =
      start now key fingerprint s (remove victim es)

  unfoldable pub admit :
      ℕ → Bytes → Bytes → Store A → List (Bytes × ℕ) → Option ℕ → Store A × Decision
  admit now key fingerprint s es (some i) = (
    record s { entries = es },
    (if bytes_eq (s.heap i).fingerprint fingerprint then wait i else conflict),
  )
  admit now key fingerprint s es none =
      if leb max_entries (length es)
      then make_room now key fingerprint s es (oldest_from s.heap es none)
      else start now key fingerprint s es

  -- The first critical section.
  unfoldable pub begin : ℕ → Bytes → Bytes → Store A → Store A × Decision
  begin now key fingerprint s =
      let es = purge now s.heap s.entries in admit now key fingerprint s es (find key es)

  -- The second critical section, on the entry of the action.
  unfoldable pub finish : ℕ → ℕ → ℕ → Attempt A → Store A → Store A
  finish now ttl i attempt s = record s {
    heap = update s.heap i (record (s.heap i) {
      outcome = some (record { reply = settle attempt; expires_at = now + ttl });
    });
  }

  -- What a waiter reads when `done` is closed.
  unfoldable pub await : ℕ → Store A → Option (Reply A)
  await i s = elim (s.heap i).outcome [ none ↦ none | some d ↦ some d.reply ]

-- `scope + "\x00" + key`.
unfoldable pub entry_key : Bytes → Bytes → Bytes
entry_key scope key = scope ++ 0 ∷ key
