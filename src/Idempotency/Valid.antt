-- ===== src/Idempotency/Valid.antt =====
-- The store's invariant: one entry for each key, and no more entries than the limit.
use pal_panel_host_wine.Prelude.{
  ℕ, ◌≤◌, ◌<◌, ◌≡◌, refl, ◌∙◌, inl, inr, Bool, true, false, Option, none, some, List, Bytes,
  bytes_eq, length, leb, Bool-cases, if◌then◌else◌, arith,
}
use pal_panel_host_wine.Idempotency.{
  Store, Attempt, max_entries, find, remove, purge, oldest_from, start, make_room, admit, begin,
  finish,
}
use pal_panel_host_wine.Idempotency.Entries.{
  Distinct, find-remove, length-remove_found, Distinct-remove, length-purge, Distinct-purge,
  IsVictim, oldest_from-IsVictim,
}

pub find-evicted :
    (k victim : Bytes) (es : List (Bytes × ℕ)) → find k es ≡ none → find k (remove victim es) ≡ none
find-evicted k victim es h = find-remove victim k es ∙ either (bytes_eq victim k) (find k es) h
  where
    either : (b : Bool) (o : Option ℕ) → o ≡ none → (if b then none else o) ≡ none
    either true o e = refl
    either false o e = e

module _ {A : Type 0} where
  pub record IsValid (s : Store A) : Type 0 where
    pub distinct : Distinct s.entries
    pub bounded : length s.entries ≤ max_entries

  start-IsValid :
      (now : ℕ) (k f : Bytes) (s : Store A) (es : List (Bytes × ℕ))
      → find k es ≡ none
      → Distinct es
      → length es < max_entries
      → IsValid (start now k f s es).0
  unfolding start
  start-IsValid now k f s es fresh d room = record { distinct = (fresh, d); bounded = omega arith }

  -- `oldest_from` with no candidate yet.
  pub victim :
      (s : Store A) (es : List (Bytes × ℕ)) (k : Bytes) (t : ℕ)
      → Distinct es
      → oldest_from s.heap es none ≡ some (k, t)
      → IsVictim s.heap k es
  victim s es k t d h = elim (oldest_from-IsVictim s.heap es none k t d h) [
    | inl e ↦ absurd (cc)
    | inr w ↦ w
  ]

  make_room-IsValid :
      (now : ℕ) (k f : Bytes) (s : Store A) (es : List (Bytes × ℕ)) (o : Option (Bytes × ℕ))
      → find k es ≡ none
      → Distinct es
      → length es ≤ max_entries
      → oldest_from s.heap es none ≡ o
      → IsValid (make_room now k f s es o).0
  unfolding make_room
  make_room-IsValid now k f s es none fresh d b h = record { distinct = d; bounded = b }
  make_room-IsValid now k f s es (some (w, t)) fresh d b h =
      let (i, found, ended) = victim s es w t d h in
      start-IsValid now k f s (remove w es) (find-evicted k w es fresh) (Distinct-remove w es d)
        (omega (arith, length-remove_found w es i found))

  admit-IsValid :
      (now : ℕ) (k f : Bytes) (s : Store A) (es : List (Bytes × ℕ)) (o : Option ℕ)
      → find k es ≡ o
      → Distinct es
      → length es ≤ max_entries
      → IsValid (admit now k f s es o).0
  unfolding admit
  admit-IsValid now k f s es (some i) h d b = record { distinct = d; bounded = b }
  admit-IsValid now k f s es none h d b = elim (Bool-cases (leb max_entries (length es))) [
    | inl full ↦ rw full (make_room-IsValid now k f s es (oldest_from s.heap es none) h d b refl)
    | inr room ↦ rw room (start-IsValid now k f s es h d (ground arith))
  ]

  -- A request to a store without two entries for one key, and with at most 1024 entries, leaves
  -- such a store.
  pub begin-IsValid :
      (now : ℕ) (k f : Bytes) (s : Store A) → IsValid s → IsValid (begin now k f s).0
  unfolding begin
  begin-IsValid now k f s v =
      let es = purge now s.heap s.entries in
      admit-IsValid now k f s es (find k es) refl (Distinct-purge now s.heap s.entries v.distinct)
        (omega (arith, length-purge now s.heap s.entries, v.bounded))

  pub finish-IsValid :
      (now ttl i : ℕ) (attempt : Attempt A) (s : Store A)
      → IsValid s
      → IsValid (finish now ttl i attempt s)
  unfolding finish
  finish-IsValid now ttl i attempt s v = record { distinct = v.distinct; bounded = v.bounded }
