-- ===== src/Idempotency/Single.antt =====
-- One action at a time for each key, over every interleaving of requests and endings.
use pal_panel_host_wine.Prelude.{
  update, ℕ, ◌<◌, ◌≡◌, ◌≢◌, refl, sym, ap, ◌∙◌, inl, inr, Bool, true, false, Option, none, some,
  List, Bytes, bytes_eq, bytes_eq_iff, bytes_eq_refl, length, leb, Bool-cases, if◌then◌else◌, arith,
}
use pal_panel_host_wine.Idempotency.{
  Store, Attempt, conflict, wait, run, max_entries, find, remove, purge, oldest_from, start,
  make_room, admit, begin, finish,
}
use pal_panel_host_wine.Idempotency.Entries.{
  Distinct, find-remove, kept, find-purge, Distinct-purge, IsVictim,
}
use pal_panel_host_wine.Idempotency.Valid.{IsValid, find-evicted, victim}

no_run : (b : Bool) (i j : ℕ) → (if b then wait i else conflict) ≡ run j → ⊥
no_run true i j h = cc
no_run false i j h = cc

module _ {A : Type 0} where
  -- Action `i` runs for key `k`.
  pub record Runs (s : Store A) (k : Bytes) (i : ℕ) : Type 0 where
    pub found : find k s.entries ≡ some i
    pub pending : (s.heap i).outcome ≡ none
    pub old : i < s.next

  -- An entry whose action runs survives the purge.
  find-purge_running :
      (now : ℕ) (s : Store A) (k : Bytes) (i : ℕ)
      → IsValid s
      → Runs s k i
      → find k (purge now s.heap s.entries) ≡ some i
  find-purge_running now s k i v r =
      find-purge now s.heap k s.entries v.distinct
      ∙ ap (kept now s.heap) r.found
      ∙ ground (arith, r.pending)

  -- If a valid store's action runs for a key, a request for the key waits for that action, or is
  -- refused as a conflict where its fingerprint is another: no second action starts.
  pub begin_single :
      (now : ℕ) (k fingerprint : Bytes) (s : Store A) (i : ℕ)
      → IsValid s
      → Runs s k i
      → (begin now k fingerprint s).1
        ≡ (if bytes_eq (s.heap i).fingerprint fingerprint then wait i else conflict)
  unfolding begin admit
  begin_single now k fingerprint s i v r = rw (find-purge_running now s k i v r) refl

  Runs-start :
      (now : ℕ) (k f j : Bytes) (s : Store A) (es : List (Bytes × ℕ)) (i : ℕ)
      → find k es ≡ none
      → find j es ≡ some i
      → (s.heap i).outcome ≡ none
      → i < s.next
      → Runs (start now k f s es).0 j i
  unfolding start find update
  Runs-start now k f j s es i fresh found pending old = record {
    found = ground (arith, bytes_eq_iff k j);
    pending = ground arith;
    old = omega arith;
  }

  Runs-make_room :
      (now : ℕ) (k f j : Bytes) (s : Store A) (es : List (Bytes × ℕ)) (o : Option (Bytes × ℕ))
      (i : ℕ)
      → find k es ≡ none
      → Distinct es
      → oldest_from s.heap es none ≡ o
      → find j es ≡ some i
      → (s.heap i).outcome ≡ none
      → i < s.next
      → Runs (make_room now k f s es o).0 j i
  unfolding make_room
  Runs-make_room now k f j s es none i fresh d h found pending old = record {
    found = found;
    pending = pending;
    old = old;
  }
  Runs-make_room now k f j s es (some (w, t)) i fresh d h found pending old =
      Runs-start now k f j s (remove w es) i (find-evicted k w es fresh) spared pending old
    where
      -- the victim has ended, and `i` runs
      other : IsVictim s.heap w es → bytes_eq w j ≡ false
      other (i', found', ended) = elim (Bool-cases (bytes_eq w j)) [
        | inl same ↦ ground (arith, ap (λ x. find x es) ((bytes_eq_iff w j).0 same))
        | inr e ↦ e
      ]

      spared : find j (remove w es) ≡ some i
      spared = find-remove w j es ∙ rw (other (victim s es w t d h)) found

  Runs-admit :
      (now : ℕ) (k f j : Bytes) (s : Store A) (es : List (Bytes × ℕ)) (o : Option ℕ) (i : ℕ)
      → find k es ≡ o
      → Distinct es
      → find j es ≡ some i
      → (s.heap i).outcome ≡ none
      → i < s.next
      → Runs (admit now k f s es o).0 j i
  unfolding admit
  Runs-admit now k f j s es (some x) i h d found pending old = record {
    found = found;
    pending = pending;
    old = old;
  }
  Runs-admit now k f j s es none i h d found pending old =
      elim (Bool-cases (leb max_entries (length es))) [
        | inl full ↦ rw full (
            Runs-make_room now k f j s es (oldest_from s.heap es none) i h d refl found pending old)
        | inr room ↦ rw room (Runs-start now k f j s es i h found pending old)
      ]

  -- A request to a valid store stops no running action: the entry of an action that runs is
  -- neither purged nor evicted, and the action still runs.
  pub Runs-begin :
      (now : ℕ) (k f j : Bytes) (s : Store A) (i : ℕ)
      → IsValid s
      → Runs s j i
      → Runs (begin now k f s).0 j i
  unfolding begin
  Runs-begin now k f j s i v r =
      let es = purge now s.heap s.entries in
      Runs-admit now k f j s es (find k es) i refl (Distinct-purge now s.heap s.entries v.distinct)
        (find-purge_running now s j i v r) r.pending r.old

  -- The ending of one action leaves every other running action running.
  pub Runs-finish :
      (now ttl : ℕ) (attempt : Attempt A) (s : Store A) (i j : ℕ) (k : Bytes)
      → i ≢ j
      → Runs s k j
      → Runs (finish now ttl i attempt s) k j
  unfolding finish update
  Runs-finish now ttl attempt s i j k ne r = record {
    found = r.found;
    pending = ground (arith, r.pending, ne);
    old = r.old;
  }

  start-Runs :
      (now : ℕ) (k f : Bytes) (s : Store A) (es : List (Bytes × ℕ)) (i : ℕ)
      → (start now k f s es).1 ≡ run i
      → Runs (start now k f s es).0 k i
  unfolding start find update
  start-Runs now k f s es i h =
      let e : s.next ≡ i = cc in
      rw (sym e) (record {
        found = ground (arith, bytes_eq_refl k);
        pending = ground arith;
        old = omega arith;
      })

  make_room-Runs :
      (now : ℕ) (k f : Bytes) (s : Store A) (es : List (Bytes × ℕ)) (o : Option (Bytes × ℕ)) (i : ℕ)
      → (make_room now k f s es o).1 ≡ run i
      → Runs (make_room now k f s es o).0 k i
  unfolding make_room
  make_room-Runs now k f s es none i h = absurd (cc)
  make_room-Runs now k f s es (some (w, t)) i h = start-Runs now k f s (remove w es) i h

  admit-Runs :
      (now : ℕ) (k f : Bytes) (s : Store A) (es : List (Bytes × ℕ)) (o : Option ℕ) (i : ℕ)
      → (admit now k f s es o).1 ≡ run i
      → Runs (admit now k f s es o).0 k i
  unfolding admit
  admit-Runs now k f s es (some x) i h = absurd (no_run _ x i h)
  admit-Runs now k f s es none i h = elim (Bool-cases (leb max_entries (length es))) [
    | inl full ↦ rw full (make_room-Runs now k f s es (oldest_from s.heap es none) i (rw full at h))
    | inr room ↦ rw room (start-Runs now k f s es i (rw room at h))
  ]

  -- The action that a request starts runs for its key.
  pub begin-Runs :
      (now : ℕ) (k f : Bytes) (s : Store A) (i : ℕ)
      → (begin now k f s).1 ≡ run i
      → Runs (begin now k f s).0 k i
  unfolding begin
  begin-Runs now k f s i h =
      let es = purge now s.heap s.entries in admit-Runs now k f s es (find k es) i h
