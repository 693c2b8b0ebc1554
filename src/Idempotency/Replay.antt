-- ===== src/Idempotency/Replay.antt =====
-- What a key gives once its action has ended, after any other requests and endings: the outcome for
-- as long as it is kept, then a new action.
use pal_panel_host_wine.Prelude.{
  update, ℕ, ◌+◌, ◌≤◌, ◌<◌, ◌≡◌, refl, sym, ap, ◌∙◌, true, false, none, some, Option, List, [], ◌∷◌,
  ◌++◌, Bytes, bytes_eq, bytes_eq_refl, length, leb, ◌==◌, Bool-cases, inl, inr, arith,
}
use mathlib.Core.Path.{subst}
use pal_panel_host_wine.Idempotency.{
  Store, Attempt, returned, failed, panicked, Reply, value, error, failed_unexpectedly, Done,
  settle, wait, run, max_entries, find, remove, purge, oldest_from, expired, start, make_room,
  admit, begin, finish, await,
}
use pal_panel_host_wine.Idempotency.Entries.{kept, find-purge, length-purge-expired}
use pal_panel_host_wine.Idempotency.Valid.{IsValid}
use pal_panel_host_wine.Idempotency.Trace.{
  Event, request, ending, State, launched, ended, advance, history, history-Holds,
}

module _ {A : Type 0} where
  -- What the requests that wait for an action should get from it.
  abbrev pub reply_to : Attempt A → Reply A
  reply_to (returned a) = value a
  reply_to (failed e) = error e
  reply_to panicked = failed_unexpectedly

  settle-reply_to : (a : Attempt A) → settle a ≡ reply_to a
  unfolding settle
  settle-reply_to (returned a) = refl
  settle-reply_to (failed e) = refl
  settle-reply_to panicked = refl

  -- The action of the entry has ended: it has the fingerprint, and gives the reply until a time.
  record HasEnded (s : State A) (i : ℕ) (f : Bytes) (d : Done A) : Type 0 where
    pub over : s.running i ≡ none
    pub old : i < s.store.next
    pub fingerprint : (s.store.heap i).fingerprint ≡ f
    pub outcome : (s.store.heap i).outcome ≡ some d

  start-HasEnded :
      (now : ℕ) (k g : Bytes) (s : State A) (es : List (Bytes × ℕ)) (i : ℕ) (f : Bytes) (d : Done A)
      → HasEnded s i f d
      → HasEnded
          (record {
            store = (start now k g s.store es).0;
            running = launched k (start now k g s.store es).1 s.running;
          })
          i
          f
          d
  unfolding start launched update
  start-HasEnded now k g s es i f d h =
      let new : (s.store.next == i) ≡ false = ground (arith, h.old) in
      record {
        over = rw new h.over;
        old = omega (arith, h.old);
        fingerprint = rw new h.fingerprint;
        outcome = rw new h.outcome;
      }

  make_room-HasEnded :
      (now : ℕ) (k g : Bytes) (s : State A) (es : List (Bytes × ℕ)) (o : Option (Bytes × ℕ)) (i : ℕ)
      (f : Bytes) (d : Done A)
      → HasEnded s i f d
      → HasEnded
          (record {
            store = (make_room now k g s.store es o).0;
            running = launched k (make_room now k g s.store es o).1 s.running;
          })
          i
          f
          d
  unfolding make_room
  make_room-HasEnded now k g s es none i f d h = record {
    over = (unfold launched in h.over);
    old = h.old;
    fingerprint = h.fingerprint;
    outcome = h.outcome;
  }
  make_room-HasEnded now k g s es (some (victim, x)) i f d h =
      start-HasEnded now k g s (remove victim es) i f d h

  admit-HasEnded :
      (now : ℕ) (k g : Bytes) (s : State A) (es : List (Bytes × ℕ)) (o : Option ℕ) (i : ℕ)
      (f : Bytes) (d : Done A)
      → HasEnded s i f d
      → HasEnded
          (record {
            store = (admit now k g s.store es o).0;
            running = launched k (admit now k g s.store es o).1 s.running;
          })
          i
          f
          d
  unfolding admit launched
  admit-HasEnded now k g s es (some j) i f d h =
      elim (Bool-cases (bytes_eq (s.store.heap j).fingerprint g)) [
        | inl same ↦ rw same (record {
          over = h.over;
          old = h.old;
          fingerprint = h.fingerprint;
          outcome = h.outcome;
        })
        | inr other ↦ rw other (record {
          over = h.over;
          old = h.old;
          fingerprint = h.fingerprint;
          outcome = h.outcome;
        })
      ]
  admit-HasEnded now k g s es none i f d h = elim (Bool-cases (leb max_entries (length es))) [
    | inl full ↦
        rw full (make_room-HasEnded now k g s es (oldest_from s.store.heap es none) i f d h)
    | inr room ↦ rw room (start-HasEnded now k g s es i f d h)
  ]

  ended-HasEnded :
      (now ttl j : ℕ) (a : Attempt A) (s : State A) (o : Option Bytes) (i : ℕ) (f : Bytes)
      (d : Done A)
      → s.running j ≡ o
      → HasEnded s i f d
      → HasEnded (ended now ttl j a s o) i f d
  unfolding finish update
  ended-HasEnded now ttl j a s none i f d e h = h
  ended-HasEnded now ttl j a s (some k) i f d e h = elim (Bool-cases (j == i)) [
    | inl same ↦
        let n : j ≡ i = ground (arith, same) in
        let q : some k ≡ none = sym e ∙ ap s.running n ∙ h.over in absurd (cc)
    | inr other ↦ record {
      over = rw other h.over;
      old = h.old;
      fingerprint = rw other h.fingerprint;
      outcome = rw other h.outcome;
    }
  ]

  advance-HasEnded :
      (e : Event A) (s : State A) (i : ℕ) (f : Bytes) (d : Done A)
      → HasEnded s i f d
      → HasEnded (advance e s) i f d
  unfolding advance begin
  advance-HasEnded (request now k g) s i f d h =
      let es = purge now s.store.heap s.store.entries in
      admit-HasEnded now k g s es (find k es) i f d h
  advance-HasEnded (ending now ttl j a) s i f d h =
      ended-HasEnded now ttl j a s (s.running j) i f d refl h

  history-HasEnded :
      (later es : List (Event A)) (i : ℕ) (f : Bytes) (d : Done A)
      → HasEnded (history es) i f d
      → HasEnded (history (later ++ es)) i f d
  unfolding history
  history-HasEnded [] es i f d h = h
  history-HasEnded (e ∷ later) es i f d h =
      advance-HasEnded e (history (later ++ es)) i f d (history-HasEnded later es i f d h)

  -- The ending itself.
  ending-HasEnded :
      (es : List (Event A)) (t ttl i : ℕ) (k : Bytes) (a : Attempt A)
      → (history es).running i ≡ some k
      → HasEnded
          (history (ending t ttl i a ∷ es))
          i
          ((history es).store.heap i).fingerprint
          (record { reply = reply_to a; expires_at = t + ttl })
  unfolding history advance
  ending-HasEnded es t ttl i k a h = rw h (now_ended ((history-Holds es).runs i k h).old)
    where
      now_ended :
          i < (history es).store.next
          → HasEnded
              (ended t ttl i a (history es) (some k))
              i
              ((history es).store.heap i).fingerprint
              (record { reply = reply_to a; expires_at = t + ttl })
      now_ended lt =
          let same : (i == i) ≡ true = ground arith in
          unfold finish update in
          record {
            over = rw same refl;
            old = lt;
            fingerprint = rw same refl;
            outcome =
                rw same
                  (ap (λ r. some (record { reply = r; expires_at = t + ttl })) (settle-reply_to a));
          }

  admit_known :
      (now i : ℕ) (k f : Bytes) (s : Store A) (es : List (Bytes × ℕ))
      → (s.heap i).fingerprint ≡ f
      → (admit now k f s es (some i)).1 ≡ wait i
  unfolding admit
  admit_known now i k f s es h = ground (arith, h, bytes_eq_refl f)

  await-admit_known :
      (now i : ℕ) (k f : Bytes) (s : Store A) (es : List (Bytes × ℕ))
      → await i (admit now k f s es (some i)).0 ≡ await i s
  unfolding admit await
  await-admit_known now i k f s es = refl

  await-outcome :
      (i : ℕ) (s : Store A) (d : Done A) → (s.heap i).outcome ≡ some d → await i s ≡ some d.reply
  unfolding await
  await-outcome i s d h = rw (h, await) refl

  expired-outcome :
      (now i : ℕ) (s : Store A) (d : Done A)
      → (s.heap i).outcome ≡ some d
      → expired now (s.heap i) ≡ leb d.expires_at now
  expired-outcome now i s d h = rw h refl

  admit_new :
      (now : ℕ) (k f : Bytes) (s : Store A) (es : List (Bytes × ℕ))
      → length es < max_entries
      → (admit now k f s es none).1 ≡ run s.next
  unfolding admit start
  admit_new now k f s es h = ground arith

  -- An entry that is there and ended, before and after it expires.
  begin-young :
      (now i : ℕ) (k f : Bytes) (s : State A) (d : Done A)
      → IsValid s.store
      → HasEnded s i f d
      → find k s.store.entries ≡ some i
      → now < d.expires_at
      → ((begin now k f s.store).1 ≡ wait i) × (await i (begin now k f s.store).0 ≡ some d.reply)
  unfolding begin
  begin-young now i k f s d v h found young = rw still (
    admit_known now i k f s.store (purge now s.store.heap s.store.entries) h.fingerprint,
    await-admit_known now i k f s.store (purge now s.store.heap s.store.entries)
        ∙ await-outcome i s.store d h.outcome,
  )
    where
      still : find k (purge now s.store.heap s.store.entries) ≡ some i
      still =
          find-purge now s.store.heap k s.store.entries v.distinct
          ∙ ap (kept now s.store.heap) found
          ∙ ground (arith, expired-outcome now i s.store d h.outcome)

  begin-expired :
      (now i : ℕ) (k g f : Bytes) (s : State A) (d : Done A)
      → IsValid s.store
      → HasEnded s i f d
      → find k s.store.entries ≡ some i
      → d.expires_at ≤ now
      → (begin now k g s.store).1 ≡ run s.store.next
  unfolding begin
  begin-expired now i k g f s d v h found past =
      rw gone (admit_new now k g s.store (purge now s.store.heap s.store.entries) room)
    where
      out : expired now (s.store.heap i) ≡ true
      out = expired-outcome now i s.store d h.outcome ∙ ground arith

      gone : find k (purge now s.store.heap s.store.entries) ≡ none
      gone =
          find-purge now s.store.heap k s.store.entries v.distinct
          ∙ ap (kept now s.store.heap) found
          ∙ ground (arith, out)

      room : length (purge now s.store.heap s.store.entries) < max_entries
      room =
          omega
            (arith, length-purge-expired now s.store.heap k i s.store.entries found out, v.bounded)

  -- In a history, if the running action of a key ends at time `t`, whatever other requests and
  -- endings come after that, as long as the key's entry is still that action's, a request for the
  -- key with its fingerprint before `t + ttl` starts nothing: it waits for that action's entry,
  -- and reads there the reply to the action's outcome.
  pub replay :
      (later es : List (Event A)) (t ttl now i : ℕ) (k f : Bytes) (a : Attempt A)
      → (history es).running i ≡ some k
      → ((history es).store.heap i).fingerprint ≡ f
      → find k (history (later ++ ending t ttl i a ∷ es)).store.entries ≡ some i
      → now < t + ttl
      → ((begin now k f (history (later ++ ending t ttl i a ∷ es)).store).1 ≡ wait i)
        × (await i (begin now k f (history (later ++ ending t ttl i a ∷ es)).store).0
            ≡ some (reply_to a))
  replay later es t ttl now i k f a runs same found young =
      let d : Done A = record { reply = reply_to a; expires_at = t + ttl } in
      let s = history (later ++ ending t ttl i a ∷ es) in
      begin-young now i k f s d (history-Holds (later ++ ending t ttl i a ∷ es)).valid
        (subst (λ f. HasEnded s i f d) same
          (history-HasEnded later (ending t ttl i a ∷ es) i _ d
            (ending-HasEnded es t ttl i k a runs)))
        found young

  -- In a history, if the running action of a key ends at time `t`, whatever other requests and
  -- endings come after that, as long as the key's entry is still that action's, a request for the
  -- key from `t + ttl` on starts a new action, whatever its fingerprint is and however full the
  -- store is.
  pub rerun :
      (later es : List (Event A)) (t ttl now i : ℕ) (k f : Bytes) (a : Attempt A)
      → (history es).running i ≡ some k
      → find k (history (later ++ ending t ttl i a ∷ es)).store.entries ≡ some i
      → t + ttl ≤ now
      → (begin now k f (history (later ++ ending t ttl i a ∷ es)).store).1
        ≡ run (history (later ++ ending t ttl i a ∷ es)).store.next
  rerun later es t ttl now i k f a runs found past =
      begin-expired now i k f ((history es).store.heap i).fingerprint
        (history (later ++ ending t ttl i a ∷ es))
        (record { reply = reply_to a; expires_at = t + ttl })
        (history-Holds (later ++ ending t ttl i a ∷ es)).valid
        (history-HasEnded later (ending t ttl i a ∷ es) i _ _ (ending-HasEnded es t ttl i k a runs))
        found past
