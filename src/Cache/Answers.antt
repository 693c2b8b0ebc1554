-- ===== src/Cache/Answers.antt =====
-- What the requests for a key get when its load has failed.
use pal_panel_host_wine.Prelude.{ℕ, ◌≡◌, refl, ap, ◌∙◌, Option, none, some, List, Bytes}
use pal_panel_host_wine.Cache.{
  stale, Item, failed, Answer, value, error, stale_or, loader_answer, waiter_answer,
}
use pal_panel_host_wine.Cache.History.{State, Write, Reach, last_write, served, get-last_write}

module _ {A : Type 0} where
  -- An item that is kept, whatever its age, or the error.
  abbrev pub kept_or : Bytes → Option (Item A) → Answer A
  kept_or e none = error e
  kept_or e (some it) = value it.value stale

  stale_or-served :
      (now : ℕ) (e : Bytes) (o : Option (Item A)) → stale_or e (served now o) ≡ kept_or e o
  unfolding stale_or
  stale_or-served now e none = refl
  stale_or-served now e (some it) = refl

  -- In every history, a request whose load has failed, and one that waited for it, get the last
  -- value written for the key, marked stale whatever its age, or the load's error if there is none
  -- or it was deleted.
  pub failed_answer :
      {s : State A} {log : List (Write A)} (now : ℕ) (key e : Bytes)
      → Reach s log
      → (loader_answer now key (failed e) s.cache ≡ kept_or e (last_write key log))
        × (waiter_answer now key (failed e) s.cache ≡ kept_or e (last_write key log))
  unfolding loader_answer waiter_answer
  failed_answer {log} now key e r =
      let same =
        ap (stale_or e) (get-last_write now key r) ∙ stale_or-served now e (last_write key log) in
      (same, same)
