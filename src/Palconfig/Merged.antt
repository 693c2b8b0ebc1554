-- ===== src/Palconfig/Merged.antt =====
-- What `Merge` changes is read back from the file.
use pal_panel_host_wine.Prelude.{
  ◌≡◌, refl, ap, ◌∙◌, Bool, true, false, Option, none, some, List, [], ◌∷◌, Bytes, bytes_eq,
  if◌then◌else◌, for_each, All,
}
use pal_panel_host_wine.Palconfig.{
  Text, Settings, Update, lookup, store, any_to_string, merge, serialize, parse,
}
use pal_panel_host_wine.Palconfig.Lookup.{
  DistinctKeys, or_else, lookup-store, store-DistinctKeys, All-store,
}
use pal_panel_host_wine.Palconfig.RoundTrip.{IsEntry, parse-serialize-lookup}
use pal_panel_host_wine.Palconfig.Written.{IsFaithful}

module _ (t : Text) where
  -- The text of the last update of a key.
  unfoldable pub last_update : Bytes → List (Bytes × Update) → Option Bytes
  last_update k [] = none
  last_update k ((j, u) ∷ us) =
      or_else (last_update k us) (if bytes_eq j k then some (any_to_string t u) else none)

  -- An update whose text is that of a valid entry.
  abbrev pub IsUpdate : Bytes × Update → Type 0
  IsUpdate u = IsEntry (u.0, any_to_string t u.1)

  merge-DistinctKeys :
      (us : List (Bytes × Update)) (s : Settings) → DistinctKeys s → DistinctKeys (merge t s us)
  unfolding merge for_each
  merge-DistinctKeys [] s d = d
  merge-DistinctKeys ((j, u) ∷ us) s d =
      merge-DistinctKeys us (store j (any_to_string t u) s)
        (store-DistinctKeys j (any_to_string t u) s d)

  merge-entries :
      (us : List (Bytes × Update)) (s : Settings)
      → All IsUpdate us
      → All IsEntry s
      → All IsEntry (merge t s us)
  unfolding merge for_each
  merge-entries [] s i h = h
  merge-entries ((j, u) ∷ us) s (p, i) h =
      merge-entries us (store j (any_to_string t u) s) i
        (All-store IsEntry j (any_to_string t u) s p h)

  lookup-merge :
      (k : Bytes) (us : List (Bytes × Update)) (s : Settings)
      → lookup k (merge t s us) ≡ or_else (last_update k us) (lookup k s)
  unfolding merge for_each last_update
  lookup-merge k [] s = refl
  lookup-merge k ((j, u) ∷ us) s =
      lookup-merge k us (store j (any_to_string t u) s)
      ∙ ap (or_else (last_update k us)) (lookup-store k j (any_to_string t u) s)
      ∙ regroup (last_update k us) (bytes_eq j k)
    where
      regroup :
          (o : Option Bytes) (b : Bool)
          → or_else o (if b then some (any_to_string t u) else lookup k s)
            ≡ or_else (or_else o (if b then some (any_to_string t u) else none)) (lookup k s)
      regroup (some v) b = refl
      regroup none true = refl
      regroup none false = refl

-- What `Merge` changes is read back from the file: if no key of the settings stands twice, the
-- entries and the updates have keys that are not empty and have only plain visible signs of ASCII,
-- and values that, where they begin and end as parentheses, close what they open and are valid
-- UTF-8, and Go's library trims, quotes, unquotes and compares with the bare words as `IsFaithful`
-- says, then the merged settings, serialised and parsed, give for a key the text of its last
-- update, or its old value if it has none.
pub parse-serialize-merge :
    (t : Text) (current : Settings) (updates : List (Bytes × Update))
    → IsFaithful t
    → DistinctKeys current
    → All IsEntry current
    → All (IsUpdate t) updates
    → (p : Settings) × (parse t (serialize t (merge t current updates)) ≡ some p)
      × ((k : Bytes) → lookup k p ≡ or_else (last_update t k updates) (lookup k current))
parse-serialize-merge t current updates f d h i =
    let (p, e, same) =
      parse-serialize-lookup t (merge t current updates) f (merge-DistinctKeys t updates current d)
        (merge-entries t updates current i h) in
    (p, e, λ k. same k ∙ lookup-merge t k updates current)
