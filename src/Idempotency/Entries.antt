-- ===== src/Idempotency/Entries.antt =====
-- The map of entries: what purging, evicting and adding do to each key.
use pal_panel_host_wine.Prelude.{
  ℕ, ◌≤◌, ◌<◌, ◌≡◌, refl, sym, ap, ◌∙◌, ◌⊎◌, inl, inr, Bool, true, false, Option, none, some, List,
  [], ◌∷◌, Bytes, bytes_eq, bytes_eq_iff, length, Bool-cases, if◌then◌else◌, arith,
}
use pal_panel_host_wine.Idempotency.{
  Entry, find, remove, purge, expired, is_done, improves, oldest_from,
}

-- No key has two entries.
abbrev pub Distinct : List (Bytes × ℕ) → Type 0
Distinct [] = Unit
Distinct ((k, i) ∷ es) = (find k es ≡ none) × Distinct es

pub find-remove :
    (k j : Bytes) (es : List (Bytes × ℕ))
    → find j (remove k es) ≡ (if bytes_eq k j then none else find j es)
unfolding find remove
find-remove k j [] = ground arith
find-remove k j ((l, i) ∷ es) =
    ground (arith, find-remove k j es, bytes_eq_iff l k, bytes_eq_iff l j, bytes_eq_iff k j)

pub length-remove : (k : Bytes) (es : List (Bytes × ℕ)) → length (remove k es) ≤ length es
unfolding remove
length-remove k [] = omega arith
length-remove k ((l, i) ∷ es) = ground (arith, length-remove k es)

pub length-remove_found :
    (k : Bytes) (es : List (Bytes × ℕ)) (i : ℕ)
    → find k es ≡ some i
    → length (remove k es) < length es
unfolding find remove
length-remove_found k [] i h = absurd (cc)
length-remove_found k ((l, j) ∷ es) i h =
    ground (arith, length-remove k es, length-remove_found k es i)

pub Distinct-remove : (k : Bytes) (es : List (Bytes × ℕ)) → Distinct es → Distinct (remove k es)
unfolding remove
Distinct-remove k [] d = tt
Distinct-remove k ((l, i) ∷ es) d = elim (Bool-cases (bytes_eq l k)) [
  | inl same ↦ rw same (Distinct-remove k es d.1)
  | inr other ↦
      rw other
        (find-remove k l es ∙ if_none (bytes_eq k l) (find l es) d.0, Distinct-remove k es d.1)
]
  where
    if_none : (b : Bool) (o : Option ℕ) → o ≡ none → (if b then none else o) ≡ none
    if_none true o e = refl
    if_none false o e = e

module _ {A : Type 0} (now : ℕ) (heap : ℕ → Entry A) where
  -- What is left of an entry.
  abbrev pub kept : Option ℕ → Option ℕ
  kept none = none
  kept (some i) = if expired now (heap i) then none else some i

  pub find-purge :
      (k : Bytes) (es : List (Bytes × ℕ))
      → Distinct es
      → find k (purge now heap es) ≡ kept (find k es)
  unfolding find purge
  find-purge k [] d = refl
  find-purge k ((l, i) ∷ es) d = elim (Bool-cases (bytes_eq l k)) [
    | inl same ↦
        let here : find k es ≡ none = ap (λ x. find x es) (sym ((bytes_eq_iff l k).0 same)) ∙ d.0 in
        let gone : find k (purge now heap es) ≡ none = find-purge k es d.1 ∙ ap kept here in
        split_same same gone
    | inr other ↦ split_other other (find-purge k es d.1)
  ]
    where
      split_same :
          bytes_eq l k ≡ true
          → find k (purge now heap es) ≡ none
          → find k (purge now heap ((l, i) ∷ es)) ≡ kept (find k ((l, i) ∷ es))
      split_same same gone = ground arith

      split_other :
          bytes_eq l k ≡ false
          → find k (purge now heap es) ≡ kept (find k es)
          → find k (purge now heap ((l, i) ∷ es)) ≡ kept (find k ((l, i) ∷ es))
      split_other other rest = elim (Bool-cases (expired now (heap i))) [
        | inl old ↦ rw old (rw other rest)
        | inr young ↦ rw young (rw other rest)
      ]

  pub length-purge : (es : List (Bytes × ℕ)) → length (purge now heap es) ≤ length es
  unfolding purge
  length-purge [] = omega arith
  length-purge ((l, i) ∷ es) = ground (arith, length-purge es)

  pub length-purge-expired :
      (k : Bytes) (i : ℕ) (es : List (Bytes × ℕ))
      → find k es ≡ some i
      → expired now (heap i) ≡ true
      → length (purge now heap es) < length es
  unfolding find purge
  length-purge-expired k i [] h old = absurd (cc)
  length-purge-expired k i ((l, j) ∷ es) h old = elim (Bool-cases (bytes_eq l k)) [
    | inl same ↦
        let e : j ≡ i = ground (arith, h, same) in
        rw (ap (λ x. expired now (heap x)) e ∙ old) (omega (arith, length-purge es))
    | inr other ↦ ground (arith, length-purge es, length-purge-expired k i es)
  ]

  pub Distinct-purge : (es : List (Bytes × ℕ)) → Distinct es → Distinct (purge now heap es)
  unfolding purge
  Distinct-purge [] d = tt
  Distinct-purge ((l, i) ∷ es) d = elim (Bool-cases (expired now (heap i))) [
    | inl old ↦ rw old (Distinct-purge es d.1)
    | inr young ↦ rw young (find-purge l es d.1 ∙ ap kept d.0, Distinct-purge es d.1)
  ]

module _ {A : Type 0} (heap : ℕ → Entry A) where
  -- A victim is an entry of the map whose action has ended.
  abbrev pub IsVictim : Bytes → List (Bytes × ℕ) → Type 0
  IsVictim k es = (i : ℕ) × (find k es ≡ some i) × (is_done (heap i).outcome ≡ true)

  IsVictim-cons :
      (k l : Bytes) (j : ℕ) (es : List (Bytes × ℕ))
      → find l es ≡ none
      → IsVictim k es
      → IsVictim k ((l, j) ∷ es)
  unfolding find
  IsVictim-cons k l j es fresh (i, found, ended) = (i, ground (arith, bytes_eq_iff l k), ended)

  pub oldest_from-IsVictim :
      (es : List (Bytes × ℕ)) (best : Option (Bytes × ℕ)) (k : Bytes) (t : ℕ)
      → Distinct es
      → oldest_from heap es best ≡ some (k, t)
      → (best ≡ some (k, t)) ⊎ IsVictim k es
  unfolding oldest_from find
  oldest_from-IsVictim [] best k t d h = inl h
  oldest_from-IsVictim ((l, j) ∷ es) best k t d h = elim (Bool-cases (is_done (heap j).outcome)) [
    | inl ended ↦ elim (Bool-cases (improves (heap j) best)) [
      | inl better ↦
          elim (oldest_from-IsVictim es (some (l, (heap j).created_at)) k t d.1
            (rw (ended, better) at h)) [
              | inl this ↦ inr (j, ground (arith, bytes_eq_iff l k), ended)
              | inr later ↦ inr (IsVictim-cons k l j es d.0 later)
            ]
      | inr worse ↦ elim (oldest_from-IsVictim es best k t d.1 (rw (ended, worse) at h)) [
        | inl old ↦ inl old
        | inr later ↦ inr (IsVictim-cons k l j es d.0 later)
      ]
    ]
    | inr pending ↦ elim (oldest_from-IsVictim es best k t d.1 (rw pending at h)) [
      | inl old ↦ inl old
      | inr later ↦ inr (IsVictim-cons k l j es d.0 later)
    ]
  ]
