-- ===== src/Palconfig/Lookup.antt =====
-- Settings as maps: storing, and sorting by the keys.
use pal_panel_host_wine.Prelude.{
  ◌≡◌, refl, sym, ap, ◌∙◌, inl, inr, Bool, true, false, Option, none, some, [], ◌∷◌, Bytes,
  bytes_eq, bytes_eq_sound, if◌then◌else◌, Bool-cases, for_each, All, arith,
}
use pal_panel_host_wine.Palconfig.{Settings, lookup, store, before, insert, sort}

-- No key twice.
abbrev pub DistinctKeys : Settings → Type 0
DistinctKeys [] = Unit
DistinctKeys ((k, v) ∷ s) = (lookup k s ≡ none) × DistinctKeys s

bytes_eq_sym : (a b : Bytes) → bytes_eq a b ≡ bytes_eq b a
unfolding bytes_eq
bytes_eq_sym [] [] = refl
bytes_eq_sym [] (y ∷ ys) = refl
bytes_eq_sym (x ∷ xs) [] = refl
bytes_eq_sym (x ∷ xs) (y ∷ ys) = ground (arith, bytes_eq_sym xs ys)

pub lookup-store :
    (j k v : Bytes) (s : Settings)
    → lookup j (store k v s) ≡ (if bytes_eq k j then some v else lookup j s)
unfolding lookup store
lookup-store j k v [] = refl
lookup-store j k v ((i, w) ∷ s) = elim (Bool-cases (bytes_eq i k)) [
  | inl same ↦ let e : i ≡ k = bytes_eq_sound i k same in rw same (rw e (by_key (bytes_eq k j)))
  | inr other ↦ rw other (elim (Bool-cases (bytes_eq i j)) [
    | inl here ↦
        let e : i ≡ j = bytes_eq_sound i j here in
        let n : bytes_eq k j ≡ false = ap (bytes_eq k) (sym e) ∙ bytes_eq_sym k i ∙ other in
        rw here (rw n refl)
    | inr there ↦ rw there (lookup-store j k v s)
  ])
]
  where
    by_key :
        (b : Bool)
        → (if b then some v else lookup j s)
          ≡ (if b then some v else (if b then some w else lookup j s))
    by_key true = refl
    by_key false = refl

lookup-insert :
    (j k v : Bytes) (s : Settings)
    → lookup k s ≡ none
    → lookup j (insert (k, v) s) ≡ (if bytes_eq k j then some v else lookup j s)
unfolding lookup insert
lookup-insert j k v [] h = refl
lookup-insert j k v ((i, w) ∷ s) h = elim (Bool-cases (before k i)) [
  | inl first ↦ rw first refl
  | inr later ↦ elim (Bool-cases (bytes_eq i k)) [
    | inl same ↦ absurd (present (rw same at h))
    | inr other ↦
        let ih = lookup-insert j k v s (rw other at h) in
        rw later (elim (Bool-cases (bytes_eq i j)) [
          | inl here ↦
              let e : i ≡ j = bytes_eq_sound i j here in
              let n : bytes_eq k j ≡ false = ap (bytes_eq k) (sym e) ∙ bytes_eq_sym k i ∙ other in
              rw here (rw n refl)
          | inr there ↦ rw there ih
        ])
  ]
]
  where
    present : some w ≡ none → ⊥
    present h = cc

insert-DistinctKeys :
    (k v : Bytes) (s : Settings)
    → lookup k s ≡ none
    → DistinctKeys s
    → DistinctKeys (insert (k, v) s)
unfolding lookup insert
insert-DistinctKeys k v [] h d = (refl, tt)
insert-DistinctKeys k v ((i, w) ∷ s) h (new, d) = elim (Bool-cases (before k i)) [
  | inl first ↦ rw first (h, (new, d))
  | inr later ↦ elim (Bool-cases (bytes_eq i k)) [
    | inl same ↦ absurd (present (rw same at h))
    | inr other ↦
        let n : bytes_eq k i ≡ false = bytes_eq_sym k i ∙ other in
        let h1 = rw other at h in
        rw later (lookup-insert i k v s h1 ∙ (rw n new), insert-DistinctKeys k v s h1 d)
  ]
]
  where
    present : some w ≡ none → ⊥
    present h = cc

pub lookup-sort : (j : Bytes) (s : Settings) → DistinctKeys s → lookup j (sort s) ≡ lookup j s
unfolding lookup sort
lookup-sort j [] d = refl
lookup-sort j ((k, v) ∷ s) (new, d) =
    lookup-insert j k v (sort s) (lookup-sort k s d ∙ new)
    ∙ ap (λ o. if bytes_eq k j then some v else o) (lookup-sort j s d)

pub sort-DistinctKeys : (s : Settings) → DistinctKeys s → DistinctKeys (sort s)
unfolding sort
sort-DistinctKeys [] d = tt
sort-DistinctKeys ((k, v) ∷ s) (new, d) =
    insert-DistinctKeys k v (sort s) (lookup-sort k s d ∙ new) (sort-DistinctKeys s d)

All-insert {ℓ} :
    (P : Bytes × Bytes → Type ℓ) (e : Bytes × Bytes) (s : Settings)
    → P e
    → All P s
    → All P (insert e s)
unfolding insert
All-insert P e [] p h = (p, tt)
All-insert P e (f ∷ s) p (q, h) = elim (Bool-cases (before e.0 f.0)) [
  | inl first ↦ rw first (p, (q, h))
  | inr later ↦ rw later (q, All-insert P e s p h)
]

pub All-sort {ℓ} : (P : Bytes × Bytes → Type ℓ) (s : Settings) → All P s → All P (sort s)
unfolding sort
All-sort P [] h = tt
All-sort P (e ∷ s) (p, h) = All-insert P e (sort s) p (All-sort P s h)

abbrev pub or_else : Option Bytes → Option Bytes → Option Bytes
or_else none o = o
or_else (some v) o = some v

-- Entries stored in turn.
abbrev pub store_all : Settings → Settings → Settings
store_all s out = for_each (λ e out. store e.0 e.1 out) s out

pub stored :
    (j : Bytes) (s out : Settings)
    → DistinctKeys s
    → lookup j (store_all s out) ≡ or_else (lookup j s) (lookup j out)
unfolding for_each lookup
stored j [] out d = refl
stored j ((k, v) ∷ s) out (new, d) =
    stored j s (store k v out) d ∙ ap (or_else (lookup j s)) (lookup-store j k v out) ∙ by_key
  where
    by_key :
        or_else (lookup j s) (if bytes_eq k j then some v else lookup j out)
        ≡ or_else (if bytes_eq k j then some v else lookup j s) (lookup j out)
    by_key = elim (Bool-cases (bytes_eq k j)) [
      | inl same ↦
          let e : lookup j s ≡ none = ap (λ k. lookup k s) (sym (bytes_eq_sound k j same)) ∙ new in
          rw same (rw e refl)
      | inr other ↦ rw other refl
    ]

pub lookup-store_all :
    (j : Bytes) (s : Settings) → DistinctKeys s → lookup j (store_all s []) ≡ lookup j s
unfolding lookup
lookup-store_all j s d = stored j s [] d ∙ nothing_else (lookup j s)
  where
    nothing_else : (o : Option Bytes) → or_else o none ≡ o
    nothing_else none = refl
    nothing_else (some v) = refl

pub store-DistinctKeys : (k v : Bytes) (s : Settings) → DistinctKeys s → DistinctKeys (store k v s)
unfolding store lookup
store-DistinctKeys k v [] d = (refl, tt)
store-DistinctKeys k v ((j, w) ∷ s) (new, d) = elim (Bool-cases (bytes_eq j k)) [
  | inl same ↦ rw same (new, d)
  | inr other ↦
      let n : bytes_eq k j ≡ false = bytes_eq_sym k j ∙ other in
      rw other (lookup-store j k v s ∙ (rw n new), store-DistinctKeys k v s d)
]

pub All-store {ℓ} :
    (P : Bytes × Bytes → Type ℓ) (k v : Bytes) (s : Settings)
    → P (k, v)
    → All P s
    → All P (store k v s)
unfolding store
All-store P k v [] p h = (p, tt)
All-store P k v ((j, w) ∷ s) p (q, h) = elim (Bool-cases (bytes_eq j k)) [
  | inl same ↦ let e : j ≡ k = bytes_eq_sound j k same in rw same ((rw e p), h)
  | inr other ↦ rw other (q, All-store P k v s p h)
]
