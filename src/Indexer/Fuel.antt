-- ===== src/Indexer/Fuel.antt =====
-- The recursions of `containerIDFromAny` and `bytesFromAny` end: on the size of a value as fuel they
-- are the recursions of the source.
use pal_panel_host_wine.Prelude.{
  ℕ, zero, suc, ◌+◌, ◌-◌, ◌≤◌, ◌≡◌, refl, ap, ◌∙◌, inl, inr, Option, none, some, [], String, Bytes,
  codes, bytes_eq, Bool-cases, arith,
}
use pal_panel_host_wine.Gvas.Value.{Value, Fields, end, field, get}
use pal_panel_host_wine.Indexer.Values.{
  Go, has_key, unwrap_within, unwrap, raw_map, as_map, get_field, as_string, list_of, size,
  fields_size, id_or, container_id_within, container_id_from_any, bytes_of_items, bytes_within,
  bytes_from_any,
}

size-positive : (v : Value) → 1 ≤ size v
unfolding size
size-positive Value.nil = omega arith
size-positive (Value.bool b) = omega arith
size-positive (Value.int n) = omega arith
size-positive (Value.uint n) = omega arith
size-positive (Value.byte n) = omega arith
size-positive (Value.int64 n) = omega arith
size-positive (Value.uint64 n) = omega arith
size-positive (Value.single n) = omega arith
size-positive (Value.double n) = omega arith
size-positive (Value.str s) = omega arith
size-positive (Value.arr vs) = omega arith
size-positive (Value.obj fs) = omega arith

fields_size-positive : (fs : Fields) → 1 ≤ fields_size fs
unfolding fields_size
fields_size-positive end = omega arith
fields_size-positive (field k v fs) = omega (arith, fields_size-positive fs)

size-get : (k : Bytes) (fs : Fields) → size (get k fs) ≤ fields_size fs
unfolding get fields_size
size-get k end = (unfold size in omega arith)
size-get k (field j v fs) = elim (Bool-cases (bytes_eq j k)) [
  | inl this ↦ rw this (omega arith)
  | inr other ↦ rw other (omega (arith, size-get k fs))
]

size-obj : (fs : Fields) → size (Value.obj fs) ≡ suc (fields_size fs)
unfolding size
size-obj fs = refl

size-unwrap_within : (n : ℕ) (v : Value) → size (unwrap_within n v) ≤ size v
unfolding unwrap_within
size-unwrap_within zero v = omega arith
size-unwrap_within (suc n) (Value.obj fs) = elim (Bool-cases (has_key (codes "value") fs)) [
  | inl wrapped ↦ rw wrapped (
      omega (
        arith,
        size-obj fs,
        size-get (codes "value") fs,
        size-unwrap_within n (get (codes "value") fs),
      ))
  | inr bare ↦ rw bare (omega arith)
]
size-unwrap_within (suc n) Value.nil = omega arith
size-unwrap_within (suc n) (Value.bool b) = omega arith
size-unwrap_within (suc n) (Value.int x) = omega arith
size-unwrap_within (suc n) (Value.uint x) = omega arith
size-unwrap_within (suc n) (Value.byte x) = omega arith
size-unwrap_within (suc n) (Value.int64 x) = omega arith
size-unwrap_within (suc n) (Value.uint64 x) = omega arith
size-unwrap_within (suc n) (Value.single x) = omega arith
size-unwrap_within (suc n) (Value.double x) = omega arith
size-unwrap_within (suc n) (Value.str s) = omega arith
size-unwrap_within (suc n) (Value.arr vs) = omega arith

size-unwrap : (v : Value) → size (unwrap v) ≤ size v
unfolding unwrap
size-unwrap v = size-unwrap_within 12 v

size-raw_map : (v : Value) (fs : Fields) → raw_map v ≡ some fs → suc (fields_size fs) ≤ size v
unfolding raw_map size
size-raw_map (Value.obj gs) fs h = let e : gs ≡ fs = cc in rw e (omega arith)
size-raw_map Value.nil fs h = absurd (cc)
size-raw_map (Value.bool b) fs h = absurd (cc)
size-raw_map (Value.int x) fs h = absurd (cc)
size-raw_map (Value.uint x) fs h = absurd (cc)
size-raw_map (Value.byte x) fs h = absurd (cc)
size-raw_map (Value.int64 x) fs h = absurd (cc)
size-raw_map (Value.uint64 x) fs h = absurd (cc)
size-raw_map (Value.single x) fs h = absurd (cc)
size-raw_map (Value.double x) fs h = absurd (cc)
size-raw_map (Value.str s) fs h = absurd (cc)
size-raw_map (Value.arr vs) fs h = absurd (cc)

size-as_map : (v : Value) (fs : Fields) → as_map v ≡ some fs → suc (fields_size fs) ≤ size v
unfolding as_map
size-as_map v fs h = omega (arith, size-raw_map (unwrap v) fs h, size-unwrap v)

size-get_field : (fs : Fields) (k : String) → size (get_field (Value.obj fs) k) ≤ fields_size fs
unfolding get_field
size-get_field fs k = by_map (as_map (Value.obj fs)) refl
  where
    by_map :
        (o : Option Fields)
        → as_map (Value.obj fs) ≡ o
        → size (elim o [ none ↦ Value.nil | some gs ↦ unwrap (get (codes k) gs) ]) ≤ fields_size fs
    by_map none h = unfold size in fields_size-positive fs
    by_map (some gs) h = omega (
      arith,
      size-as_map (Value.obj fs) gs h,
      size-obj fs,
      size-get (codes k) gs,
      size-unwrap (get (codes k) gs),
    )

module _ (go : Go) where
  -- More fuel than the size changes nothing.
  container_id-stable :
      (n : ℕ) (v : Value)
      → size v ≤ n
      → container_id_within go (suc n) v ≡ container_id_within go n v
  unfolding container_id_within
  container_id-stable zero v h = absurd (omega (arith, size-positive v))
  container_id-stable (suc n) v h = by_map (container_id-stable n) (as_map v) refl
    where
      by_map :
          ((w : Value) → size w ≤ n → container_id_within go (suc n) w ≡ container_id_within go n w)
          → (o : Option Fields) → as_map v ≡ o
          → elim o [
            | none ↦ as_string go v
            | some m ↦
                id_or go
                  (as_string go (get_field (Value.obj m) "ID"))
                  (container_id_within go (suc n) (get_field (Value.obj m) "ContainerId"))
                  (as_string go v)
          ]
            ≡ elim o [
              | none ↦ as_string go v
              | some m ↦
                  id_or go
                    (as_string go (get_field (Value.obj m) "ID"))
                    (container_id_within go n (get_field (Value.obj m) "ContainerId"))
                    (as_string go v)
            ]
      by_map stable none e = refl
      by_map stable (some m) e =
          ap
            (λ inner. id_or go (as_string go (get_field (Value.obj m) "ID")) inner (as_string go v))
            (stable (get_field (Value.obj m) "ContainerId")
              (omega (arith, size-as_map v m e, size-get_field m "ContainerId")))

  container_id-enough :
      (k n : ℕ) (v : Value)
      → size v + k ≡ n
      → container_id_within go n v ≡ container_id_from_any go v
  unfolding container_id_from_any
  container_id-enough zero n v h = ap (λ n. container_id_within go n v) (omega arith)
  container_id-enough (suc k) n v h =
      ap (λ n. container_id_within go n v) (omega arith)
      ∙ container_id-stable (size v + k) v (omega arith)
      ∙ container_id-enough k (size v + k) v refl

  -- What fuel for the whole gives for a part.
  part-enough :
      (n : ℕ) (v : Value) → size v ≤ n → container_id_within go n v ≡ container_id_from_any go v
  part-enough n v h = container_id-enough (n - size v) n v (omega arith)

  container_id-step :
      (n : ℕ) (v : Value)
      → size v ≡ suc n
      → container_id_within go (suc n) v ≡ elim (as_map v) [
        | none ↦ as_string go v
        | some m ↦
            id_or go
              (as_string go (get_field (Value.obj m) "ID"))
              (container_id_from_any go (get_field (Value.obj m) "ContainerId"))
              (as_string go v)
      ]
  unfolding container_id_within
  container_id-step n v h = by_map (as_map v) refl
    where
      by_map :
          (o : Option Fields)
          → as_map v ≡ o
          → elim o [
            | none ↦ as_string go v
            | some m ↦
                id_or go
                  (as_string go (get_field (Value.obj m) "ID"))
                  (container_id_within go n (get_field (Value.obj m) "ContainerId"))
                  (as_string go v)
          ]
            ≡ elim o [
              | none ↦ as_string go v
              | some m ↦
                  id_or go
                    (as_string go (get_field (Value.obj m) "ID"))
                    (container_id_from_any go (get_field (Value.obj m) "ContainerId"))
                    (as_string go v)
            ]
      by_map none e = refl
      by_map (some m) e =
          ap
            (λ inner. id_or go (as_string go (get_field (Value.obj m) "ID")) inner (as_string go v))
            (part-enough n (get_field (Value.obj m) "ContainerId")
              (omega (arith, size-as_map v m e, size-get_field m "ContainerId")))

  predecessor : (n : ℕ) → 1 ≤ n → (m : ℕ) × (n ≡ suc m)
  predecessor zero h = absurd (omega arith)
  predecessor (suc m) h = (m, refl)

  -- On the size of the value as fuel, `containerIDFromAny` is the recursion of the source: what is
  -- no map reads as its text, and of a map the first that is not empty of its id, the result for
  -- its `ContainerId`, and the text of the whole.
  pub container_id_from_any_lem :
      (v : Value)
      → container_id_from_any go v ≡ elim (as_map v) [
        | none ↦ as_string go v
        | some m ↦
            id_or go
              (as_string go (get_field (Value.obj m) "ID"))
              (container_id_from_any go (get_field (Value.obj m) "ContainerId"))
              (as_string go v)
      ]
  container_id_from_any_lem v =
      let (n, e) = predecessor (size v) (size-positive v) in
      from_any v ∙ ap (λ n. container_id_within go n v) e ∙ container_id-step n v e
    where
      from_any : (v : Value) → container_id_from_any go v ≡ container_id_within go (size v) v
      from_any v = unfold container_id_from_any in refl

  bytes-stable : (n : ℕ) (v : Value) → size v ≤ n → bytes_within go (suc n) v ≡ bytes_within go n v
  unfolding bytes_within
  bytes-stable zero v h = absurd (omega (arith, size-positive v))
  bytes-stable (suc n) v h = by_value (bytes-stable n) (unwrap v) (omega (arith, size-unwrap v, h))
    where
      by_value :
          ((w : Value) → size w ≤ n → bytes_within go (suc n) w ≡ bytes_within go n w)
          → (u : Value) → size u ≤ suc n
          → elim u [
            | Value.arr vs ↦ bytes_of_items go (list_of vs)
            | Value.obj fs ↦ bytes_within go (suc n) (get (codes "values") fs)
            | _ ↦ []
          ]
            ≡ elim u [
              | Value.arr vs ↦ bytes_of_items go (list_of vs)
              | Value.obj fs ↦ bytes_within go n (get (codes "values") fs)
              | _ ↦ []
            ]
      by_value stable (Value.obj fs) h =
          stable (get (codes "values") fs)
            (omega (arith, size-obj fs, size-get (codes "values") fs))
      by_value stable (Value.arr vs) h = refl
      by_value stable Value.nil h = refl
      by_value stable (Value.bool b) h = refl
      by_value stable (Value.int x) h = refl
      by_value stable (Value.uint x) h = refl
      by_value stable (Value.byte x) h = refl
      by_value stable (Value.int64 x) h = refl
      by_value stable (Value.uint64 x) h = refl
      by_value stable (Value.single x) h = refl
      by_value stable (Value.double x) h = refl
      by_value stable (Value.str x) h = refl

  bytes-enough : (k n : ℕ) (v : Value) → size v + k ≡ n → bytes_within go n v ≡ bytes_from_any go v
  unfolding bytes_from_any
  bytes-enough zero n v h = ap (λ n. bytes_within go n v) (omega arith)
  bytes-enough (suc k) n v h =
      ap (λ n. bytes_within go n v) (omega arith)
      ∙ bytes-stable (size v + k) v (omega arith)
      ∙ bytes-enough k (size v + k) v refl

  bytes-step :
      (n : ℕ) (v : Value)
      → size v ≡ suc n
      → bytes_within go (suc n) v ≡ elim (unwrap v) [
        | Value.arr vs ↦ bytes_of_items go (list_of vs)
        | Value.obj fs ↦ bytes_from_any go (get (codes "values") fs)
        | _ ↦ []
      ]
  unfolding bytes_within
  bytes-step n v h =
      by_value (λ w le. bytes-enough (n - size w) n w (omega arith)) (unwrap v)
        (omega (arith, size-unwrap v, h))
    where
      by_value :
          ((w : Value) → size w ≤ n → bytes_within go n w ≡ bytes_from_any go w)
          → (u : Value) → size u ≤ suc n
          → elim u [
            | Value.arr vs ↦ bytes_of_items go (list_of vs)
            | Value.obj fs ↦ bytes_within go n (get (codes "values") fs)
            | _ ↦ []
          ]
            ≡ elim u [
              | Value.arr vs ↦ bytes_of_items go (list_of vs)
              | Value.obj fs ↦ bytes_from_any go (get (codes "values") fs)
              | _ ↦ []
            ]
      by_value enough (Value.obj fs) h =
          enough (get (codes "values") fs)
            (omega (arith, size-obj fs, size-get (codes "values") fs))
      by_value enough (Value.arr vs) h = refl
      by_value enough Value.nil h = refl
      by_value enough (Value.bool b) h = refl
      by_value enough (Value.int x) h = refl
      by_value enough (Value.uint x) h = refl
      by_value enough (Value.byte x) h = refl
      by_value enough (Value.int64 x) h = refl
      by_value enough (Value.uint64 x) h = refl
      by_value enough (Value.single x) h = refl
      by_value enough (Value.double x) h = refl
      by_value enough (Value.str x) h = refl

  -- On the size of the value as fuel, `bytesFromAny` is the recursion of the source: the bytes of
  -- a list, the result for the `values` of a map, and no bytes for anything else.
  pub bytes_from_any_lem :
      (v : Value)
      → bytes_from_any go v ≡ elim (unwrap v) [
        | Value.arr vs ↦ bytes_of_items go (list_of vs)
        | Value.obj fs ↦ bytes_from_any go (get (codes "values") fs)
        | _ ↦ []
      ]
  bytes_from_any_lem v =
      let (n, e) = predecessor (size v) (size-positive v) in
      from_any v ∙ ap (λ n. bytes_within go n v) e ∙ bytes-step n v e
    where
      from_any : (v : Value) → bytes_from_any go v ≡ bytes_within go (size v) v
      from_any v = unfold bytes_from_any in refl
