-- ===== src/Gvas/Value.antt =====
-- The values that the decoder builds (Go's `any`), and its errors.
-- sav-cli/internal/gvas/gvas.go, properties.go and palworld_raw.go.
use pal_panel_host_wine.Prelude.{
  ℕ, String, Bool, List, [], ◌∷◌, Bytes, codes, bytes_eq, if◌then◌else◌, All, Bool-cases, inl, inr,
  false, ◌≡◌, ap, bytes_eq_sound, bytes_eq_refl,
}
use pal_panel_host_wine.Prelude.Int.{ℤ}

-- A constructor for each Go type that the decoder puts in an `any`. A float64 is kept by its bit
-- pattern, `single` where it was read as a float32.
mutual
  pub data Value : Type 0 where
    nil : Value
    bool : Bool → Value
    int : ℤ → Value
    uint : ℕ → Value
    byte : ℕ → Value
    int64 : ℤ → Value
    uint64 : ℕ → Value
    single : ℕ → Value
    double : ℕ → Value
    str : Bytes → Value
    arr : Items → Value
    obj : Fields → Value

  pub data Items : Type 0 where
    empty : Items
    cons : Value → Items → Items

  pub data Fields : Type 0 where
    end : Fields
    field : Bytes → Value → Fields → Fields

-- `m[k]`, with nil for a missing key.
unfoldable pub get : Bytes → Fields → Value
get k end = nil
get k (field j v fs) = if bytes_eq j k then v else get k fs

-- `m[k] = v`.
unfoldable pub put : Bytes → Value → Fields → Fields
put k v end = field k v end
put k v (field j w fs) = if bytes_eq j k then field j v fs else field j w (put k v fs)

abbrev pub fields : List (String × Value) → Fields
fields [] = end
fields ((k, v) ∷ l) = field (codes k) v (fields l)

-- A map literal.
abbrev pub object : List (String × Value) → Value
object l = obj (fields l)

abbrev pub items : List Value → Items
items [] = empty
items (v ∷ vs) = cons v (items vs)

abbrev pub array : List Value → Value
array l = arr (items l)

-- `out_of_fuel` is the model's own: it marks a recursion cut short.
pub data Error : Type 0 where
  past_end : ℕ → ℤ → ℕ → Error
  bad_magic bad_save_version bad_version_format : ℤ → Error
  too_many_versions : ℕ → Error
  fstring_too_large : ℤ → Error
  unreasonable_count : ℕ → Error
  unexpected_eof : Bytes → Error
  in_property : Bytes → Bytes → Error → Error
  unknown_property_type : Bytes → Error
  unknown_array_type unknown_value_type : Bytes → Bytes → Error
  unparsed_bytes : ℕ → Error
  out_of_fuel : Error

-- An error of the program itself, at any depth.
abbrev pub IsProper : Error → Type 0
IsProper out_of_fuel = ⊥
IsProper (in_property p t e) = IsProper e
IsProper _ = Unit

-- Writes the entries in turn.
unfoldable pub put_all : List (String × Value) → Fields → Fields
put_all [] fs = fs
put_all ((k, v) ∷ l) fs = put_all l (put (codes k) v fs)

-- `intsFromBytes`.
unfoldable pub ints_from_bytes : Bytes → Items
ints_from_bytes [] = empty
ints_from_bytes (b ∷ bs) = cons (Value.int (ℤ.pos b)) (ints_from_bytes bs)

-- The case of a `switch` on a string.
unfoldable pub choose {ℓ} : {A : Type ℓ} → Bytes → List (String × A) → A → A
choose k [] d = d
choose k ((j, a) ∷ l) d = if bytes_eq k (codes j) then a else choose k l d

-- What holds of every case and of the default holds of the choice.
pub choose-elim {ℓ κ} :
    {A : Type ℓ} (P : A → Type κ) (k : Bytes) (l : List (String × A)) (d : A)
    → All (λ e. P e.1) l
    → P d
    → P (choose k l d)
unfolding choose
choose-elim P k [] d h p = p
choose-elim P k ((j, a) ∷ l) d h p = elim (Bool-cases (bytes_eq k (codes j))) [
  | inl e ↦ rw e h.0
  | inr e ↦ rw e (choose-elim P k l d h.1 p)
]

-- A write changes no other key.
pub get-put_ne :
    (k i : Bytes) (v : Value) (fs : Fields) → bytes_eq k i ≡ false → get i (put k v fs) ≡ get i fs
unfolding get put
get-put_ne k i v end h = rw h
get-put_ne k i v (field j w fs) h = elim (Bool-cases (bytes_eq j k)) [
  | inl same ↦ rw same (rw (bytes_eq_sound j k same) (rw h))
  | inr other ↦ rw other (ap (λ t. if bytes_eq j i then w else t) (get-put_ne k i v fs h))
]

pub get-put_self : (k : Bytes) (v : Value) (fs : Fields) → get k (put k v fs) ≡ v
unfolding get put
get-put_self k v end = rw (bytes_eq_refl k)
get-put_self k v (field j w fs) = elim (Bool-cases (bytes_eq j k)) [
  | inl same ↦ rw same (rw same)
  | inr other ↦ rw other (rw other (get-put_self k v fs))
]

abbrev pub IsObj : Value → Type 0
IsObj (Value.obj _) = Unit
IsObj _ = ⊥

-- Every entry is a map.
abbrev pub AllObj : Fields → Type 0
AllObj end = Unit
AllObj (field k v fs) = IsObj v × AllObj fs

pub AllObj-put : (k : Bytes) (p fs : Fields) → AllObj fs → AllObj (put k (Value.obj p) fs)
unfolding put
AllObj-put k p end h = (tt, tt)
AllObj-put k p (field j w fs) h = elim (Bool-cases (bytes_eq j k)) [
  | inl same ↦ rw same (tt, h.1)
  | inr other ↦ rw other (h.0, AllObj-put k p fs h.1)
]
