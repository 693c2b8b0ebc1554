-- ===== src/Indexer/Values.antt =====
-- sav-cli/internal/indexer/normalize.go: how the indexer reads a decoded tree. Every reading first
-- unwraps the maps that hold a "value", at most twelve deep.
use pal_panel_host_wine.Prelude.{
  true, ℕ, zero, suc, ◌+◌, ◌^◌, Bool, false, not, ◌||◌, Option, none, some, List, [], ◌∷◌, ◌++◌,
  String, Bytes, codes, bytes_eq, length, ◌==◌, if◌then◌else◌,
}
use pal_panel_host_wine.Prelude.Int.{ℤ, pos, negsuc, signed64}
use pal_panel_host_wine.Gvas.Value.{Value, Items, empty, cons, Fields, end, field, get}
use pal_panel_host_wine.Gvas.Reader.{Result, ok, err}
use pal_panel_host_wine.Gvas.Decode.{Host, byte_of_int}

-- Go's library and runtime: strings, conversions of numbers and float64 arithmetic, where a float64
-- stands by its bits. `float_of` converts a number, `int_of_float` a float.
pub record Go : Type 0 where
  pub host : Host
  pub trim_space : Bytes → Bytes
  pub to_lower : Bytes → Bytes
  pub equal_fold : Bytes → Bytes → Bool
  pub print_int : ℤ → Bytes
  pub parse_int : Bytes → Option ℤ
  pub parse_float : Bytes → Option ℕ
  pub int_of_float : Value → ℤ
  pub float_of : Value → ℕ
  pub float_sub : ℕ → ℕ → ℕ
  pub float_add : ℕ → ℕ → ℕ
  pub float_mul : ℕ → ℕ → ℕ
  pub float_lt : ℕ → ℕ → Bool
  pub float_le : ℕ → ℕ → Bool
  pub max_float : ℕ

-- Whether a map has the key, which may hold nil.
unfoldable pub has_key : Bytes → Fields → Bool
has_key k end = false
has_key k (field j v fs) = bytes_eq j k || has_key k fs

unfoldable pub unwrap_within : ℕ → Value → Value
unwrap_within zero v = v
unwrap_within (suc n) (Value.obj fs) =
    let inner = unwrap_within n (get (codes "value") fs) in
    if has_key (codes "value") fs then inner else Value.obj fs
unwrap_within (suc n) v = v

unfoldable pub unwrap : Value → Value
unwrap = unwrap_within 12

-- A map, and none for anything else.
unfoldable pub raw_map : Value → Option Fields
raw_map (Value.obj fs) = some fs
raw_map _ = none

unfoldable pub as_map : Value → Option Fields
as_map v = raw_map (unwrap v)

-- `m, _ := asMap(…)`: no map reads as an empty one.
unfoldable pub fields_of : Value → Fields
fields_of v = elim (as_map v) [ none ↦ end | some fs ↦ fs ]

unfoldable pub get_field : Value → String → Value
get_field v k = elim (as_map v) [ none ↦ Value.nil | some fs ↦ unwrap (get (codes k) fs) ]

unfoldable pub list_of : Items → List Value
list_of empty = []
list_of (cons v vs) = v ∷ list_of vs

unfoldable pub items_of : Value → List Value
items_of (Value.arr vs) = list_of vs
items_of _ = []

unfoldable pub as_list : Value → List Value
as_list v = elim (unwrap v) [
  | Value.arr vs ↦ list_of vs
  | Value.obj fs ↦ items_of (get (codes "values") fs)
  | _ ↦ []
]

-- 0.0 and -0.0.
unfoldable pub is_zero_float : ℕ → Bool
is_zero_float x = x == 0 || x == 2 ^ 63

-- Sizes of values, as fuel.
unfoldable mutual
  pub size : Value → ℕ
  size (Value.arr vs) = suc (items_size vs)
  size (Value.obj fs) = suc (fields_size fs)
  size _ = 1

  pub items_size : Items → ℕ
  items_size empty = 0
  items_size (cons v vs) = size v + items_size vs

  pub fields_size : Fields → ℕ
  fields_size end = 1
  fields_size (field k v fs) = size v + fields_size fs

module _ (go : Go) where
  unfoldable pub string_of : Value → Bytes
  string_of Value.nil = []
  string_of (Value.str s) = s
  string_of v = go.host.sprint v

  unfoldable pub as_string : Value → Bytes
  as_string v = string_of (unwrap v)

  unfoldable pub or_int : Option ℤ → ℤ → ℤ
  or_int none fallback = fallback
  or_int (some n) fallback = n

  -- `int` has 64 bits.
  unfoldable pub int_of : ℤ → Value → ℤ
  int_of fallback (Value.int n) = n
  int_of fallback (Value.int64 n) = n
  int_of fallback (Value.uint n) = pos n
  int_of fallback (Value.byte n) = pos n
  int_of fallback (Value.uint64 n) = signed64 n
  int_of fallback (Value.single x) = go.int_of_float (Value.single x)
  int_of fallback (Value.double x) = go.int_of_float (Value.double x)
  int_of fallback (Value.str s) = or_int (go.parse_int s) fallback
  int_of fallback _ = fallback

  unfoldable pub as_int_default : Value → ℤ → ℤ
  as_int_default v fallback = int_of fallback (unwrap v)

  unfoldable pub as_int : Value → ℤ
  as_int v = as_int_default v (pos 0)

  -- `asInt64` reads what `asInt` reads.
  unfoldable pub as_int64 : Value → ℤ
  as_int64 v = int_of (pos 0) (unwrap v)

  unfoldable pub or_float : Option ℕ → ℕ
  or_float none = 0
  or_float (some x) = x

  unfoldable pub float_value : Value → ℕ
  float_value (Value.str s) = or_float (go.parse_float s)
  float_value (Value.arr vs) = 0
  float_value (Value.obj fs) = 0
  float_value (Value.bool b) = 0
  float_value Value.nil = 0
  float_value (Value.double x) = x
  float_value v = go.float_of v

  unfoldable pub as_float : Value → ℕ
  as_float v = float_value (unwrap v)

  unfoldable pub is_zero_int : ℤ → Bool
  is_zero_int (pos n) = n == 0
  is_zero_int (negsuc n) = false

  unfoldable pub bool_of : Value → Bool
  bool_of (Value.bool b) = b
  bool_of (Value.str s) = go.equal_fold s (codes "true") || bytes_eq s (codes "1")
  bool_of (Value.int n) = not (is_zero_int n)
  bool_of (Value.byte n) = not (n == 0)
  bool_of _ = false

  unfoldable pub as_bool : Value → Bool
  as_bool v = bool_of (unwrap v)

  unfoldable pub is_blank : Bytes → Bool
  is_blank s = length (go.trim_space s) == 0

  unfoldable pub first_non_empty : List Bytes → Bytes
  first_non_empty [] = []
  first_non_empty (s ∷ ss) = let later = first_non_empty ss in if is_blank s then later else s

  unfoldable pub first_non_empty_any : List Value → Value
  first_non_empty_any [] = Value.nil
  first_non_empty_any (v ∷ vs) =
      let later = first_non_empty_any vs in if length (as_string v) == 0 then later else v

  unfoldable pub string_slice : List Value → List Bytes
  string_slice [] = []
  string_slice (v ∷ vs) =
      let rest = string_slice vs in if length (as_string v) == 0 then rest else as_string v ∷ rest

  unfoldable pub bytes_of_items : List Value → Bytes
  bytes_of_items [] = []
  bytes_of_items (v ∷ vs) = byte_of_int (as_int v) ∷ bytes_of_items vs

  unfoldable pub bytes_within : ℕ → Value → Bytes
  bytes_within zero v = []
  bytes_within (suc n) v = elim (unwrap v) [
    | Value.arr vs ↦ bytes_of_items (list_of vs)
    | Value.obj fs ↦ bytes_within n (get (codes "values") fs)
    | _ ↦ []
  ]

  unfoldable pub bytes_from_any : Value → Bytes
  bytes_from_any v = bytes_within (size v) v

  unfoldable pub is_zero_guid : Bytes → Bool
  is_zero_guid s = bytes_eq (go.trim_space s) (codes "00000000-0000-0000-0000-000000000000")

  -- One round: the id of the map, what the "ContainerId" gives, or the text of the whole.
  unfoldable pub id_or : Bytes → Bytes → Bytes → Bytes
  id_or id inner whole =
      if not (length id == 0) then id else if not (length inner == 0) then inner else whole

  unfoldable pub container_id_within : ℕ → Value → Bytes
  container_id_within zero v = []
  container_id_within (suc n) v = elim (as_map v) [
    | none ↦ as_string v
    | some m ↦
        id_or (as_string (get_field (Value.obj m) "ID"))
          (container_id_within n (get_field (Value.obj m) "ContainerId")) (as_string v)
  ]

  unfoldable pub container_id_from_any : Value → Bytes
  container_id_from_any v = container_id_within (size v) v

  unfoldable pub canonical_save_id : Bytes → Bytes
  canonical_save_id s = go.to_lower (go.trim_space s)

  unfoldable pub format_unix_like : ℤ → Bytes
  format_unix_like (pos zero) = []
  format_unix_like (pos (suc n)) = go.print_int (pos (suc n))
  format_unix_like (negsuc n) = []

  -- `rawDataMap`: a map that is not an encoded byte array as it is, else the decoded bytes. No bytes
  -- give an empty map.
  unfoldable pub decoded_bytes : (Bytes → Result Fields) → Bytes → Result Fields
  decoded_bytes decode [] = ok end
  decoded_bytes decode (b ∷ bs) = decode (b ∷ bs)

  unfoldable pub raw_data_map : Value → (Bytes → Result Fields) → Result Fields
  raw_data_map v decode = elim (as_map v) [
    | none ↦ decoded_bytes decode (bytes_from_any v)
    | some raw ↦
        if has_key (codes "values") raw then decoded_bytes decode (bytes_from_any v) else ok raw
  ]

-- The map that `DecodeCharacterRaw` and `DecodeBaseCampRaw` give as an `any`.
unfoldable pub decoded_map : Result Value → Result Fields
decoded_map (err e) = err e
decoded_map (ok v) = elim (raw_map v) [ none ↦ ok end | some fs ↦ ok fs ]

-- `len(m) == 0`.
unfoldable pub is_empty : Fields → Bool
is_empty end = true
is_empty (field k v fs) = false

-- `appendUnique`.
unfoldable pub has_text : List Bytes → Bytes → Bool
has_text [] s = false
has_text (t ∷ ts) s = bytes_eq t s || has_text ts s

unfoldable pub append_unique : List Bytes → Bytes → List Bytes
append_unique ts s = if has_text ts s then ts else ts ++ s ∷ []
