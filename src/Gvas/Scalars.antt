-- ===== src/Gvas/Scalars.antt =====
-- sav-cli/internal/gvas/properties.go: the values that hold no property list.
pub mod Good
use pal_panel_host_wine.Prelude.{
  ℕ, Bool, true, false, ◌&&◌, List, [], ◌∷◌, String, Bytes, codes, bytes_eq, ◌==◌, if◌then◌else◌,
}
use pal_panel_host_wine.Gvas.Value.{
  Value, Fields, end, array, object, put_all, choose, unknown_array_type,
}
use pal_panel_host_wine.Gvas.Reader.{
  M, pure, fail, ◌>>=◌, byte, bool, u32, i32, u64, i64, float, fstring, guid, optional_guid, repeat,
}
use pal_panel_host_wine.Gvas.Parts.{byte_int}

unfoldable pub linear_color : M Value
linear_color = do
  red ← float
  green ← float
  blue ← float
  alpha ← float
  pure (
      object (
        ("r", Value.single red)
        ∷ ("g", Value.single green)
        ∷ ("b", Value.single blue)
        ∷ ("a", Value.single alpha)
        ∷ []))

-- Readers of one value of an `any`.
abbrev pub int_value : M Value
int_value = do n ← i32; pure (Value.int n)

abbrev pub uint_value : M Value
uint_value = do n ← u32; pure (Value.uint n)

abbrev pub int64_value : M Value
int64_value = do n ← i64; pure (Value.int64 n)

abbrev pub uint64_value : M Value
uint64_value = do n ← u64; pure (Value.uint64 n)

abbrev pub text_value : M Value
text_value = do s ← fstring; pure (Value.str s)

abbrev pub guid_value : M Value
guid_value = do g ← guid; pure (Value.str g)

abbrev pub bool_value : M Value
bool_value = do b ← bool; pure (Value.bool b)

abbrev pub single_value : M Value
single_value = do x ← float; pure (Value.single x)

-- One element of `ArrayValue`, by the array's type.
abbrev pub array_cases : List (String × M Value)
array_cases =
    ("EnumProperty", text_value)
    ∷ ("NameProperty", text_value)
    ∷ ("StrProperty", text_value)
    ∷ ("Guid", guid_value)
    ∷ ("IntProperty", int_value)
    ∷ ("UInt32Property", uint_value)
    ∷ ("Int64Property", int64_value)
    ∷ ("FloatProperty", single_value)
    ∷ ("BoolProperty", bool_value)
    ∷ []

unfoldable pub array_element : Bytes → Bytes → M Value
array_element array_type path =
    choose array_type array_cases (fail (unknown_array_type array_type path))

unfoldable pub byte_element : M Value
byte_element = do b ← byte; pure (byte_int b)

-- `size` is an int64, kept by its bit pattern.
unfoldable pub array_value : Bytes → ℕ → ℕ → Bytes → M (List Value)
array_value array_type count size path =
    if bytes_eq array_type (codes "ByteProperty") && size == count
    then repeat count byte_element
    else repeat count (array_element array_type path)

unfoldable pub plain_array : Bytes → ℕ → ℕ → Bytes → M Value
plain_array array_type count size path = do
  values ← array_value array_type count size path
  pure (object (("values", array values) ∷ []))

unfoldable pub with_id : M Value → M Fields
with_id read_value = do
  id ← optional_guid
  v ← read_value
  pure (put_all (("id", id) ∷ ("value", v) ∷ []) end)

unfoldable pub enum_fields : Bytes → Value → Value → Fields
enum_fields enum_type id v =
    put_all
      (("id", id) ∷ ("value", object (("type", Value.str enum_type) ∷ ("value", v) ∷ [])) ∷ []) end

unfoldable pub enum_property : M Fields
enum_property = do
  enum_type ← fstring
  id ← optional_guid
  v ← text_value
  pure (enum_fields enum_type id v)

unfoldable pub byte_property : M Fields
byte_property = do
  enum_type ← fstring
  id ← optional_guid
  v ← (if bytes_eq enum_type (codes "None") then (do b ← byte; pure (Value.byte b)) else text_value)
  pure (enum_fields enum_type id v)

unfoldable pub bool_property : M Fields
bool_property = do
  v ← bool
  id ← optional_guid
  pure (put_all (("id", id) ∷ ("value", Value.bool v) ∷ []) end)
