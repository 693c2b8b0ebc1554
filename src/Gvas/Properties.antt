-- ===== src/Gvas/Properties.antt =====
-- sav-cli/internal/gvas/properties.go: the typed properties of a save. `properties path` stands for
-- `r.PropertiesUntilEnd(path)`, which these functions call back; `Decode` closes the recursion.
pub mod Good
use pal_panel_host_wine.Prelude.{
  ℕ, ◌+◌, ◌-◌, ◌%◌, ◌^◌, List, [], ◌∷◌, String, ◌++◌, Bytes, codes, bytes_eq, ltb, if◌then◌else◌,
}
use pal_panel_host_wine.Prelude.Int.{pos, signed8}
use pal_panel_host_wine.Gvas.Value.{
  Value, Fields, end, array, object, put, put_all, choose, unreasonable_count,
  unknown_property_type, unknown_value_type,
}
use pal_panel_host_wine.Gvas.Reader.{
  M, pure, fail, ◌>>=◌, skip, byte, u16, u32, u64, double_float, fstring, guid, optional_guid,
  repeat,
}
use pal_panel_host_wine.Gvas.Parts.{vector, quat, transform}
use pal_panel_host_wine.Gvas.Hints.{struct_hint}
use pal_panel_host_wine.Gvas.Scalars.{
  linear_color, int_value, uint_value, int64_value, uint64_value, text_value, guid_value,
  bool_value, single_value, plain_array, with_id, enum_property, byte_property, bool_property,
}

abbrev pub struct_cases : List (String × M Value)
struct_cases =
    ("Vector", vector)
    ∷ ("Quat", quat)
    ∷ ("Transform", transform)
    ∷ ("Rotator", vector)
    ∷ ("DateTime", uint64_value)
    ∷ ("Guid", guid_value)
    ∷ ("LinearColor", linear_color)
    ∷ []

module _ (properties : Bytes → M Fields) where
  unfoldable pub properties_value : Bytes → M Value
  properties_value path = do fs ← properties path; pure (Value.obj fs)

  unfoldable pub struct_value : Bytes → Bytes → M Value
  struct_value struct_type path = choose struct_type struct_cases (properties_value path)

  unfoldable pub struct : Bytes → M Fields
  struct path = do
    struct_type ← fstring
    struct_id ← guid
    id ← optional_guid
    v ← struct_value struct_type path
    pure (
        put_all
          (("struct_type", Value.str struct_type)
            ∷ ("struct_id", Value.str struct_id)
            ∷ ("id", id)
            ∷ ("value", v)
            ∷ [])
          end)

  abbrev pub value_cases : Bytes → Bytes → List (String × M Value)
  value_cases struct_type path =
      ("StructProperty", struct_value struct_type path)
      ∷ ("EnumProperty", text_value)
      ∷ ("NameProperty", text_value)
      ∷ ("StrProperty", text_value)
      ∷ ("IntProperty", int_value)
      ∷ ("UInt32Property", uint_value)
      ∷ ("Int64Property", int64_value)
      ∷ ("BoolProperty", bool_value)
      ∷ ("Guid", guid_value)
      ∷ []

  unfoldable pub prop_value : Bytes → Bytes → Bytes → M Value
  prop_value type_name struct_type path =
      choose type_name (value_cases struct_type path) (fail (unknown_value_type type_name path))

  -- The elements of an array of structs, behind their common header.
  unfoldable pub struct_array : ℕ → Bytes → M Value
  struct_array count path = do
    prop_name ← fstring
    prop_type ← fstring
    size ← u64
    type_name ← fstring
    id ← guid
    padding ← skip (pos 1)
    values ← repeat count (struct_value type_name (path ++ codes "." ++ prop_name))
    pure (
        object (
          ("prop_name", Value.str prop_name)
          ∷ ("prop_type", Value.str prop_type)
          ∷ ("type_name", Value.str type_name)
          ∷ ("id", Value.str id)
          ∷ ("values", array values)
          ∷ []))

  unfoldable pub array_property : Bytes → ℕ → Bytes → M Value
  array_property array_type size path = do
    count ← u32
    if ltb 10000000 count
        then fail (unreasonable_count count)
        else if bytes_eq array_type (codes "StructProperty")
        then struct_array count path
        else plain_array array_type count size path

  unfoldable pub map_entry : Bytes → Bytes → Bytes → Bytes → Bytes → M Value
  map_entry key_type value_type key_struct value_struct path = do
    key ← prop_value key_type key_struct (path ++ codes ".Key")
    value ← prop_value value_type value_struct (path ++ codes ".Value")
    pure (object (("key", key) ∷ ("value", value) ∷ []))

  unfoldable pub map_property : Bytes → M Fields
  map_property path = do
    key_type ← fstring
    value_type ← fstring
    id ← optional_guid
    removed ← u32
    count ← u32
    if ltb 10000000 count then fail (unreasonable_count count) else do
      let key_struct = struct_hint key_type (path ++ codes ".Key") "Guid"
      let value_struct = struct_hint value_type (path ++ codes ".Value") "StructProperty"
      values ← repeat count (map_entry key_type value_type key_struct value_struct path)
      pure (
          put_all
            (("key_type", Value.str key_type)
              ∷ ("value_type", Value.str value_type)
              ∷ ("key_struct_type", Value.str key_struct)
              ∷ ("value_struct_type", Value.str value_struct)
              ∷ ("id", id)
              ∷ ("value", array values)
              ∷ [])
            end)

  -- The count of a set is not limited.
  unfoldable pub set_property : Bytes → M Fields
  set_property path = do
    elem_type ← fstring
    id ← optional_guid
    removed ← u32
    count ← u32
    values ← repeat count (prop_value elem_type [] (path ++ codes ".Value"))
    pure (
        put_all (("element_type", Value.str elem_type) ∷ ("id", id) ∷ ("value", array values) ∷ [])
          end)

  unfoldable pub array_fields : ℕ → Bytes → M Fields
  array_fields size path = do
    array_type ← fstring
    id ← optional_guid
    v ← array_property array_type ((size + 2 ^ 64 - 4) % 2 ^ 64) path
    pure (put_all (("array_type", Value.str array_type) ∷ ("id", id) ∷ ("value", v) ∷ []) end)

  -- The `switch typeName` of `Property`.
  abbrev pub property_cases : ℕ → Bytes → List (String × M Fields)
  property_cases size path =
      ("StructProperty", struct path)
      ∷ ("IntProperty", with_id int_value)
      ∷ ("Int8Property", with_id (do b ← byte; pure (Value.int (signed8 b))))
      ∷ ("UInt16Property", with_id (do n ← u16; pure (Value.int (pos n))))
      ∷ ("UInt32Property", with_id uint_value)
      ∷ ("UInt64Property", with_id uint64_value)
      ∷ ("Int64Property", with_id int64_value)
      ∷ ("FixedPoint64Property", with_id int_value)
      ∷ ("FloatProperty", with_id single_value)
      ∷ ("DoubleProperty", with_id (do x ← double_float; pure (Value.double x)))
      ∷ ("StrProperty", with_id text_value)
      ∷ ("NameProperty", with_id text_value)
      ∷ ("ObjectProperty", with_id text_value)
      ∷ ("SoftObjectProperty", with_id text_value)
      ∷ ("EnumProperty", enum_property)
      ∷ ("BoolProperty", bool_property)
      ∷ ("ByteProperty", byte_property)
      ∷ ("ArrayProperty", array_fields size path)
      ∷ ("MapProperty", map_property path)
      ∷ ("SetProperty", set_property path)
      ∷ []

  unfoldable pub property_fields : Bytes → ℕ → Bytes → M Fields
  property_fields type_name size path =
      choose type_name (property_cases size path) (fail (unknown_property_type type_name))

  -- `Property` with `nestedCustom`.
  unfoldable pub plain_property : Bytes → ℕ → Bytes → M Fields
  plain_property type_name size path = do
    value ← property_fields type_name size path
    pure (put (codes "type") (Value.str type_name) value)
