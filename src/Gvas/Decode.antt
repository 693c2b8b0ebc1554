-- ===== src/Gvas/Decode.antt =====
-- sav-cli/internal/gvas: `PropertiesUntilEnd`, `Property` and the blobs inside properties, which
-- call one another, and `Read`. The recursion is on fuel.
pub mod Blob
mod Bodies
pub mod Encode
pub mod RoundTrip
mod Weight
pub mod Total
use pal_panel_host_wine.Prelude.{
  ℕ, zero, suc, ◌+◌, ◌-◌, ◌%◌, Bool, true, false, List, [], ◌∷◌, ◌++◌, Bytes, codes, bytes_eq,
  length, ltb, leb, not, ◌&&◌, if◌then◌else◌,
}
use pal_panel_host_wine.Prelude.Int.{ℤ, pos, negsuc}
use pal_panel_host_wine.Gvas.Value.{
  Value, Items, empty, cons, Fields, end, get, put, put_all, object, array, Error, out_of_fuel,
  in_property, unexpected_eof,
}
use pal_panel_host_wine.Gvas.Reader.{
  Result, ok, err, Reader, M, pure, fail, ◌>>=◌, at_eof, get_remaining, byte, u64, fstring, guid,
  run,
}
use pal_panel_host_wine.Gvas.Header.{Header, read_header}
use pal_panel_host_wine.Gvas.Parts.{byte_int, raw_ints, with_trailing}
use pal_panel_host_wine.Gvas.Group.{decode_group_raw}
use pal_panel_host_wine.Gvas.Slots.{decode_base_camp_raw}
use pal_panel_host_wine.Gvas.Properties.{plain_property}

-- What Go's runtime and `fmt` compute: `byte(x)` of a float64, the text of an error, and
-- `fmt.Sprint` of a value that is no string.
pub record Host : Type 0 where
  pub byte_of_float : Value → ℕ
  pub error_text : Error → Bytes
  pub sprint : Value → Bytes

unfoldable pub get_nested : Value → List Bytes → Value
get_nested v [] = v
get_nested (Value.obj fs) (k ∷ ks) = get_nested (get k fs) ks
get_nested v (k ∷ ks) = Value.nil

unfoldable pub get_map : Fields → Bytes → Value
get_map fs k = elim (get k fs) [ Value.obj m ↦ Value.obj m | _ ↦ Value.nil ]

-- `byte(n)` of an int.
unfoldable pub byte_of_int : ℤ → ℕ
byte_of_int (pos n) = n % 256
byte_of_int (negsuc n) = 255 - n % 256

-- The mark of the model's own error, at any depth.
unfoldable pub exhausted : Error → Bool
exhausted out_of_fuel = true
exhausted (in_property p t e) = exhausted e
exhausted _ = false

unfoldable pub raw_or : Value → Value → Value
raw_or Value.nil other = other
raw_or v other = v

-- The loop of `DecodeCharacterRaw` over at most four bytes.
unfoldable pub unknown_bytes : ℕ → M (List Value)
unknown_bytes zero = pure []
unknown_bytes (suc n) = do
  done ← at_eof
  if done then pure [] else do b ← byte; vs ← unknown_bytes n; pure (byte_int b ∷ vs)

unfoldable pub character_group_id : M Bytes
character_group_id = do left ← get_remaining; if leb 16 left then guid else pure []

abbrev pub group_path : Bytes
group_path = codes ".worldSaveData.GroupSaveDataMap"

abbrev pub character_path : Bytes
character_path = codes ".worldSaveData.CharacterSaveParameterMap.Value.RawData"

abbrev pub base_camp_path : Bytes
base_camp_path = codes ".worldSaveData.BaseCampSaveData.Value.RawData"

module _ (properties : Bytes → M Fields) where
  unfoldable pub character : M Fields
  character = do
    props ← properties []
    unknown ← unknown_bytes 4
    group_id ← character_group_id
    with_trailing (
        put_all
          (("object", Value.obj props)
            ∷ ("unknown_bytes", array unknown)
            ∷ ("group_id", Value.str group_id)
            ∷ [])
          end)

  unfoldable pub decode_character : Bytes → Result Value
  decode_character bytes = elim (run character bytes) [ ok fs ↦ ok (Value.obj fs) | err e ↦ err e ]

-- `fmt.Errorf("%s (%s): %w", …)`.
unfoldable pub annotated : Bytes → Bytes → Result (Fields × Reader) → Result (Fields × Reader)
annotated path type_name (ok x) = ok x
annotated path type_name (err e) = err (in_property path type_name e)

unfoldable pub annotate : Bytes → Bytes → M Fields → M Fields
annotate path type_name m r = annotated path type_name (m r)

module _ (host : Host) where
  unfoldable pub as_string : Value → Bytes
  as_string Value.nil = []
  as_string (Value.str s) = s
  as_string v = host.sprint v

  -- The bytes of a list's numbers; other entries are passed over.
  unfoldable pub item_bytes : Items → Bytes
  item_bytes empty = []
  item_bytes (cons (Value.int n) vs) = byte_of_int n ∷ item_bytes vs
  item_bytes (cons (Value.uint n) vs) = (n % 256) ∷ item_bytes vs
  item_bytes (cons (Value.byte n) vs) = n ∷ item_bytes vs
  item_bytes (cons (Value.single x) vs) = host.byte_of_float (Value.single x) ∷ item_bytes vs
  item_bytes (cons (Value.double x) vs) = host.byte_of_float (Value.double x) ∷ item_bytes vs
  item_bytes (cons v vs) = item_bytes vs

  unfoldable pub list_bytes : Value → Bytes
  list_bytes (Value.arr vs) = item_bytes vs
  list_bytes _ = []

  unfoldable pub bytes_from_property : Value → Bytes
  bytes_from_property value = list_bytes (
      raw_or (get_nested value (codes "value" ∷ codes "values" ∷ []))
        (get_nested value (codes "values" ∷ [])))

  unfoldable pub decode_failure : Error → Bytes → Value
  decode_failure e bytes =
      object (("decode_error", Value.str (host.error_text e)) ∷ ("values", raw_ints bytes) ∷ [])

  -- The value of a raw property: the decoded blob, or the error and the bytes.
  unfoldable pub attach : Bytes → Bytes → Fields → Result Value → M Fields
  attach path bytes value (ok decoded) =
      pure (put_all (("value", decoded) ∷ ("custom_type", Value.str path) ∷ []) value)
  attach path bytes value (err e) =
      if exhausted e
      then fail e
      else pure
          (put_all (("value", decode_failure e bytes) ∷ ("custom_type", Value.str path) ∷ []) value)

  unfoldable pub group_raw_data : Bytes → Bytes → Fields → Result Fields → Fields
  group_raw_data path bytes group (err e) =
      put (codes "RawData")
        (object
          (("type", Value.str (codes "ArrayProperty")) ∷ ("value", decode_failure e bytes) ∷ []))
        group
  group_raw_data path bytes group (ok decoded) = elim (get (codes "RawData") group) [
    | Value.obj raw ↦
        put (codes "RawData")
          (Value.obj
            (put_all (("value", Value.obj decoded) ∷ ("custom_type", Value.str path) ∷ []) raw))
          group
    | _ ↦
        put (codes "RawData")
          (object (("value", Value.obj decoded) ∷ ("custom_type", Value.str path) ∷ [])) group
  ]

  unfoldable pub decode_group : Bytes → Fields → Fields
  decode_group path group =
      let bytes = bytes_from_property (get_map group (codes "RawData")) in
      let t =
        as_string
          (get_nested (Value.obj group) (codes "GroupType" ∷ codes "value" ∷ codes "value" ∷ [])) in
      if ltb 0 (length bytes)
      then group_raw_data path bytes group (decode_group_raw bytes t)
      else group

  unfoldable pub group_entry : Bytes → Value → Value
  group_entry path (Value.obj entry) = elim (get (codes "value") entry) [
    | Value.obj group ↦ Value.obj (put (codes "value") (Value.obj (decode_group path group)) entry)
    | _ ↦ Value.obj entry
  ]
  group_entry path v = v

  unfoldable pub group_entries : Bytes → Items → Items
  group_entries path empty = empty
  group_entries path (cons v vs) = cons (group_entry path v) (group_entries path vs)

  unfoldable pub group_list : Bytes → Value → Value
  group_list path (Value.arr vs) = Value.arr (group_entries path vs)
  group_list path v = v

  -- The entries are rewritten in place; a value that is no list stays.
  unfoldable pub decode_groups : Bytes → Fields → Fields
  decode_groups path value =
      put (codes "custom_type") (Value.str path)
        (put (codes "value") (group_list path (get (codes "value") value)) value)

  module _ (properties : Bytes → M Fields) where
    unfoldable pub byte_array_raw_data : Bytes → ℕ → Bytes → (Bytes → Result Value) → M Fields
    byte_array_raw_data type_name size path decoder = do
      value ← plain_property properties type_name size path
      let bytes = bytes_from_property (Value.obj value)
      attach path bytes value (decoder bytes)

    unfoldable pub group_save_data_map : Bytes → ℕ → Bytes → M Fields
    group_save_data_map type_name size path = do
      value ← plain_property properties type_name size path
      pure (decode_groups path value)

    -- `Property` with `nestedCustom` false.
    unfoldable pub property : Bytes → ℕ → Bytes → M Fields
    property type_name size path =
        if bytes_eq path group_path
        then group_save_data_map type_name size path
        else if bytes_eq path character_path
        then byte_array_raw_data type_name size path (decode_character properties)
        else if bytes_eq path base_camp_path
        then byte_array_raw_data type_name size path decode_base_camp_raw
        else plain_property properties type_name size path

  -- The loop of `PropertiesUntilEnd`, with the properties read so far.
  unfoldable pub properties_from : ℕ → Bytes → Fields → M Fields
  properties_from zero path props = fail out_of_fuel
  properties_from (suc fuel) path props = do
    done ← at_eof
    if done then fail (unexpected_eof path) else do
      name ← fstring
      if bytes_eq name (codes "None") then pure props else do
        type_name ← fstring
        size ← u64
        let inner = path ++ codes "." ++ name
        prop ←
            annotate inner type_name
              (property (λ p. properties_from fuel p end) type_name size inner)
        properties_from fuel path (put name (Value.obj prop) props)

  -- Every round of the recursion reads a byte: one more than there are bytes is enough.
  unfoldable pub properties_until_end : ℕ → Bytes → M Fields
  properties_until_end left path = properties_from (suc left) path end

  unfoldable pub decode_character_raw : Bytes → Result Value
  decode_character_raw bytes = decode_character (properties_until_end (length bytes)) bytes

pub record File : Type 0 where
  pub header : Header
  pub properties : Fields
  pub trailer_len : ℕ

unfoldable pub file : Host → ℕ → M File
file host left = do
  h ← read_header
  props ← properties_until_end host left []
  trailer ← get_remaining
  pure (record { header = h; properties = props; trailer_len = trailer })

-- `Read`.
unfoldable pub read_file : Host → Bytes → Result File
read_file host bytes = run (file host (length bytes)) bytes
