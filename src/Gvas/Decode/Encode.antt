-- ===== src/Gvas/Decode/Encode.antt =====
-- A writer of property trees, and what the reader makes of its output.
use pal_panel_host_wine.Prelude.{
  ℕ, suc, ◌+◌, ◌^◌, ◌≤◌, ◌<◌, ◌≡◌, Bool, true, false, [], ◌∷◌, ◌++◌, map, Bytes, String, codes,
  bytes_eq, length, All,
}
use pal_panel_host_wine.Prelude.Int.{ℤ}
use pal_panel_host_wine.Gvas.Value.{Value, Fields, end, fields, put, array}
use pal_panel_host_wine.Gvas.Reader.{format_guid}
use pal_panel_host_wine.Gvas.Reader.Encode.{
  encode_le, encode_i32, encode_fstring, IsI32, FitsFstring,
}
use pal_panel_host_wine.Gvas.Parts.{byte_int}
use pal_panel_host_wine.Gvas.Decode.{group_path, character_path, base_camp_path}

-- A list of properties: each with its name, and the list behind it.
pub data Tree : Type 0 where
  none_left : Tree
  int_prop : Bytes → ℤ → Tree → Tree
  str_prop : Bytes → Bytes → Tree → Tree
  bool_prop : Bytes → Bool → Tree → Tree
  -- a byte array
  bytes_prop : Bytes → Bytes → Tree → Tree
  -- a struct of the Palworld type `PalData`, with its GUID and its own list
  struct_prop : Bytes → Bytes → Tree → Tree → Tree

abbrev pub struct_type : Bytes
struct_type = codes "PalData"

-- Name, type, size and body, and what stands behind.
abbrev pub encode_property : Bytes → String → ℕ → Bytes → Bytes → Bytes
encode_property name tag size body rest =
    encode_fstring name ++ (encode_fstring (codes tag) ++ (encode_le 8 size ++ (body ++ rest)))

abbrev pub flag : Bool → ℕ
flag true = 1
flag false = 0

abbrev pub encode_bytes : Bytes → Bytes
encode_bytes b = encode_fstring (codes "ByteProperty") ++ (0 ∷ (encode_le 4 (length b) ++ b))

abbrev pub encode_struct : Bytes → Bytes → Bytes
encode_struct g inner = encode_fstring struct_type ++ (g ++ (0 ∷ inner))

unfoldable pub encode : Tree → Bytes
encode none_left = encode_fstring (codes "None")
encode (int_prop n z r) = encode_property n "IntProperty" 4 (0 ∷ encode_i32 z) (encode r)
encode (str_prop n s r) =
    encode_property n "StrProperty" (length (encode_fstring s)) (0 ∷ encode_fstring s) (encode r)
encode (bool_prop n b r) = encode_property n "BoolProperty" 0 (flag b ∷ 0 ∷ []) (encode r)
encode (bytes_prop n b r) =
    encode_property n "ArrayProperty" (length b + 4) (encode_bytes b) (encode r)
encode (struct_prop n g t r) =
    let inner = encode t in
    encode_property n "StructProperty" (length inner) (encode_struct g inner) (encode r)

abbrev pub simple : String → Value → Fields
simple tag v = fields (("id", Value.nil) ∷ ("value", v) ∷ ("type", Value.str (codes tag)) ∷ [])

abbrev pub bytes_value : Bytes → Fields
bytes_value b = fields (
    ("array_type", Value.str (codes "ByteProperty"))
    ∷ ("id", Value.nil)
    ∷ ("value", Value.obj (fields (("values", array (map byte_int b)) ∷ [])))
    ∷ ("type", Value.str (codes "ArrayProperty"))
    ∷ [])

abbrev pub struct_fields : Bytes → Fields → Fields
struct_fields g inner = fields (
    ("struct_type", Value.str struct_type)
    ∷ ("struct_id", Value.str (format_guid g))
    ∷ ("id", Value.nil)
    ∷ ("value", Value.obj inner)
    ∷ ("type", Value.str (codes "StructProperty"))
    ∷ [])

-- The map of the properties, with those that stand before them; a repeated name keeps the last.
unfoldable pub value_of : Tree → Fields → Fields
value_of none_left props = props
value_of (int_prop n z r) props =
    value_of r (put n (Value.obj (simple "IntProperty" (Value.int z))) props)
value_of (str_prop n s r) props =
    value_of r (put n (Value.obj (simple "StrProperty" (Value.str s))) props)
value_of (bool_prop n b r) props =
    value_of r (put n (Value.obj (simple "BoolProperty" (Value.bool b))) props)
value_of (bytes_prop n b r) props = value_of r (put n (Value.obj (bytes_value b)) props)
value_of (struct_prop n g t r) props =
    let inner = value_of t end in value_of r (put n (Value.obj (struct_fields g inner)) props)

-- A path whose property is not decoded further.
abbrev pub IsPlain : Bytes → Type 0
IsPlain p =
    (bytes_eq p group_path ≡ false)
    × (bytes_eq p character_path ≡ false)
    × (bytes_eq p base_camp_path ≡ false)

abbrev pub path_of : Bytes → Bytes → Bytes
path_of path name = path ++ codes "." ++ name

abbrev pub IsName : Bytes → Bytes → Type 0
IsName path n = FitsFstring n × (bytes_eq n (codes "None") ≡ false) × IsPlain (path_of path n)

-- Names, numbers and lengths are in the ranges of the format, and no path is one of the three
-- with a decoder of their own.
unfoldable pub IsTree : Bytes → Tree → Type 0
IsTree path none_left = Unit
IsTree path (int_prop n z r) = IsName path n × IsI32 z × IsTree path r
IsTree path (str_prop n s r) =
    IsName path n × FitsFstring s × (length (encode_fstring s) < 2 ^ 64) × IsTree path r
IsTree path (bool_prop n b r) = IsName path n × IsTree path r
IsTree path (bytes_prop n b r) =
    IsName path n × (length b ≤ 10000000) × All (λ x. x < 256) b × IsTree path r
IsTree path (struct_prop n g t r) =
    IsName path n
    × (length g ≡ 16)
    × (length (encode t) < 2 ^ 64)
    × IsTree (path_of path n) t
    × IsTree path r

-- Rounds of the loop, nested ones counted.
unfoldable pub weight : Tree → ℕ
weight none_left = 1
weight (int_prop n z r) = suc (weight r)
weight (str_prop n s r) = suc (weight r)
weight (bool_prop n b r) = suc (weight r)
weight (bytes_prop n b r) = suc (weight r)
weight (struct_prop n g t r) = suc (weight t + weight r)
