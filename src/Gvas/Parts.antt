-- ===== src/Gvas/Parts.antt =====
-- sav-cli/internal/gvas/properties.go and palworld_raw.go: the elements that several blobs share.
pub mod Good
use pal_panel_host_wine.Prelude.{ℕ, List, [], ◌∷◌, Bytes, codes, if◌then◌else◌}
use pal_panel_host_wine.Prelude.Int.{ℤ, pos}
use pal_panel_host_wine.Gvas.Value.{
  Value, Fields, object, end, put_all, put, ints_from_bytes, unparsed_bytes,
}
use pal_panel_host_wine.Gvas.Reader.{
  M, pure, fail, ◌>>=◌, at_eof, get_remaining, byte, i32, i64, fstring, guid, tarray,
  must_read_rest, double_float,
}

-- `int(b)` of a byte, and the values of raw bytes.
abbrev pub byte_int : ℕ → Value
byte_int b = Value.int (pos b)

abbrev pub raw_ints : Bytes → Value
raw_ints b = Value.arr (ints_from_bytes b)

-- `if !reader.EOF() { out["trailing_unparsed_data"] = … }`.
unfoldable pub with_trailing : Fields → M Fields
with_trailing out = do
  done ← at_eof
  if done
      then pure out
      else do b ← must_read_rest; pure (put (codes "trailing_unparsed_data") (raw_ints b) out)

unfoldable pub vector : M Value
vector = do
  x ← double_float
  y ← double_float
  z ← double_float
  pure (object (("x", Value.double x) ∷ ("y", Value.double y) ∷ ("z", Value.double z) ∷ []))

unfoldable pub quat : M Value
quat = do
  x ← double_float
  y ← double_float
  z ← double_float
  w ← double_float
  pure (
      object (
        ("x", Value.double x)
        ∷ ("y", Value.double y)
        ∷ ("z", Value.double z)
        ∷ ("w", Value.double w)
        ∷ []))

unfoldable pub transform : M Value
transform = do
  rotation ← quat
  translation ← vector
  scale ← vector
  pure (object (("rotation", rotation) ∷ ("translation", translation) ∷ ("scale3d", scale) ∷ []))

unfoldable pub read_guid_any : M Value
read_guid_any = do g ← guid; pure (Value.str g)

unfoldable pub read_byte_any : M Value
read_byte_any = do b ← byte; pure (byte_int b)

unfoldable pub read_instance_id : M Value
read_instance_id = do
  g ← guid
  i ← guid
  pure (object (("guid", Value.str g) ∷ ("instance_id", Value.str i) ∷ []))

unfoldable pub player_info : ℤ → Bytes → Value
player_info online name =
    object (("last_online_real_time", Value.int64 online) ∷ ("player_name", Value.str name) ∷ [])

unfoldable pub read_guild_player_fields : M Fields
read_guild_player_fields = do
  uid ← guid
  online ← i64
  name ← fstring
  pure (put_all (("player_uid", Value.str uid) ∷ ("player_info", player_info online name) ∷ []) end)

unfoldable pub read_guild_player : M Value
read_guild_player = do fs ← read_guild_player_fields; pure (Value.obj fs)

unfoldable pub read_guild_player_with_role : M Value
read_guild_player_with_role = do
  fs ← read_guild_player_fields
  role ← byte
  pure (Value.obj (put (codes "role") (byte_int role) fs))

unfoldable pub read_guild_marker : M Value
read_guild_marker = do
  marker ← guid
  location ← vector
  icon ← i32
  owner ← guid
  pure (
      object (
        ("marker_id", Value.str marker)
        ∷ ("icon_location", location)
        ∷ ("icon_type", Value.int icon)
        ∷ ("owner_player_uid", Value.str owner)
        ∷ []))

unfoldable pub read_guild_role_permission : M Value
read_guild_role_permission = do
  role ← byte
  permissions ← tarray read_byte_any
  pure (object (("role", byte_int role) ∷ ("permissions", permissions) ∷ []))

unfoldable pub read_group_header : Bytes → M Fields
read_group_header group_type = do
  group_id ← guid
  name ← fstring
  handles ← tarray read_instance_id
  pure (
      put_all
        (("group_type", Value.str group_type)
          ∷ ("group_id", Value.str group_id)
          ∷ ("group_name", Value.str name)
          ∷ ("individual_character_handle_ids", handles)
          ∷ [])
        end)

-- `if !reader.EOF() { return nil, … }`.
unfoldable pub require_eof : Fields → M Fields
require_eof out = do
  done ← at_eof
  left ← get_remaining
  if done then pure out else fail (unparsed_bytes left)
