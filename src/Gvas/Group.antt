-- ===== src/Gvas/Group.antt =====
-- sav-cli/internal/gvas/palworld_raw.go: the group blobs, in their current and legacy layouts.
pub mod Exact
use pal_panel_host_wine.Prelude.{
  Bool, true, false, [], ◌∷◌, String, Bytes, codes, bytes_eq, ◌==◌, not, ◌||◌, if◌then◌else◌,
}
use pal_panel_host_wine.Prelude.Int.{pos}
use pal_panel_host_wine.Gvas.Value.{Value, Fields, put_all, choose, unparsed_bytes}
use pal_panel_host_wine.Gvas.Reader.{
  Result, ok, err, M, pure, fail, ◌>>=◌, get_remaining, read, byte, i32, i64, fstring, guid, tarray,
  run, must_read_rest,
}
use pal_panel_host_wine.Gvas.Parts.{
  byte_int, raw_ints, with_trailing, read_guid_any, read_byte_any, player_info, read_guild_player,
  read_guild_player_with_role, read_guild_marker, read_guild_role_permission, read_group_header,
  require_eof,
}

-- The part of a guild that follows the markers, from format 1.0 on and before.
unfoldable pub guild_role_tail : Fields → M Fields
guild_role_tail out = do
  chest ← tarray read_byte_any
  unknown ← i32
  admin ← guid
  players ← tarray read_guild_player_with_role
  permissions ← tarray read_guild_role_permission
  trailing ← read (pos 4)
  pure (
      put_all
        (("guild_chest_allowed_roles", chest)
          ∷ ("unknown_i32", Value.int unknown)
          ∷ ("admin_player_uid", Value.str admin)
          ∷ ("players", players)
          ∷ ("role_permissions", permissions)
          ∷ ("trailing_bytes", raw_ints trailing)
          ∷ [])
        out)

unfoldable pub guild_plain_tail : Fields → M Fields
guild_plain_tail out = do
  admin ← guid
  players ← tarray read_guild_player
  trailing ← read (pos 4)
  pure (
      put_all
        (("admin_player_uid", Value.str admin)
          ∷ ("players", players)
          ∷ ("trailing_bytes", raw_ints trailing)
          ∷ [])
        out)

abbrev pub guild : String
guild = "EPalGroupType::Guild"

abbrev pub organization : String
organization = "EPalGroupType::Organization"

abbrev pub independent_guild : String
independent_guild = "EPalGroupType::IndependentGuild"

unfoldable pub current_guild_body : Bool → M Fields
current_guild_body with_role_permissions = do
  header ← read_group_header (codes guild)
  org_type ← byte
  leading ← read (pos 4)
  base_ids ← tarray read_guid_any
  unknown ← i32
  base_level ← i32
  points ← tarray read_guid_any
  name ← fstring
  modifier ← guid
  markers ← tarray read_guild_marker
  let out =
      put_all
        (("org_type", byte_int org_type)
          ∷ ("leading_bytes", raw_ints leading)
          ∷ ("base_ids", base_ids)
          ∷ ("unknown_1", Value.int unknown)
          ∷ ("base_camp_level", Value.int base_level)
          ∷ ("map_object_instance_ids_base_camp_points", points)
          ∷ ("guild_name", Value.str name)
          ∷ ("last_guild_name_modifier_player_uid", Value.str modifier)
          ∷ ("guild_markers", markers)
          ∷ [])
        header
  (if with_role_permissions then guild_role_tail out else guild_plain_tail out)

unfoldable pub current_guild : Bool → M Fields
current_guild with_role_permissions = do
  out ← current_guild_body with_role_permissions
  require_eof out

unfoldable pub current_organization : Bytes → M Fields
current_organization group_type = do
  header ← read_group_header group_type
  org_type ← byte
  left ← get_remaining
  if not (left == 12) then fail (unparsed_bytes left) else do
    trailing ← must_read_rest
    pure (
        put_all (("org_type", byte_int org_type) ∷ ("trailing_bytes", raw_ints trailing) ∷ [])
          header)

unfoldable pub current_independent_guild : Bytes → M Fields
current_independent_guild group_type = do
  header ← read_group_header group_type
  org_type ← byte
  base_level ← i32
  points ← tarray read_guid_any
  name ← fstring
  uid ← guid
  name2 ← fstring
  online ← i64
  player ← fstring
  out ← require_eof header
  pure (
      put_all
        (("org_type", byte_int org_type)
          ∷ ("base_camp_level", Value.int base_level)
          ∷ ("map_object_instance_ids_base_camp_points", points)
          ∷ ("guild_name", Value.str name)
          ∷ ("player_uid", Value.str uid)
          ∷ ("guild_name_2", Value.str name2)
          ∷ ("player_info", player_info online player)
          ∷ [])
        out)

-- The four guarded parts of the legacy layout, in order.
unfoldable pub legacy_base : Fields → M Fields
legacy_base out = do
  org_type ← byte
  base_ids ← tarray read_guid_any
  pure (put_all (("org_type", byte_int org_type) ∷ ("base_ids", base_ids) ∷ []) out)

unfoldable pub legacy_camp : Fields → M Fields
legacy_camp out = do
  base_level ← i32
  points ← tarray read_guid_any
  name ← fstring
  pure (
      put_all
        (("base_camp_level", Value.int base_level)
          ∷ ("map_object_instance_ids_base_camp_points", points)
          ∷ ("guild_name", Value.str name)
          ∷ [])
        out)

unfoldable pub legacy_owner : Fields → M Fields
legacy_owner out = do
  uid ← guid
  name2 ← fstring
  online ← i64
  player ← fstring
  pure (
      put_all
        (("player_uid", Value.str uid)
          ∷ ("guild_name_2", Value.str name2)
          ∷ ("player_info", player_info online player)
          ∷ [])
        out)

unfoldable pub legacy_members : Fields → M Fields
legacy_members out = do
  admin ← guid
  players ← tarray read_guild_player
  pure (put_all (("admin_player_uid", Value.str admin) ∷ ("players", players) ∷ []) out)

unfoldable pub legacy_group : Bytes → M Fields
legacy_group group_type = do
  let is_guild = bytes_eq group_type (codes guild)
  let is_independent = bytes_eq group_type (codes independent_guild)
  let is_organization = bytes_eq group_type (codes organization)
  header ← read_group_header group_type
  out1 ← (if is_guild || is_independent || is_organization then legacy_base header else pure header)
  out2 ← (if is_guild || is_independent then legacy_camp out1 else pure out1)
  out3 ← (if is_independent then legacy_owner out2 else pure out2)
  out4 ← (if is_guild then legacy_members out3 else pure out3)
  with_trailing out4

unfoldable pub other_group : Bytes → M Fields
other_group group_type = do header ← read_group_header group_type; with_trailing header

-- The first layout that fits.
unfoldable pub or_else {ℓ} : {A : Type ℓ} → Result A → Result A → Result A
or_else (ok a) other = ok a
or_else (err _) other = other

pub data GroupKind : Type 0 where
  is_guild is_organization is_independent is_other : GroupKind

unfoldable pub group_kind : Bytes → GroupKind
group_kind t =
    choose t
      ((guild, is_guild)
        ∷ (organization, is_organization)
        ∷ (independent_guild, is_independent)
        ∷ [])
      is_other

unfoldable pub decode_group_as : GroupKind → Bytes → Bytes → Result Fields
decode_group_as is_guild bytes t =
    or_else (run (current_guild true) bytes)
      (or_else (run (current_guild false) bytes) (run (legacy_group t) bytes))
decode_group_as is_organization bytes t =
    or_else (run (current_organization t) bytes) (run (legacy_group t) bytes)
decode_group_as is_independent bytes t =
    or_else (run (current_independent_guild t) bytes) (run (legacy_group t) bytes)
decode_group_as is_other bytes t = run (other_group t) bytes

unfoldable pub decode_group_raw : Bytes → Bytes → Result Fields
decode_group_raw bytes t = decode_group_as (group_kind t) bytes t
