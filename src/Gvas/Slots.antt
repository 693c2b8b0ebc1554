-- ===== src/Gvas/Slots.antt =====
-- sav-cli/internal/gvas/palworld_raw.go: the blobs of base camps, container slots and map objects.
use pal_panel_host_wine.Prelude.{[], ◌∷◌, Bytes, codes, if◌then◌else◌}
use pal_panel_host_wine.Gvas.Value.{Value, Fields, object, end, put_all, put}
use pal_panel_host_wine.Gvas.Reader.{
  Result, ok, err, M, pure, ◌>>=◌, at_eof, byte, i32, float, fstring, guid, run,
}
use pal_panel_host_wine.Gvas.Parts.{byte_int, with_trailing, transform}

unfoldable pub base_camp : M Fields
base_camp = do
  id ← guid
  name ← fstring
  state ← byte
  place ← transform
  area_range ← float
  group_id ← guid
  fast_travel ← transform
  owner ← guid
  with_trailing (
      put_all
        (("id", Value.str id)
          ∷ ("name", Value.str name)
          ∷ ("state", byte_int state)
          ∷ ("transform", place)
          ∷ ("area_range", Value.single area_range)
          ∷ ("group_id_belong_to", Value.str group_id)
          ∷ ("fast_travel_local_transform", fast_travel)
          ∷ ("owner_map_object_instance_id", Value.str owner)
          ∷ [])
        end)

-- The decoded map as an `any`; no bytes give a nil map.
unfoldable pub decode_base_camp_raw : Bytes → Result Value
decode_base_camp_raw [] = ok Value.nil
decode_base_camp_raw (b ∷ bs) = elim (run base_camp (b ∷ bs)) [
  | ok fs ↦ ok (Value.obj fs)
  | err e ↦ err e
]

-- `if !reader.EOF()`, the permission byte.
unfoldable pub slot_permission : Fields → M Fields
slot_permission out = do
  done ← at_eof
  if done
      then pure out
      else do permission ← byte; pure (put (codes "permission_tribe_id") (byte_int permission) out)

unfoldable pub character_container_slot : M Fields
character_container_slot = do
  uid ← guid
  instance_id ← guid
  out ←
      slot_permission
        (put_all (("player_uid", Value.str uid) ∷ ("instance_id", Value.str instance_id) ∷ []) end)
  with_trailing out

unfoldable pub decode_character_container_slot_raw : Bytes → Result Fields
decode_character_container_slot_raw = run character_container_slot

unfoldable pub item_container_slot : M Fields
item_container_slot = do
  slot_index ← i32
  count ← i32
  static_id ← fstring
  created ← guid
  local_id ← guid
  let dynamic_id = object (
      ("created_world_id", Value.str created)
      ∷ ("local_id_in_created_world", Value.str local_id)
      ∷ [])
  with_trailing (
      put_all
        (("slot_index", Value.int slot_index)
          ∷ ("count", Value.int count)
          ∷ ("item", object (("static_id", Value.str static_id) ∷ ("dynamic_id", dynamic_id) ∷ []))
          ∷ [])
        end)

unfoldable pub decode_item_container_slot_raw : Bytes → Result Fields
decode_item_container_slot_raw = run item_container_slot

unfoldable pub map_object_model : M Fields
map_object_model = do
  instance_id ← guid
  concrete_id ← guid
  base_id ← guid
  group_id ← guid
  hp_current ← i32
  hp_max ← i32
  place ← transform
  with_trailing (
      put_all
        (("instance_id", Value.str instance_id)
          ∷ ("concrete_model_instance_id", Value.str concrete_id)
          ∷ ("base_camp_id_belong_to", Value.str base_id)
          ∷ ("group_id_belong_to", Value.str group_id)
          ∷ ("hp", object (("current", Value.int hp_current) ∷ ("max", Value.int hp_max) ∷ []))
          ∷ ("initial_transform_cache", place)
          ∷ [])
        end)

unfoldable pub decode_map_object_model_raw : Bytes → Result Fields
decode_map_object_model_raw = run map_object_model
