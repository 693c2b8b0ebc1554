-- ===== src/Indexer/Objects.antt =====
-- sav-cli/internal/indexer/normalize.go: `normalizeMapObjects`, which counts the structures of the
-- bases and finds who owns a container.
use pal_panel_host_wine.Prelude.{
  ℕ, suc, Bool, not, ◌&&◌, Option, none, some, List, [], ◌∷◌, ◌++◌, map, Bytes, codes, bytes_eq,
  has_prefix, length, ltb, ◌==◌, if◌then◌else◌, put_key, for_each, for_each_from, modify_at,
}
use pal_panel_host_wine.Gvas.Value.{Value, Fields, get}
use pal_panel_host_wine.Gvas.Reader.{Result, ok, err, guid, run}
use pal_panel_host_wine.Gvas.Slots.{decode_map_object_model_raw}
use pal_panel_host_wine.Indexer.{Coordinates, Base, Pal, Container, Index, location_from_any}
use pal_panel_host_wine.Indexer.Entities.{is_placed}
use pal_panel_host_wine.Indexer.Values.{
  Go, raw_map, as_map, fields_of, get_field, as_list, as_string, as_float, first_non_empty,
  first_non_empty_any, is_zero_guid, canonical_save_id, bytes_from_any, raw_data_map, append_unique,
}

-- The last position of an id.
unfoldable pub positions : List Bytes → Bytes → Option ℕ
positions ids = for_each_from 0 (λ i id m. put_key id (some i) m) ids (λ id. none)

-- `nearestBase` so far: the position and its distance; none reads as -1 and `MaxFloat64`.
abbrev pub Nearest : Type 0
Nearest = Option (ℕ × ℕ)

unfoldable pub set_owner : Bytes → Container → Container
set_owner id c = record c { owner_type = codes "map_object"; owner_id = id }

unfoldable pub add_structure : Base → Base
add_structure b = record b { structures_count = suc b.structures_count }

unfoldable pub add_base_container : Bytes → Base → Base
add_base_container id b = record b { containers = append_unique b.containers id }

-- Changes the element at the position, if there is one.
unfoldable pub modify_found {ℓ} : {A : Type ℓ} → Option ℕ → (A → A) → List A → List A
modify_found none f xs = xs
modify_found (some i) f xs = modify_at i f xs

unfoldable pub position_of : Nearest → Option ℕ
position_of none = none
position_of (some (i, d)) = some i

unfoldable pub add_entity : Bytes → Bytes → Coordinates → Index → Index
add_entity id label location index =
    if is_placed location
    then record index {
      map_entities =
          index.map_entities
          ++ record {
            entity_type = codes "map_object";
            id = id;
            label = label;
            location = location;
          }
            ∷ [];
    }
    else index

unfoldable pub count_structure : Bytes → Option ℕ → Index → Index
count_structure label base index =
    if has_prefix label (codes "PickupItem_")
    then index
    else record index { bases = modify_found base add_structure index.bases }

module _ (go : Go) where
  unfoldable pub map_object_pal_location_type : Bytes → Bytes
  map_object_pal_location_type label =
      let l = go.to_lower (go.trim_space label) in
      if bytes_eq l (codes "displaycharacter")
      then codes "viewing_cage"
      else if bytes_eq l (codes "dimensionpalstorage")
      then codes "dimensional_pal_storage"
      else if bytes_eq l (codes "globalpalstorage")
      then codes "global_pal_storage"
      else []

  unfoldable pub area_range : Base → ℕ
  area_range b = as_float go (get (codes "area_range") b.raw)

  unfoldable pub distance : Base → Coordinates → ℕ
  distance b c =
      let dx = go.float_sub b.location.x c.x in
      let dy = go.float_sub b.location.y c.y in
      go.float_add (go.float_mul dx dx) (go.float_mul dy dy)

  unfoldable pub best_distance : Nearest → ℕ
  best_distance none = go.max_float
  best_distance (some (i, d)) = d

  -- Whether the place lies in the area of the base, which has one.
  unfoldable pub covers : Coordinates → Base → Bool
  covers c b =
      not (go.float_le (area_range b) 0)
      && go.float_le (distance b c) (go.float_mul (area_range b) (area_range b))

  unfoldable pub nearer : Coordinates → ℕ → Base → Nearest → Nearest
  nearer c i b best =
      if covers c b && go.float_lt (distance b c) (best_distance best)
      then some (i, distance b c)
      else best

  unfoldable pub nearest_base : List Base → Coordinates → Option ℕ
  nearest_base bases c = position_of (for_each_from 0 (nearer c) bases none)

  unfoldable pub or_nearest : Option ℕ → List Base → Coordinates → Option ℕ
  or_nearest (some i) bases c = some i
  or_nearest none bases c = nearest_base bases c

  unfoldable pub move_pal : Bytes → Bytes → Pal → Pal
  move_pal container location_type p =
      if bytes_eq (canonical_save_id go p.container_id) (canonical_save_id go container)
      then record p { location_type = location_type }
      else p

  unfoldable pub move_pals : Bytes → Bytes → Index → Index
  move_pals label container index =
      let location_type = map_object_pal_location_type label in
      if length location_type == 0
      then index
      else record index { pals = map (move_pal container location_type) index.pals }

  module _ (container_index : Bytes → Option ℕ) (label id : Bytes) (base : Option ℕ) where
    unfoldable pub own_container : Bytes → Index → Index
    own_container container index = record index {
      containers = modify_found (container_index container) (set_owner id) index.containers;
      bases = modify_found base (add_base_container container) index.bases;
    }

    -- A module whose container's id is read.
    unfoldable pub module_with : Bytes → Result Bytes → Index → Index
    module_with module_type (err e) index = index
    module_with module_type (ok container) index =
        if is_zero_guid go container
        then index
        else if bytes_eq module_type
            (codes "EPalMapObjectConcreteModelModuleType::CharacterContainer")
        then move_pals label container index
        else if bytes_eq module_type (codes "EPalMapObjectConcreteModelModuleType::ItemContainer")
        then own_container container index
        else index

    unfoldable pub module_in : Fields → Bytes → Index → Index
    module_in entry raw index =
        if ltb (length raw) 16
        then index
        else module_with (as_string go (get (codes "key") entry)) (run guid raw) index

    unfoldable pub module_entry : Value → Index → Index
    module_entry v index = elim (raw_map v) [
      | none ↦ index
      | some entry ↦
          module_in entry
            (bytes_from_any go
              (get_field (Value.obj (fields_of (get (codes "value") entry))) "RawData"))
            index
    ]

  module _ (container_index base_index : Bytes → Option ℕ) where
    -- An object with an id and its place.
    unfoldable pub placed_object : Fields → Fields → Bytes → Bytes → Coordinates → Index → Index
    placed_object object raw label id location index =
        let base =
          or_nearest (base_index (as_string go (get (codes "base_camp_id_belong_to") raw)))
            index.bases location in
        for_each (module_entry container_index label id base)
          (as_list (get_field (get_field (Value.obj object) "ConcreteModel") "ModuleMap"))
          (count_structure label base (add_entity id label location index))

    unfoldable pub object_with : Fields → Fields → Bytes → Index → Index
    object_with object raw id index =
        if length id == 0
        then index
        else placed_object object raw (as_string go (get_field (Value.obj object) "MapObjectId")) id
            (location_from_any go (
              first_non_empty_any go (
                get (codes "initial_transform_cache") raw
                ∷ get_field (Value.obj object) "WorldLocation"
                ∷ [])))
            index

    unfoldable pub checked_object : Fields → Result Fields → Index → Index
    checked_object object (err e) index = record index {
      warnings =
          index.warnings
          ++ (codes "map object model RawData decode failed: " ++ go.host.error_text e) ∷ [];
    }
    checked_object object (ok raw) index =
        object_with object raw
          (first_non_empty go (
            as_string go (get (codes "instance_id") raw)
            ∷ as_string go (get_field (Value.obj object) "MapObjectInstanceId")
            ∷ []))
          index

    unfoldable pub object_in : Fields → Index → Index
    object_in object index =
        checked_object object
          (raw_data_map go
            (get_field (Value.obj (fields_of (get_field (Value.obj object) "Model"))) "RawData")
            decode_map_object_model_raw)
          index

    unfoldable pub object_entry : Value → Index → Index
    object_entry v index = elim (as_map v) [ none ↦ index | some object ↦ object_in object index ]

  unfoldable pub normalize_map_objects : Index → Value → Index
  normalize_map_objects index world =
      for_each
        (object_entry (positions (map (λ c. c.container_id) index.containers))
          (positions (map (λ b. b.id) index.bases)))
        (as_list (get_field world "MapObjectSaveData")) index
