-- ===== src/Indexer/Containers.antt =====
-- sav-cli/internal/indexer/normalize.go: `normalizeContainers`.
use pal_panel_host_wine.Prelude.{
  ℕ, Bool, not, ◌&&◌, Option, none, some, List, [], ◌∷◌, ◌++◌, String, Bytes, codes, length, ◌==◌,
  if◌then◌else◌, for_each,
}
use pal_panel_host_wine.Prelude.Int.{ℤ}
use pal_panel_host_wine.Gvas.Value.{Value, Fields, get}
use pal_panel_host_wine.Gvas.Reader.{Result, ok, err}
use pal_panel_host_wine.Gvas.Slots.{decode_item_container_slot_raw}
use pal_panel_host_wine.Indexer.{Slot, Index}
use pal_panel_host_wine.Indexer.Values.{
  Go, raw_map, as_map, fields_of, get_field, as_list, as_string, as_int, as_float, is_zero_int,
  is_zero_guid, bytes_from_any, container_id_from_any,
}

-- What becomes of an entry of the slots.
pub data SlotEntry : Type 0 where
  skipped : SlotEntry
  warned : Bytes → SlotEntry
  kept : Slot → SlotEntry

-- The fields that can name an owner, with its type.
abbrev pub owner_fields : List (String × String)
owner_fields =
    ("BaseCampId", "base")
    ∷ ("BaseCampID", "base")
    ∷ ("GroupId", "guild")
    ∷ ("GroupID", "guild")
    ∷ ("OwnerPlayerUId", "player")
    ∷ []

unfoldable pub add_slot : SlotEntry → List Bytes × List Slot → List Bytes × List Slot
add_slot skipped s = s
add_slot (warned message) (warnings, slots) = (warnings ++ message ∷ [], slots)
add_slot (kept x) (warnings, slots) = (warnings, slots ++ x ∷ [])

module _ (go : Go) where
  -- An id that is there and not zero.
  unfoldable pub is_id : Bytes → Bool
  is_id s = not (length s == 0) && not (is_zero_guid go s)

  -- The type and the id of the first owner.
  unfoldable pub owner_in : Fields → List (String × String) → Bytes × Bytes
  owner_in belong [] = ([], [])
  owner_in belong ((name, type_name) ∷ later) =
      let rest = owner_in belong later in
      let id = as_string go (get_field (Value.obj belong) name) in
      if is_id id then (codes type_name, id) else rest

  unfoldable pub durability_of : Value → Option ℕ
  durability_of Value.nil = none
  durability_of v = some (as_float go v)

  unfoldable pub slot_unless_empty : Fields → Bytes → ℤ → ℤ → SlotEntry
  slot_unless_empty m item_id count index =
      if length item_id == 0 && is_zero_int go count
      then skipped
      else kept (record {
        slot = index;
        item_id = item_id;
        count = count;
        durability = durability_of (get_field (Value.obj m) "Durability");
      })

  unfoldable pub decoded_slot : Fields → Result Fields → SlotEntry
  decoded_slot m (err e) =
      warned (codes "item container slot RawData decode failed: " ++ go.host.error_text e)
  decoded_slot m (ok decoded) =
      slot_unless_empty m
        (as_string go (get (codes "static_id") (fields_of (get (codes "item") decoded))))
        (as_int go (get (codes "count") decoded)) (as_int go (get (codes "slot_index") decoded))

  -- Without bytes, the slot's own fields.
  unfoldable pub slot_from : Fields → Bytes → SlotEntry
  slot_from m [] =
      slot_unless_empty m (as_string go (get_field (get_field (Value.obj m) "ItemId") "StaticId"))
        (as_int go (get_field (Value.obj m) "StackCount"))
        (as_int go (get_field (Value.obj m) "SlotIndex"))
  slot_from m (b ∷ bs) = decoded_slot m (decode_item_container_slot_raw (b ∷ bs))

  unfoldable pub slot_entry : Value → SlotEntry
  slot_entry v = elim (as_map v) [
    | none ↦ skipped
    | some m ↦ slot_from m (bytes_from_any go (get_field (Value.obj m) "RawData"))
  ]

  unfoldable pub add_container : Bytes → Fields → Index → Index
  add_container id value index =
      let owner = owner_in (fields_of (get_field (Value.obj value) "BelongInfo")) owner_fields in
      let filled =
        for_each (λ v s. add_slot (slot_entry v) s) (as_list (get_field (Value.obj value) "Slots"))
          (index.warnings, []) in
      record index {
        warnings = filled.0;
        containers =
            index.containers
            ++ record {
              container_id = id;
              owner_type = owner.0;
              owner_id = owner.1;
              slots = filled.1;
            }
              ∷ [];
      }

  unfoldable pub container_in : Bytes → Fields → Index → Index
  container_in id value index = if is_id id then add_container id value index else index

  unfoldable pub container_entry : Value → Index → Index
  container_entry v index = elim (raw_map v) [
    | none ↦ index
    | some entry ↦
        container_in
          (container_id_from_any go
            (get_field (Value.obj (fields_of (get (codes "key") entry))) "ID"))
          (fields_of (get (codes "value") entry)) index
  ]

  unfoldable pub normalize_containers : Index → Value → Index
  normalize_containers index world =
      for_each (λ v i. container_entry v i) (as_list (get_field world "ItemContainerSaveData"))
        index
