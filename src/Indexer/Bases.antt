-- ===== src/Indexer/Bases.antt =====
-- sav-cli/internal/indexer/normalize.go: `normalizeBases`, with the pals that work at a base.
use pal_panel_host_wine.Prelude.{
  ℕ, suc, Option, none, some, List, [], ◌∷◌, ◌++◌, Bytes, codes, bytes_eq, if◌then◌else◌, put_key,
  for_each, for_each_from,
}
use pal_panel_host_wine.Prelude.Int.{pos}
use pal_panel_host_wine.Gvas.Value.{Value, Fields, get}
use pal_panel_host_wine.Gvas.Reader.{Result, ok, err, M, ◌>>=◌, byte, guid, run}
use pal_panel_host_wine.Gvas.Parts.{transform}
use pal_panel_host_wine.Gvas.Slots.{decode_base_camp_raw, decode_character_container_slot_raw}
use pal_panel_host_wine.Indexer.{
  Worker, Base, Pal, Index, Checked, broken, good, checked, location_from_any,
}
use pal_panel_host_wine.Indexer.Containers.{is_id}
use pal_panel_host_wine.Indexer.Values.{
  Go, raw_map, fields_of, get_field, as_list, as_string, first_non_empty, bytes_from_any,
  container_id_from_any, raw_data_map, decoded_map, is_empty, append_unique,
}

-- The members of the containers; a missing container has none.
abbrev pub Members : Type 0
Members = Bytes → List Bytes

unfoldable pub worker_container : M Bytes
worker_container = do _id ← guid; _place ← transform; _first ← byte; _second ← byte; guid

unfoldable pub worker_container_id : Bytes → Result Bytes
worker_container_id = run worker_container

-- `palsByInstance`: the last pal with an id.
unfoldable pub pals_by_instance : List Pal → Bytes → Option Pal
pals_by_instance ps = for_each (λ p m. put_key p.instance_id (some p) m) ps (λ id. none)

-- The first pal with the id is at a base.
unfoldable pub move_to_base : Bytes → List Pal → List Pal
move_to_base id [] = []
move_to_base id (p ∷ ps) =
    let rest = move_to_base id ps in
    if bytes_eq p.instance_id id then record p { location_type = codes "base" } ∷ ps else p ∷ rest

unfoldable pub worker_of : Pal → Worker
worker_of p = record {
  instance_id = p.instance_id;
  character_id = p.character_id;
  nickname = p.nickname;
  level = p.level;
}

unfoldable pub add_worker : Option Pal → Bytes → List Worker × List Pal → List Worker × List Pal
add_worker none id s = s
add_worker (some p) id (workers, pals) = (workers ++ worker_of p ∷ [], move_to_base id pals)

module _ (go : Go) where
  unfoldable pub add_member : Bytes → Bytes → Members → Members
  add_member container id members =
      if is_id go id
      then put_key container (append_unique (members container) id) members
      else members

  unfoldable pub decoded_member :
      Bytes → Result Fields → List Bytes × Members → List Bytes × Members
  decoded_member container (err e) (warnings, members) = (
    warnings
        ++ (codes "character container slot RawData decode failed: " ++ go.host.error_text e) ∷ [],
    members,
  )
  decoded_member container (ok decoded) (warnings, members) =
      (warnings, add_member container (as_string go (get (codes "instance_id") decoded)) members)

  -- Without bytes, the slot's own field.
  unfoldable pub member_from : Bytes → Value → Bytes → List Bytes × Members → List Bytes × Members
  member_from container slot [] (warnings, members) = (
    warnings,
    add_member container (as_string go (get_field (get_field slot "IndividualId") "InstanceId"))
        members,
  )
  member_from container slot (b ∷ bs) s =
      decoded_member container (decode_character_container_slot_raw (b ∷ bs)) s

  unfoldable pub container_members : Value → List Bytes × Members → List Bytes × Members
  container_members v s = elim (raw_map v) [
    | none ↦ s
    | some entry ↦
        let container =
          container_id_from_any go
            (get_field (Value.obj (fields_of (get (codes "key") entry))) "ID") in
        if is_id go container
        then for_each
            (λ slot t. member_from container slot (bytes_from_any go (get_field slot "RawData")) t)
            (as_list (get_field (Value.obj (fields_of (get (codes "value") entry))) "Slots")) s
        else s
  ]

  -- `characterContainerMembers`, with the warnings.
  unfoldable pub character_container_members : List Bytes → Value → List Bytes × Members
  character_container_members warnings world =
      for_each (λ v s. container_members v s)
        (as_list (get_field world "CharacterContainerSaveData")) (warnings, λ id. [])

  -- The base without its workers; `i` counts from 0.
  unfoldable pub base_of : ℕ → Fields → Fields → Base
  base_of i entry raw = record {
    id = first_non_empty go (
        as_string go (get (codes "id") raw)
        ∷ as_string go (get (codes "key") entry)
        ∷ (codes "base-" ++ go.print_int (pos (suc i)))
        ∷ []);
    name = first_non_empty go (
        as_string go (get (codes "name") raw) ∷ (codes "Base " ++ go.print_int (pos (suc i))) ∷ []);
    guild_id = as_string go (get (codes "group_id_belong_to") raw);
    guild_name = [];
    location = location_from_any go (get (codes "transform") raw);
    structures_count = 0;
    workers = [];
    containers = [];
    status = codes "Safe";
    raw = raw;
  }

  module _ (members : Members) (by_instance : Bytes → Option Pal) where
    unfoldable pub employ : Base → Bytes → Index → Index
    employ base container index =
        let employed =
          for_each (λ id s. add_worker (by_instance id) id s) (members container)
            ([], index.pals) in
        record index {
          pals = employed.1;
          bases = index.bases ++ record base { workers = employed.0 } ∷ [];
        }

    unfoldable pub base_with : Base → Result Bytes → Index → Index
    base_with base (err e) index = record index {
      warnings =
          index.warnings
          ++ (codes "base worker director decode failed: " ++ go.host.error_text e) ∷ [];
      bases = index.bases ++ base ∷ [];
    }
    base_with base (ok container) index = employ base container index

    -- Without bytes, no workers.
    unfoldable pub base_from : Base → Bytes → Index → Index
    base_from base [] index = record index { bases = index.bases ++ base ∷ [] }
    base_from base (b ∷ bs) index = base_with base (worker_container_id (b ∷ bs)) index

    unfoldable pub checked_base : ℕ → Fields → Value → Checked → Index → Index
    checked_base i entry value (broken message) index = record index {
      warnings = index.warnings ++ message ∷ [];
    }
    checked_base i entry value (good raw) index =
        if is_empty raw
        then index
        else base_from (base_of i entry raw)
            (bytes_from_any go (get_field (get_field value "WorkerDirector") "RawData")) index

    unfoldable pub base_in : ℕ → Fields → Index → Index
    base_in i entry index =
        let value = Value.obj (fields_of (get (codes "value") entry)) in
        checked_base i entry value
          (checked go (codes "base") (
            raw_data_map go (get_field value "RawData")
              (λ b. decoded_map (decode_base_camp_raw b))))
          index

    unfoldable pub base_entry : ℕ → Value → Index → Index
    base_entry i v index = elim (raw_map v) [ none ↦ index | some entry ↦ base_in i entry index ]

  unfoldable pub normalize_bases : Index → Value → Index
  normalize_bases index world =
      let found = character_container_members index.warnings world in
      for_each_from 0 (λ i v s. base_entry found.1 (pals_by_instance index.pals) i v s)
        (as_list (get_field world "BaseCampSaveData")) (record index { warnings = found.0 })
