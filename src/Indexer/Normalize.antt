-- ===== src/Indexer/Normalize.antt =====
-- sav-cli/internal/indexer/normalize.go: `Normalize`, from the decoded tree to the index.
use pal_panel_host_wine.Prelude.{Option, none, some, [], ◌∷◌, codes}
use pal_panel_host_wine.Gvas.Value.{Value, Fields}
use pal_panel_host_wine.Indexer.{Index, empty_index}
use pal_panel_host_wine.Indexer.Values.{Go, as_map, get_field}
use pal_panel_host_wine.Indexer.Guilds.{MemberGuild, normalize_guilds}
use pal_panel_host_wine.Indexer.Characters.{normalize_characters}
use pal_panel_host_wine.Indexer.Containers.{normalize_containers}
use pal_panel_host_wine.Indexer.Bases.{normalize_bases}
use pal_panel_host_wine.Indexer.Entities.{apply_guild_names, rebuild_map_entities}
use pal_panel_host_wine.Indexer.Objects.{normalize_map_objects}

module _ (go : Go) where
  -- The steps behind the guilds.
  unfoldable pub normalize_rest : Value → Index × MemberGuild → Index
  normalize_rest world (index, members) =
      let with_characters = normalize_characters go members index world in
      let with_containers = normalize_containers go with_characters world in
      let with_bases = normalize_bases go with_containers world in
      normalize_map_objects go (rebuild_map_entities go (apply_guild_names with_bases)) world

  unfoldable pub normalize_world : Option Fields → Index
  normalize_world none = record empty_index {
    warnings = codes "worldSaveData is missing or has an unexpected shape" ∷ [];
  }
  normalize_world (some world) =
      normalize_rest (Value.obj world) (normalize_guilds go empty_index (Value.obj world))

  unfoldable pub normalize : Fields → Index
  normalize properties = normalize_world (as_map (get_field (Value.obj properties) "worldSaveData"))
