-- ===== src/Indexer/Entities.antt =====
-- sav-cli/internal/indexer/normalize.go: `applyGuildNames` and `rebuildMapEntities`.
use pal_panel_host_wine.Prelude.{
  Bool, not, ◌&&◌, List, [], ◌∷◌, ◌++◌, map, Bytes, codes, length, ◌==◌, if◌then◌else◌, put_key,
  for_each,
}
use pal_panel_host_wine.Indexer.{Coordinates, Player, Guild, Base, Pal, MapEntity, Index}
use pal_panel_host_wine.Indexer.Values.{Go, is_zero_float, first_non_empty}

-- The names by id, of the last guild with the id; a missing id reads as no name.
unfoldable pub guild_names : List Guild → Bytes → Bytes
guild_names gs = for_each (λ g m. put_key g.id g.name m) gs (λ id. [])

unfoldable pub name_base : (Bytes → Bytes) → Base → Base
name_base names b = record b { guild_name = names b.guild_id }

unfoldable pub name_player : (Bytes → Bytes) → Player → Player
name_player names p =
    if length p.guild_name == 0 then record p { guild_name = names p.guild_id } else p

unfoldable pub apply_guild_names : Index → Index
apply_guild_names index = record index {
  bases = map (name_base (guild_names index.guilds)) index.bases;
  players = map (name_player (guild_names index.guilds)) index.players;
}

-- `location.X != 0 || location.Y != 0 || location.Z != 0`.
unfoldable pub is_placed : Coordinates → Bool
is_placed c = not (is_zero_float c.x && is_zero_float c.y && is_zero_float c.z)

unfoldable pub player_entity : Player → MapEntity
player_entity p = record {
  entity_type = codes "player";
  id = p.player_uid;
  label = p.nickname;
  location = p.location;
}

unfoldable pub base_entity : Base → MapEntity
base_entity b = record {
  entity_type = codes "base";
  id = b.id;
  label = b.name;
  location = b.location;
}

module _ (go : Go) where
  unfoldable pub pal_entity : Pal → MapEntity
  pal_entity p = record {
    entity_type = codes "pal";
    id = p.instance_id;
    label = first_non_empty go (p.nickname ∷ p.character_id ∷ []);
    location = p.location;
  }

  unfoldable pub add_pal_entity : Pal → List MapEntity → List MapEntity
  add_pal_entity p es = if is_placed p.location then es ++ pal_entity p ∷ [] else es

  unfoldable pub rebuild_map_entities : Index → Index
  rebuild_map_entities index =
      let players = for_each (λ p es. es ++ player_entity p ∷ []) index.players [] in
      let bases = for_each (λ b es. es ++ base_entity b ∷ []) index.bases players in
      record index { map_entities = for_each add_pal_entity index.pals bases }
