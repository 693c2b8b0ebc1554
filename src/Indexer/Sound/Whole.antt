-- ===== src/Indexer/Sound/Whole.antt =====
-- The index that `Normalize` returns.
use pal_panel_host_wine.Prelude.{
  ◌≡◌, refl, sym, inl, inr, true, Option, none, some, List, Bytes, codes, length, ◌==◌, Bool-cases,
  for_each-keeps, All, All-map,
}
use mathlib.Core.Path.{subst}
use pal_panel_host_wine.Gvas.Value.{Value, Fields, get}
use pal_panel_host_wine.Indexer.{Guild, Player, Index, empty_index}
use pal_panel_host_wine.Indexer.Guilds.{MemberGuild, normalize_guilds}
use pal_panel_host_wine.Indexer.Characters.{normalize_characters}
use pal_panel_host_wine.Indexer.Containers.{
  is_id, add_container, container_in, container_entry, normalize_containers,
}
use pal_panel_host_wine.Indexer.Bases.{normalize_bases}
use pal_panel_host_wine.Indexer.Entities.{
  guild_names, name_base, name_player, apply_guild_names, rebuild_map_entities,
}
use pal_panel_host_wine.Indexer.Normalize.{normalize_rest, normalize_world, normalize}
use pal_panel_host_wine.Indexer.Values.{Go, raw_map, fields_of, get_field, container_id_from_any}
use pal_panel_host_wine.Indexer.Sound.{refers, has_pal, Distinct, Sound}
use pal_panel_host_wine.Indexer.Sound.Guilds.{Start, normalize_guilds-Start}
use pal_panel_host_wine.Indexer.Sound.Characters.{normalize_characters-Sound}
use pal_panel_host_wine.Indexer.Sound.Bases.{normalize_bases-Sound}
use pal_panel_host_wine.Indexer.Sound.Objects.{normalize_map_objects-Sound}

name_player-refers :
    (gs : List Guild) (names : Bytes → Bytes) (p : Player)
    → refers gs p.guild_id ≡ true
    → refers gs (name_player names p).guild_id ≡ true
unfolding name_player
name_player-refers gs names p h = elim (Bool-cases (length p.guild_name == 0)) [
  | inl unnamed ↦ rw unnamed h
  | inr named ↦ rw named h
]

apply_guild_names-Sound :
    (gs : List Guild) (i : Index) → Sound gs i → Sound gs (apply_guild_names i)
unfolding apply_guild_names name_base
apply_guild_names-Sound gs i v = record {
  same = v.same;
  players_refer =
      All-map (λ p. refers gs p.guild_id ≡ true) (name_player (guild_names i.guilds))
        (name_player-refers gs (guild_names i.guilds)) i.players v.players_refer;
  pals_refer = v.pals_refer;
  workers_exist =
      All-map (λ b. All (λ w. has_pal i.pals w.instance_id ≡ true) b.workers)
        (name_base (guild_names i.guilds)) (λ b h. h) i.bases v.workers_exist;
  containers_differ =
      All-map (λ b. Distinct b.containers) (name_base (guild_names i.guilds)) (λ b h. h) i.bases
        v.containers_differ;
}

rebuild_map_entities-Sound :
    (go : Go) (gs : List Guild) (i : Index) → Sound gs i → Sound gs (rebuild_map_entities go i)
unfolding rebuild_map_entities
rebuild_map_entities-Sound go gs i v = v

module _ (go : Go) (gs : List Guild) where
  container_in-Sound :
      (id : Bytes) (value : Fields) (i : Index) → Sound gs i → Sound gs (container_in go id value i)
  unfolding container_in add_container
  container_in-Sound id value i v = elim (Bool-cases (is_id go id)) [
    | inl named ↦ rw named v
    | inr nameless ↦ rw nameless v
  ]

  container_entry-Sound : (v : Value) (i : Index) → Sound gs i → Sound gs (container_entry go v i)
  unfolding container_entry
  container_entry-Sound v i h = by_map (raw_map v)
    where
      by_map :
          (o : Option Fields)
          → Sound gs (elim o [
            | none ↦ i
            | some entry ↦
                container_in go
                  (container_id_from_any go
                    (get_field (Value.obj (fields_of (get (codes "key") entry))) "ID"))
                  (fields_of (get (codes "value") entry))
                  i
          ])
      by_map none = h
      by_map (some entry) = container_in-Sound _ _ i h

  normalize_containers-Sound :
      (i : Index) (world : Value) → Sound gs i → Sound gs (normalize_containers go i world)
  unfolding normalize_containers
  normalize_containers-Sound i world h =
      for_each-keeps (Sound gs) (container_entry go) (λ v i h. container_entry-Sound v i h) _ i h

pub normalize_rest-Sound :
    (go : Go) (world : Value) (s : Index × MemberGuild)
    → Start s
    → Sound s.0.guilds (normalize_rest go world s)
unfolding normalize_rest
normalize_rest-Sound go world (index, members) (v, r) =
    let after_characters = normalize_characters go members index world in
    let after_containers = normalize_containers go after_characters world in
    let after_bases = normalize_bases go after_containers world in
    let named = apply_guild_names after_bases in
    let with_characters = normalize_characters-Sound go members index world r v in
    let with_containers =
      normalize_containers-Sound go index.guilds after_characters world with_characters in
    let with_bases = normalize_bases-Sound go index.guilds after_containers world with_containers in
    normalize_map_objects-Sound go index.guilds (rebuild_map_entities go named) world (
      rebuild_map_entities-Sound go index.guilds named
        (apply_guild_names-Sound index.guilds after_bases with_bases))

-- Sound for its own guilds.
own_guilds : (gs : List Guild) (i : Index) → Sound gs i → Sound i.guilds i
own_guilds gs i v = subst (λ g. Sound g i) (sym v.same) v

normalize_world-Sound :
    (go : Go) (o : Option Fields) → Sound (normalize_world go o).guilds (normalize_world go o)
unfolding normalize_world
normalize_world-Sound go none = record {
  same = refl;
  players_refer = tt;
  pals_refer = tt;
  workers_exist = tt;
  containers_differ = tt;
}
normalize_world-Sound go (some world) =
    let s = normalize_guilds go empty_index (Value.obj world) in
    own_guilds s.0.guilds (normalize_rest go (Value.obj world) s)
      (normalize_rest-Sound go (Value.obj world) s (normalize_guilds-Start go (Value.obj world)))

normalize-Sound :
    (go : Go) (properties : Fields)
    → Sound (normalize go properties).guilds (normalize go properties)
unfolding normalize
normalize-Sound go properties = normalize_world-Sound go _

-- Whatever the decoded tree, every player and every pal of the index that `Normalize` returns has
-- no guild id, or the id of a guild of that index.
pub guilds_exist :
    (go : Go) (properties : Fields)
    → All
        (λ p. refers (normalize go properties).guilds p.guild_id ≡ true)
        (normalize go properties).players
      × All
          (λ p. refers (normalize go properties).guilds p.guild_id ≡ true)
          (normalize go properties).pals
guilds_exist go properties =
    let v = normalize-Sound go properties in (v.players_refer, v.pals_refer)

-- Whatever the decoded tree, every worker of every base of the index that `Normalize` returns has
-- the instance id of a pal of that index.
pub workers_exist :
    (go : Go) (properties : Fields)
    → All
        (λ b. All (λ w. has_pal (normalize go properties).pals w.instance_id ≡ true) b.workers)
        (normalize go properties).bases
workers_exist go properties = (normalize-Sound go properties).workers_exist

-- Whatever the decoded tree, no base of the index that `Normalize` returns lists a container
-- twice.
pub containers_differ :
    (go : Go) (properties : Fields)
    → All (λ b. Distinct b.containers) (normalize go properties).bases
containers_differ go properties = (normalize-Sound go properties).containers_differ
