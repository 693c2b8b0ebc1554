-- ===== src/Indexer.antt =====
-- sav-cli/internal/indexer/types.go: the index that the panel shows of a world. An int is an
-- integer, a float64 its bits. What only the panel's other parts fill in is left out: the version,
-- the source, the times and the snapshot.
pub mod Bases
pub mod Broken
pub mod Characters
pub mod Containers
pub mod Entities
pub mod Fuel
pub mod Guilds
pub mod Named
pub mod Nearest
pub mod Normalize
pub mod Objects
pub mod Reads
pub mod Sound
pub mod Values
use pal_panel_host_wine.Prelude.{
  ℕ, Bool, Option, none, some, List, [], ◌∷◌, ◌++◌, Bytes, codes, length, ◌==◌, if◌then◌else◌, not,
}
use pal_panel_host_wine.Prelude.Int.{ℤ}
use pal_panel_host_wine.Gvas.Value.{Value, Fields, get, Error}
use pal_panel_host_wine.Gvas.Reader.{Result, ok, err}
use pal_panel_host_wine.Gvas.Decode.{Host}
use pal_panel_host_wine.Indexer.Values.{
  Go, has_key, raw_map, fields_of, unwrap, as_string, as_float,
}

pub record Coordinates : Type 0 where
  pub x : ℕ
  pub y : ℕ
  pub z : ℕ

pub record Player : Type 0 where
  pub player_uid : Bytes
  pub steam_id : Bytes
  pub nickname : Bytes
  pub level : ℤ
  pub guild_id : Bytes
  pub guild_name : Bytes
  pub is_online : Bool
  pub last_online_time : Bytes
  pub location : Coordinates
  pub raw : Value

pub record GuildMember : Type 0 where
  pub player_uid : Bytes
  pub nickname : Bytes
  pub last_online_time : Bytes

pub record Guild : Type 0 where
  pub id : Bytes
  pub name : Bytes
  pub owner_player_uid : Bytes
  pub members : List GuildMember
  pub base_ids : List Bytes
  pub raw : Fields

pub record Worker : Type 0 where
  pub instance_id : Bytes
  pub character_id : Bytes
  pub nickname : Bytes
  pub level : ℤ

pub record Base : Type 0 where
  pub id : Bytes
  pub name : Bytes
  pub guild_id : Bytes
  pub guild_name : Bytes
  pub location : Coordinates
  pub structures_count : ℕ
  pub workers : List Worker
  pub containers : List Bytes
  pub status : Bytes
  pub raw : Fields

pub record Pal : Type 0 where
  pub instance_id : Bytes
  pub character_id : Bytes
  pub nickname : Bytes
  pub level : ℤ
  pub owner_player_uid : Bytes
  pub old_owner_uids : List Bytes
  pub guild_id : Bytes
  pub container_id : Bytes
  pub slot_index : ℤ
  pub location_type : Bytes
  pub location : Coordinates
  pub gender : Bytes
  pub rank : ℤ
  pub iv_hp : ℤ
  pub iv_attack : ℤ
  pub iv_defense : ℤ
  pub skills : List Bytes
  pub equipped_skills : List Bytes
  pub passives : List Bytes
  pub on_expedition : Bool
  pub status : Bytes
  pub raw : Value

pub record Slot : Type 0 where
  pub slot : ℤ
  pub item_id : Bytes
  pub count : ℤ
  pub durability : Option ℕ

pub record Container : Type 0 where
  pub container_id : Bytes
  pub owner_type : Bytes
  pub owner_id : Bytes
  pub slots : List Slot

pub record MapEntity : Type 0 where
  pub entity_type : Bytes
  pub id : Bytes
  pub label : Bytes
  pub location : Coordinates

pub record Index : Type 0 where
  pub warnings : List Bytes
  pub players : List Player
  pub guilds : List Guild
  pub bases : List Base
  pub pals : List Pal
  pub containers : List Container
  pub map_entities : List MapEntity

-- `EmptyIndex`.
abbrev pub empty_index : Index
empty_index = record {
  warnings = [];
  players = [];
  guilds = [];
  bases = [];
  pals = [];
  containers = [];
  map_entities = [];
}

abbrev pub origin : Coordinates
origin = record { x = 0; y = 0; z = 0 }

-- A raw map, or the warning that takes its place.
pub data Checked : Type 0 where
  broken : Bytes → Checked
  good : Fields → Checked

module _ (go : Go) where
  unfoldable pub place : Fields → Coordinates
  place m = record {
    x = as_float go (get (codes "x") m);
    y = as_float go (get (codes "y") m);
    z = as_float go (get (codes "z") m);
  }

  unfoldable pub translation : Fields → Fields
  translation m =
      if has_key (codes "translation") m
      then fields_of (get (codes "translation") m)
      else if has_key (codes "Translation") m
      then fields_of (get (codes "Translation") m)
      else m

  unfoldable pub location_from_any : Value → Coordinates
  location_from_any v = elim (raw_map (unwrap v)) [ none ↦ origin | some m ↦ place (translation m) ]

  -- The two tests behind `rawDataMap`; `what` begins the warning.
  unfoldable pub checked : Bytes → Result Fields → Checked
  checked what (err e) = broken (what ++ codes " RawData decode failed: " ++ go.host.error_text e)
  checked what (ok raw) =
      if not (length (as_string go (get (codes "decode_error") raw)) == 0)
      then broken (
          what ++ codes " RawData decode failed: " ++ as_string go (get (codes "decode_error") raw))
      else good raw
