-- ===== src/Indexer/Characters.antt =====
-- sav-cli/internal/indexer/normalize.go: `normalizeCharacters`. An entry of the save becomes a
-- player, a pal, a warning or nothing.
use pal_panel_host_wine.Prelude.{
  ℕ, suc, ◌+◌, Bool, false, not, ◌&&◌, ◌||◌, Option, none, some, List, [], ◌∷◌, ◌++◌, String, Bytes,
  codes, length, ◌==◌, if◌then◌else◌, put_key, for_each, contains,
}
use pal_panel_host_wine.Prelude.Int.{pos}
use pal_panel_host_wine.Gvas.Value.{Value, Fields, end, field, get}
use pal_panel_host_wine.Gvas.Decode.{decode_character_raw}
use pal_panel_host_wine.Indexer.{
  Player, Guild, Pal, Index, Checked, broken, good, checked, location_from_any,
}
use pal_panel_host_wine.Indexer.Guilds.{MemberGuild}
use pal_panel_host_wine.Indexer.Values.{
  Go, raw_map, fields_of, get_field, as_list, as_string, as_int, as_int_default, as_bool,
  first_non_empty, first_non_empty_any, string_slice, is_zero_guid, container_id_from_any,
  raw_data_map, decoded_map, is_empty,
}

pub data CharacterEntry : Type 0 where
  skipped : CharacterEntry
  warned : Bytes → CharacterEntry
  player : Player → CharacterEntry
  pal : Pal → CharacterEntry

-- `guildByID`: the last guild with an id.
unfoldable pub guild_by_id : List Guild → MemberGuild
guild_by_id gs = for_each (λ g m. put_key g.id (some g) m) gs (λ id. none)

-- What a missing key of the map reads as.
abbrev pub zero_guild : Guild
zero_guild = record {
  id = [];
  name = [];
  owner_player_uid = [];
  members = [];
  base_ids = [];
  raw = end;
}

unfoldable pub guild_or_zero : Option Guild → Guild
guild_or_zero none = zero_guild
guild_or_zero (some g) = g

-- The guild that has the player as a member, or else the one with the id.
unfoldable pub owning_guild : MemberGuild → MemberGuild → Bytes → Bytes → Guild
owning_guild members by_id uid group_id =
    if length (guild_or_zero (members uid)).id == 0
    then guild_or_zero (by_id group_id)
    else guild_or_zero (members uid)

abbrev character_raw : Fields → Fields → Value
character_raw key save_param = Value.obj (
    field (codes "key") (Value.obj key) (field (codes "save_parameter") (Value.obj save_param) end))

unfoldable pub add_character : CharacterEntry → Index → Index
add_character skipped index = index
add_character (warned message) index = record index { warnings = index.warnings ++ message ∷ [] }
add_character (player p) index = record index { players = index.players ++ p ∷ [] }
add_character (pal p) index = record index { pals = index.pals ++ p ∷ [] }

module _ (go : Go) where
  -- The value of the first field that is not empty.
  abbrev first_of : Fields → List String → Value
  first_of m names = first_non_empty_any go (pick names)
    where
      pick : List String → List Value
      pick [] = []
      pick (k ∷ ks) = get_field (Value.obj m) k ∷ pick ks

  abbrev text : Fields → String → Bytes
  text m k = as_string go (get_field (Value.obj m) k)

  unfoldable pub instance_id : Fields → Bytes → ℕ → Bytes
  instance_id key uid n =
      let given = first_non_empty go (text key "InstanceId" ∷ text key "InstanceID" ∷ []) in
      if length given == 0
      then first_non_empty go (uid ∷ (codes "character-" ++ go.print_int (pos (suc n))) ∷ [])
      else given

  unfoldable pub player_of : Guild → Fields → Fields → Bytes → Player
  player_of guild key sp uid = record {
    player_uid = uid;
    steam_id = as_string go (first_of sp ("PlatformUserId" ∷ "SteamId" ∷ []));
    nickname = first_non_empty go (text sp "NickName" ∷ uid ∷ []);
    level = as_int go (get_field (Value.obj sp) "Level");
    guild_id = guild.id;
    guild_name = guild.name;
    is_online = false;
    last_online_time = [];
    location =
        location_from_any go (first_of sp ("Transform" ∷ "Location" ∷ "LastJumpedLocation" ∷ []));
    raw = character_raw key sp;
  }

  unfoldable pub gender_of : Fields → Bytes
  gender_of sp =
      if contains (go.to_lower (text sp "Gender")) (codes "female")
      then codes "female"
      else codes "male"

  abbrev slot_of : Fields → Value
  slot_of sp = first_of sp ("SlotID" ∷ "SlotId" ∷ "EquipItemContainerId" ∷ [])

  unfoldable pub pal_of : Guild → Fields → Fields → Bytes → Pal
  pal_of guild key sp id = record {
    instance_id = id;
    character_id = as_string go (first_of sp ("CharacterID" ∷ "CharacterId" ∷ []));
    nickname = text sp "NickName";
    level = as_int_default go (get_field (Value.obj sp) "Level") (pos 1);
    owner_player_uid = text sp "OwnerPlayerUId";
    old_owner_uids =
        string_slice go (as_list (first_of sp ("OldOwnerPlayerUIds" ∷ "OldOwnerPlayerUIDs" ∷ [])));
    guild_id = guild.id;
    container_id = container_id_from_any go (slot_of sp);
    slot_index = as_int go (
        first_non_empty_any go
          (get_field (slot_of sp) "SlotIndex" ∷ get_field (Value.obj sp) "SlotIndex" ∷ []));
    location_type = codes "palbox";
    location =
        location_from_any go (first_of sp ("Transform" ∷ "Location" ∷ "LastJumpedLocation" ∷ []));
    gender = gender_of sp;
    rank = as_int_default go (get_field (Value.obj sp) "Rank") (pos 1);
    iv_hp = as_int go (get_field (Value.obj sp) "Talent_HP");
    iv_attack = as_int go (first_of sp ("Talent_Shot" ∷ "Talent_Attack" ∷ []));
    iv_defense = as_int go (get_field (Value.obj sp) "Talent_Defense");
    skills = string_slice go (as_list (first_of sp ("MasteredWaza" ∷ "SkillList" ∷ [])));
    equipped_skills = string_slice go (as_list (get_field (Value.obj sp) "EquipWaza"));
    passives = string_slice go (as_list (get_field (Value.obj sp) "PassiveSkillList"));
    on_expedition = not (length (text sp "MapObjectConcreteInstanceIdAssignedToExpedition") == 0);
    status = codes "Healthy";
    raw = character_raw key sp;
  }

  -- A pal without an owner, a guild and a container is left out.
  unfoldable pub is_stray : Fields → Bytes → Bool
  is_stray sp group_id =
      length (text sp "OwnerPlayerUId") == 0
      && ((length group_id == 0 || is_zero_guid go group_id)
          && length (container_id_from_any go (slot_of sp)) == 0)

  module _ (members by_id : MemberGuild) (n : ℕ) where
    unfoldable pub character_of : Fields → Fields → Bytes → Bytes → CharacterEntry
    character_of key sp uid group_id =
        if as_bool go (get_field (Value.obj sp) "IsPlayer")
        then player (player_of (owning_guild members by_id uid group_id) key sp uid)
        else if is_stray sp group_id
        then skipped
        else pal (
            pal_of (owning_guild members by_id (text sp "OwnerPlayerUId") group_id) key sp
              (instance_id key uid n))

    unfoldable pub character_with : Fields → Fields → Fields → CharacterEntry
    character_with key raw sp =
        if is_empty sp
        then skipped
        else character_of key sp
            (first_non_empty go (text key "PlayerUId" ∷ text key "PlayerUID" ∷ []))
            (as_string go (get (codes "group_id") raw))

    unfoldable pub checked_character : Fields → Checked → CharacterEntry
    checked_character key (broken message) = warned message
    checked_character key (good raw) =
        character_with key raw
          (fields_of (get_field (Value.obj (fields_of (get (codes "object") raw))) "SaveParameter"))

    unfoldable pub character_in : Fields → CharacterEntry
    character_in entry = checked_character (fields_of (get (codes "key") entry)) (
        checked go (codes "character") (
          raw_data_map go (get_field (Value.obj (fields_of (get (codes "value") entry))) "RawData")
            (λ b. decoded_map (decode_character_raw go.host b))))

    unfoldable pub character_entry : Value → CharacterEntry
    character_entry v = elim (raw_map v) [ none ↦ skipped | some entry ↦ character_in entry ]

  unfoldable pub normalize_characters : MemberGuild → Index → Value → Index
  normalize_characters members index world =
      for_each
        (λ v i.
          add_character
            (character_entry members (guild_by_id index.guilds) (length i.pals + length i.players)
              v)
            i)
        (as_list (get_field world "CharacterSaveParameterMap")) index
