-- ===== src/Tests/Indexer.antt =====
-- The indexer's theorems on a save with a guild, its member, a pal and a base.
use pal_panel_host_wine.Prelude.{
  ℕ, ◌+◌, ◌-◌, ◌*◌, ◌≡◌, refl, true, none, some, List, [], ◌∷◌, ◌++◌, String, Bytes, codes,
  bytes_eq, length, ◌==◌, false, ltb, leb, All, for_each_from, arith,
}
use pal_panel_host_wine.Prelude.Int.{pos}
use pal_panel_host_wine.Gvas.Value.{
  Value, Fields, choose, Error, past_end, object, array, fields, get,
}
use pal_panel_host_wine.Gvas.Decode.{Host, File, read_file, byte_of_int}
use pal_panel_host_wine.Gvas.Reader.{ok, run, result, ◌>>=◌, guid, read, new_reader, remaining}
use pal_panel_host_wine.Gvas.Header.Encode.{Source, encode_header, IsValid}
use pal_panel_host_wine.Gvas.Decode.Encode.{none_left, bytes_prop, encode, IsTree}
use pal_panel_host_wine.Gvas.Group.{
  decode_group_raw, decode_group_as, group_kind, or_else, current_guild, current_guild_body,
  legacy_group,
}
use pal_panel_host_wine.Gvas.Reader.Encode.{encode_i32, encode_fstring, encode_le}
use pal_panel_host_wine.Gvas.Parts.{read_group_header}
use pal_panel_host_wine.Indexer.{Base, empty_index, origin}
use pal_panel_host_wine.Indexer.Values.{
  Go, as_float, float_value, unwrap_within, as_map, as_list, get_field, as_string, unwrap, raw_map,
  string_of, has_key, fields_of, raw_data_map, decoded_bytes, bytes_within, size, as_int,
  as_int_default, int_of, or_int, list_of, bytes_of_items, container_id_from_any, bytes_from_any,
}
use pal_panel_host_wine.Indexer.Guilds.{normalize_guilds}
use pal_panel_host_wine.Indexer.Objects.{
  covers, distance, area_range, best_distance, nearer, position_of, nearest_base,
}
use pal_panel_host_wine.Indexer.Normalize.{normalize}
use pal_panel_host_wine.Indexer.Sound.{refers, has_pal, Distinct}
use pal_panel_host_wine.Indexer.Sound.Whole.{guilds_exist, workers_exist, containers_differ}
use pal_panel_host_wine.Indexer.Reads.{
  bytes_from_any-read_file, nested, container_id_from_any-read_file,
}
use pal_panel_host_wine.Indexer.Named.{guilds_named}
use pal_panel_host_wine.Indexer.Broken.{IsBrokenGuild, group_warning, broken_guild_costs_itself}
use pal_panel_host_wine.Indexer.Nearest.{IsStrict, IsNearest, nearest_base-IsNearest}

abbrev sample_host : Host
sample_host = record {
  byte_of_float = λ v. 0;
  error_text = λ e. codes "error";
  sprint = λ v. codes "?";
}

-- Floats are whole numbers here, and texts are as they stand.
abbrev go : Go
go = record {
  host = sample_host;
  trim_space = λ s. s;
  to_lower = λ s. s;
  equal_fold = bytes_eq;
  print_int = λ n. codes "1";
  parse_int = λ s. none;
  parse_float = λ s. none;
  int_of_float = λ v. pos 0;
  float_of = λ v. 0;
  float_sub = λ x y. x - y;
  float_add = λ x y. x + y;
  float_mul = λ x y. x * y;
  float_lt = ltb;
  float_le = leb;
  max_float = 1000000;
}

abbrev guild_entries : Value
guild_entries = array (
    object (
      ("key", Value.str (codes "g"))
      ∷ (
        "value",
        object (
            ("GroupType", Value.str (codes "EPalGroupType::Guild"))
            ∷ (
              "RawData",
              object (
                  ("group_id", Value.str (codes "g"))
                  ∷ ("guild_name", Value.str (codes "G"))
                  ∷ ("players", array (object (("player_uid", Value.str (codes "u")) ∷ []) ∷ []))
                  ∷ []),
            )
            ∷ []),
      )
      ∷ [])
    ∷ [])

abbrev character : Bytes → List (String × Value) → Value
character id params = object (
    ("key", object (("PlayerUId", Value.str (codes "u")) ∷ ("InstanceId", Value.str id) ∷ []))
    ∷ (
      "value",
      object (
          ("RawData", object (("object", object (("SaveParameter", object params) ∷ [])) ∷ []))
          ∷ []),
    )
    ∷ [])

abbrev sample_world : Value
sample_world = object (
    ("GroupSaveDataMap", guild_entries)
    ∷ (
      "CharacterSaveParameterMap",
      array (
          character (codes "i") (("IsPlayer", Value.bool true) ∷ [])
          ∷ character (codes "j") (("OwnerPlayerUId", Value.str (codes "u")) ∷ [])
          ∷ []),
    )
    ∷ (
      "BaseCampSaveData",
      array (
          object (
            ("key", Value.str (codes "b"))
            ∷ ("value", object (("RawData", object (("id", Value.str (codes "b")) ∷ [])) ∷ []))
            ∷ [])
          ∷ []),
    )
    ∷ [])

abbrev sample : Fields
sample = fields (("worldSaveData", sample_world) ∷ [])

guilds_exist_example :
    All (λ p. refers (normalize go sample).guilds p.guild_id ≡ true) (normalize go sample).players
    × All (λ p. refers (normalize go sample).guilds p.guild_id ≡ true) (normalize go sample).pals
guilds_exist_example = guilds_exist go sample

workers_exist_example :
    All
      (λ b. All (λ w. has_pal (normalize go sample).pals w.instance_id ≡ true) b.workers)
      (normalize go sample).bases
workers_exist_example = workers_exist go sample

containers_differ_example : All (λ b. Distinct b.containers) (normalize go sample).bases
containers_differ_example = containers_differ go sample

-- A file with the bytes of a property "RawData".
abbrev file_source : Source
file_source = record {
  ue4 = pos 522;
  ue5 = pos 1008;
  major = 5;
  minor = 1;
  patch = 1;
  change = 0;
  branch = codes "++UE5";
  versions = [];
  class_name = codes "/Script/Pal.PalWorldSaveGame";
}

file_source-IsValid : IsValid file_source
file_source-IsValid = record {
  ue4 = omega arith;
  ue5 = omega arith;
  major = omega arith;
  minor = omega arith;
  patch = omega arith;
  change = omega arith;
  branch = omega arith;
  count = omega arith;
  versions = tt;
  class_name = omega arith;
}

two_bytes-IsTree : IsTree [] (bytes_prop (codes "RawData") (200 ∷ 7 ∷ []) none_left)
unfolding IsTree bytes_eq
two_bytes-IsTree =
    ((omega arith, refl, (refl, refl, refl)), omega arith, (omega arith, (omega arith, tt)), tt)

bytes_from_any-read_file_example :
    (f : File) × (read_file go.host (
        encode_header file_source
        ++ (encode (bytes_prop (codes "RawData") (200 ∷ 7 ∷ []) none_left) ++ 0 ∷ []))
      ≡ ok f)
    × (bytes_from_any go (get (codes "RawData") f.properties) ≡ 200 ∷ 7 ∷ [])
bytes_from_any-read_file_example =
    bytes_from_any-read_file go file_source (codes "RawData") (200 ∷ 7 ∷ []) (0 ∷ [])
      file_source-IsValid two_bytes-IsTree

abbrev sixteen : Bytes
sixteen = 1 ∷ 2 ∷ 3 ∷ 4 ∷ 5 ∷ 6 ∷ 7 ∷ 8 ∷ 9 ∷ 10 ∷ 11 ∷ 12 ∷ 13 ∷ 14 ∷ 15 ∷ 255 ∷ []

abbrev guids : List Bytes
guids = sixteen ∷ sixteen ∷ []

nested-IsTree : IsTree [] (nested guids (codes "c"))
unfolding IsTree nested bytes_eq encode encode_fstring encode_i32 encode_le
nested-IsTree = (
  (omega arith, refl, (refl, refl, refl)),
  refl,
  omega arith,
  (
    (omega arith, refl, (refl, refl, refl)),
    refl,
    omega arith,
    ((omega arith, refl, (refl, refl, refl)), omega arith, omega arith, tt),
    tt,
  ),
  tt,
)

container_id_from_any-read_file_example :
    (f : File) × (read_file go.host
        (encode_header file_source ++ (encode (nested guids (codes "c")) ++ 0 ∷ []))
      ≡ ok f)
    × (container_id_from_any go (Value.obj f.properties) ≡ codes "c")
container_id_from_any-read_file_example =
    container_id_from_any-read_file go file_source guids (codes "c") (0 ∷ []) file_source-IsValid
      nested-IsTree refl

guilds_named_example : All (λ g. (length g.id == 0) ≡ false) (normalize go sample).guilds
guilds_named_example = guilds_named go sample

-- A guild whose blob is a text.
abbrev broken_fields : Fields
broken_fields = fields (
    ("key", Value.str (codes "h"))
    ∷ (
      "value",
      object (
          ("GroupType", Value.str (codes "EPalGroupType::Guild"))
          ∷ ("RawData", array (Value.byte 1 ∷ []))
          ∷ []),
    )
    ∷ [])

abbrev world_of : List Value → Value
world_of vs = object (("GroupSaveDataMap", array vs) ∷ [])

abbrev short_blob : Error
short_blob = past_end 0 (pos 16) 1

broken_fields-IsBrokenGuild : IsBrokenGuild go (Value.obj broken_fields) short_blob
unfolding raw_map as_string string_of unwrap unwrap_within get_field as_map has_key fields_of get
    bytes_eq raw_data_map decoded_bytes bytes_from_any bytes_within size bytes_of_items byte_of_int
    as_int as_int_default int_of list_of or_int decode_group_raw decode_group_as group_kind choose
    or_else run result current_guild ◌>>=◌ current_guild_body read_group_header guid read new_reader
    legacy_group remaining
broken_fields-IsBrokenGuild = (broken_fields, refl, refl, refl)

broken_guild_costs_itself_example :
    ((normalize_guilds go empty_index
        (world_of (Value.obj broken_fields ∷ as_list guild_entries))).0.guilds
      ≡ (normalize_guilds go empty_index (world_of (as_list guild_entries))).0.guilds)
    × ((normalize_guilds go empty_index
          (world_of (Value.obj broken_fields ∷ as_list guild_entries))).1
        ≡ (normalize_guilds go empty_index (world_of (as_list guild_entries))).1)
    × ((earlier later : List Bytes) × ((normalize_guilds go empty_index
            (world_of (Value.obj broken_fields ∷ as_list guild_entries))).0.warnings
          ≡ earlier ++ group_warning go short_blob ∷ later)
        × ((normalize_guilds go empty_index (world_of (as_list guild_entries))).0.warnings
            ≡ earlier ++ later))
unfolding as_list unwrap unwrap_within get_field as_map raw_map has_key bytes_eq get list_of
broken_guild_costs_itself_example =
    broken_guild_costs_itself go empty_index
      (world_of (Value.obj broken_fields ∷ as_list guild_entries))
      (world_of (as_list guild_entries)) [] (as_list guild_entries) (Value.obj broken_fields)
      short_blob refl refl broken_fields-IsBrokenGuild

abbrev base_here : ℕ → Base
base_here x = record {
  id = codes "b";
  name = codes "B";
  guild_id = [];
  guild_name = [];
  location = record { x = x; y = 0; z = 0 };
  structures_count = 0;
  workers = [];
  containers = [];
  status = codes "Safe";
  raw = fields (("area_range", Value.double 10) ∷ []);
}

abbrev two_bases : List Base
two_bases = base_here 4 ∷ base_here 2 ∷ []

ltb-IsStrict : IsStrict ltb
ltb-IsStrict = record {
  irreflexive = λ x. ground arith;
  transitive = λ x y z h k. ground (arith, h, k);
}

second_is_found : nearest_base go two_bases origin ≡ some 1
unfolding nearest_base position_of nearer covers distance area_range best_distance for_each_from
    as_float float_value unwrap unwrap_within get bytes_eq
second_is_found = refl

nearest_base-IsNearest_example : IsNearest go origin two_bases 1
nearest_base-IsNearest_example =
    nearest_base-IsNearest go two_bases origin 1 ltb-IsStrict second_is_found
