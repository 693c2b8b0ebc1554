-- ===== src/Tests/Gvas.antt =====
-- The GVAS theorems on small blobs and on a small file.
use pal_panel_host_wine.Prelude.{
  ℕ, zero, suc, true, false, ◌≡◌, ◌≢◌, ◌<◌, refl, [], ◌∷◌, ◌++◌, Bytes, codes, bytes_eq, All, arith,
  some, none, drop, length,
}
use pal_panel_host_wine.Prelude.Int.{pos}
use pal_panel_host_wine.Gvas.Value.{Fields, end, unparsed_bytes, put, put_all, ints_from_bytes}
use pal_panel_host_wine.Gvas.Reader.{
  Result, ok, err, run, result, ◌>>=◌, continue, pure, new_reader, at_eof, eof, remaining,
  get_remaining, read, byte, first_byte, u32, i32, fstring, fstring_body, guid, format_guid, hex,
  hex_digit, hexes, tarray, repeat,
}
use pal_panel_host_wine.Gvas.Reader.Good.{Outcome}
use pal_panel_host_wine.Gvas.Reader.Encode.{
  Decodes, encode_i32, encode_fstring, fstring-Decodes, encode_le, concat,
}
use pal_panel_host_wine.Gvas.Reader.Guid.{format_guid-injective}
use pal_panel_host_wine.Gvas.Header.{read_header}
use pal_panel_host_wine.Gvas.Header.Encode.{
  Source, IsValid, header_of, encode_header, read_header-Decodes,
}
use pal_panel_host_wine.Gvas.Parts.{read_group_header, require_eof}
use pal_panel_host_wine.Gvas.Group.{current_guild, current_guild_body, guild_plain_tail}
use pal_panel_host_wine.Gvas.Group.Exact.{current_guild_exact}
use pal_panel_host_wine.Gvas.Decode.{
  Host, properties_until_end, read_file, base_camp_path, byte_array_raw_data, exhausted,
}
use pal_panel_host_wine.Gvas.Decode.Total.{Settled, read_file-Settled, properties_until_end-Outcome}
use pal_panel_host_wine.Gvas.Slots.{base_camp, decode_base_camp_raw}
use pal_panel_host_wine.Gvas.Decode.Encode.{
  Tree, none_left, int_prop, str_prop, bool_prop, bytes_prop, struct_prop, encode, value_of, IsTree,
  encode_bytes,
}
use pal_panel_host_wine.Gvas.Decode.RoundTrip.{read_file-encode}
use pal_panel_host_wine.Gvas.Decode.Blob.{out_of_rounds, raw_value, byte_array_raw_data-Decodes}
use pal_panel_host_wine.Sav.{Codecs, decode_to_gvas}
use pal_panel_host_wine.Sav.Encode.{encode_plz2}
use pal_panel_host_wine.Sav.Open.{file_of, opened, decode-read_file}

abbrev host : Host
host = record { byte_of_float = λ _. 0; error_text = λ _. codes "error"; sprint = λ _. [] }

abbrev guid_bytes : Bytes
guid_bytes = 1 ∷ 2 ∷ 3 ∷ 4 ∷ 5 ∷ 6 ∷ 7 ∷ 8 ∷ 9 ∷ 10 ∷ 11 ∷ 12 ∷ 13 ∷ 14 ∷ 15 ∷ 255 ∷ []

abbrev source : Source
source = record {
  ue4 = pos 522;
  ue5 = pos 1008;
  major = 5;
  minor = 1;
  patch = 1;
  change = 0;
  branch = codes "++UE5";
  versions = (guid_bytes, pos 7) ∷ [];
  class_name = codes "/Script/Pal.PalWorldSaveGame";
}

source-IsValid : IsValid source
source-IsValid = record {
  ue4 = omega arith;
  ue5 = omega arith;
  major = omega arith;
  minor = omega arith;
  patch = omega arith;
  change = omega arith;
  branch = omega arith;
  count = omega arith;
  versions = ((refl, omega arith), tt);
  class_name = omega arith;
}

read_header-Decodes_example : Decodes read_header (encode_header source) (header_of source)
read_header-Decodes_example = read_header-Decodes source source-IsValid

read_file-Settled_example :
    Settled (read_file host (encode_header source ++ encode_fstring (codes "None")))
read_file-Settled_example =
    read_file-Settled host (encode_header source ++ encode_fstring (codes "None"))

-- An empty list of properties.
abbrev nothing : Bytes
nothing = 5 ∷ 0 ∷ 0 ∷ 0 ∷ codes "None" ++ 0 ∷ []

properties_until_end-Outcome_example :
    Outcome 1
      (record { bytes = nothing; pos = 0 })
      (properties_until_end host 9 [] (record { bytes = nothing; pos = 0 }))
properties_until_end-Outcome_example =
    properties_until_end-Outcome host [] (record { bytes = nothing; pos = 0 }) (omega arith)

fstring-Decodes_example : Decodes fstring (encode_fstring (codes "Pal")) (codes "Pal")
fstring-Decodes_example = fstring-Decodes (codes "Pal") (omega arith)

guid_bytes-All : All (λ x. x < 256) guid_bytes
guid_bytes-All = ground arith

format_guid-injective_example : guid_bytes ≡ guid_bytes
format_guid-injective_example =
    format_guid-injective guid_bytes guid_bytes refl refl guid_bytes-All guid_bytes-All refl

abbrev zeros : ℕ → Bytes
zeros zero = []
zeros (suc n) = 0 ∷ zeros n

-- A guild with nothing in it: each of its fields is empty or zero.
abbrev blank_guild : Bytes
blank_guild = zeros 93

abbrev or_end : Result Fields → Fields
or_end (ok fs) = fs
or_end (err e) = end

blank_guild_read :
    run (current_guild false) blank_guild ≡ ok (or_end (run (current_guild false) blank_guild))
unfolding run result current_guild current_guild_body guild_plain_tail read_group_header require_eof
    ◌>>=◌ continue pure new_reader at_eof eof remaining get_remaining read byte first_byte u32 i32
    fstring fstring_body guid format_guid hex hex_digit hexes tarray repeat put put_all
    ints_from_bytes bytes_eq
blank_guild_read = refl

abbrev more : Bytes
more = 7 ∷ []

more_some : more ≢ []
more_some h = cc

current_guild_exact_example :
    run (current_guild false) (blank_guild ++ more) ≡ err (unparsed_bytes 1)
current_guild_exact_example =
    current_guild_exact false blank_guild more (or_end (run (current_guild false) blank_guild))
      blank_guild_read more_some

abbrev tree : Tree
tree = int_prop (codes "Version") (pos 100) (
    struct_prop (codes "worldSaveData") guid_bytes
      (str_prop (codes "Name") (codes "Pal")
        (bytes_prop (codes "RawData") (1 ∷ 2 ∷ 255 ∷ []) none_left))
      (bool_prop (codes "Done") true none_left))

tree-IsTree : IsTree [] tree
unfolding IsTree bytes_eq encode encode_fstring encode_i32 encode_le
tree-IsTree = (
  (omega arith, refl, (refl, refl, refl)),
  omega arith,
  (
    (omega arith, refl, (refl, refl, refl)),
    refl,
    omega arith,
    (
      (omega arith, refl, (refl, refl, refl)),
      omega arith,
      omega arith,
      ((omega arith, refl, (refl, refl, refl)), omega arith, ground arith, tt),
    ),
    ((omega arith, refl, (refl, refl, refl)), tt),
  ),
)

abbrev trailer : Bytes
trailer = 0 ∷ 0 ∷ 0 ∷ 0 ∷ []

read_file-encode_example :
    read_file host (encode_header source ++ (encode tree ++ trailer))
    ≡ ok (record { header = header_of source; properties = value_of tree end; trailer_len = 4 })
read_file-encode_example = read_file-encode host source tree trailer source-IsValid tree-IsTree

-- Too short for a base camp.
abbrev broken : Bytes
broken = 1 ∷ 2 ∷ 3 ∷ []

broken-bytes : All (λ x. x < 256) broken
broken-bytes = ground arith

broken_refused : out_of_rounds (decode_base_camp_raw broken) ≡ false
unfolding decode_base_camp_raw base_camp run result ◌>>=◌ continue new_reader guid read exhausted
broken_refused = refl

byte_array_raw_data-Decodes_example :
    Decodes
      (byte_array_raw_data host
        (properties_until_end host 100)
        (codes "ArrayProperty")
        7
        base_camp_path
        decode_base_camp_raw)
      (encode_bytes broken)
      (raw_value host base_camp_path broken (decode_base_camp_raw broken))
byte_array_raw_data-Decodes_example =
    byte_array_raw_data-Decodes host (properties_until_end host 100) base_camp_path broken
      decode_base_camp_raw (omega arith) broken-bytes broken_refused

-- One byte in front stands for the compression.
abbrev deflate : Bytes → Bytes
deflate bytes = 120 ∷ bytes

abbrev codecs : Codecs
codecs = record { inflate = λ bytes. some (drop 1 bytes); oodle = λ payload n. none }

file_size : length (file_of source tree trailer) < 1000
unfolding encode_header concat encode encode_fstring encode_i32 encode_le
file_size = omega arith

decode-read_file_example :
    opened host (decode_to_gvas codecs (encode_plz2 deflate (file_of source tree trailer))).1
    ≡ some
        (ok (record { header = header_of source; properties = value_of tree end; trailer_len = 4 }))
decode-read_file_example =
    decode-read_file host codecs deflate source tree trailer refl refl (omega (arith, file_size))
      (omega (arith, file_size)) source-IsValid tree-IsTree
