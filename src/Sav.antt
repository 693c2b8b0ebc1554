-- ===== src/Sav.antt =====
-- sav-cli/internal/sav/sav.go: the container of a compressed save.
-- zlib and Oodle are not part of the program: `inflate` and `oodle` stand for them.
pub mod Decode
pub mod Encode
pub mod Inspect
pub mod Open
use pal_panel_host_wine.Prelude.{
  ℕ, zero, suc, ◌+◌, ◌-◌, ◌<◌, Bool, true, false, not, ◌&&◌, ◌||◌, Option, none, some, List, [],
  ◌∷◌, Bytes, codes, bytes_eq, has_prefix, length, take, drop, ltb, ◌==◌, if◌then◌else◌,
}
use pal_panel_host_wine.Gvas.Reader.{le_value, first_byte}

-- `gvas_offset` is 0 where it is left unset.
pub record Info : Type 0 where
  pub uncompressed_len : ℕ
  pub compressed_len : ℕ
  pub magic : Bytes
  pub save_type : ℕ
  pub data_offset : ℕ
  pub gvas_offset : ℕ

-- The messages of `IncompatibleError`, with what they print.
pub data Incompatible : Type 0 where
  too_small cnk_too_small unsupported_header : Incompatible
  bad_plz_type bad_plm_type : ℕ → Incompatible
  bad_compressed_len bad_inner_len bad_uncompressed_len bad_plm_len : ℕ → ℕ → Incompatible
  zlib_failed double_zlib_failed not_gvas oodle_failed plm_not_gvas : Incompatible
  oodle_failed_with_marker marker_not_at_start : ℕ → Incompatible
  unsupported_magic : Bytes → Incompatible

pub data Outcome : Type 0 where
  ok : Bytes → Outcome
  err : Incompatible → Outcome

abbrev pub gvas : Bytes
gvas = codes "GVAS"

abbrev pub plz : Bytes
plz = codes "PlZ"

abbrev pub plm : Bytes
plm = codes "PlM"

abbrev pub cnk : Bytes
cnk = codes "CNK"

-- `data[from:to]` with the length of the slice.
abbrev pub slice : ℕ → ℕ → Bytes → Bytes
slice from n bytes = take n (drop from bytes)

-- `bytes.Index`, from position `at`.
unfoldable pub index_from : ℕ → Bytes → Bytes → Option ℕ
index_from at [] sep = if has_prefix [] sep then some at else none
index_from at (b ∷ bs) sep =
    let later = index_from (suc at) bs sep in if has_prefix (b ∷ bs) sep then some at else later

unfoldable pub index : Bytes → Bytes → Option ℕ
index = index_from 0

abbrev pub empty_info : Info
empty_info = record {
  uncompressed_len = 0;
  compressed_len = 0;
  magic = [];
  save_type = 0;
  data_offset = 0;
  gvas_offset = 0;
}

-- The twelve bytes of a header that begins at `from`.
unfoldable pub header_at : ℕ → Bytes → Info
header_at from bytes = record {
  uncompressed_len = le_value (slice from 4 bytes);
  compressed_len = le_value (slice (from + 4) 4 bytes);
  magic = slice (from + 8) 3 bytes;
  save_type = first_byte (slice (from + 11) 1 bytes);
  data_offset = from + 12;
  gvas_offset = 0;
}

-- The checks of a PlZ header, and the payload behind the header.
unfoldable pub checked_payload : Info → Bytes → Info × Outcome
checked_payload info bytes =
    let actual = length bytes - info.data_offset in
    if bytes_eq info.magic plz && (not (info.save_type == b'1') && not (info.save_type == b'2'))
    then (info, err (bad_plz_type info.save_type))
    else if bytes_eq info.magic plz
        && (info.save_type == b'1' && not (info.compressed_len == actual))
    then (info, err (bad_compressed_len info.compressed_len actual))
    else (info, ok (drop info.data_offset bytes))

-- `parseHeader`: the information that was read stands beside an error too.
unfoldable pub parse_header : Bytes → Info × Outcome
parse_header bytes =
    let outer = header_at 0 bytes in
    if ltb (length bytes) 12
    then (empty_info, err too_small)
    else if bytes_eq outer.magic cnk
    then (if ltb (length bytes) 24
        then (outer, err cnk_too_small)
        else checked_payload (header_at 12 bytes) bytes)
    else checked_payload outer bytes

unfoldable pub with_offset : Info → Option ℕ → Info
with_offset info none = info
with_offset info (some i) = record info { gvas_offset = i }

unfoldable pub inspected : Info × Outcome → Info × Option Incompatible
inspected (info, err e) = (info, some e)
inspected (info, ok payload) =
    if not (bytes_eq info.magic plz) && not (bytes_eq info.magic plm)
    then (info, some unsupported_header)
    else (info, none)

-- `Inspect`.
unfoldable pub inspect : Bytes → Info × Option Incompatible
inspect bytes =
    let (info, outcome) = parse_header bytes in
    inspected (with_offset info (index bytes gvas), outcome)

-- The decompressors: `none` for an error. `oodle payload n` fills a buffer of `n` bytes.
pub record Codecs : Type 0 where
  pub inflate : Bytes → Option Bytes
  pub oodle : Bytes → ℕ → Option Bytes

-- The checks after the last inflation.
unfoldable pub finish_plz : Info → Bytes → Info × Outcome
finish_plz info out =
    if not (info.uncompressed_len == length out)
    then (info, err (bad_uncompressed_len info.uncompressed_len (length out)))
    else if not (has_prefix out gvas)
    then (info, err not_gvas)
    else (info, ok out)

-- `none` is a failed decompression, here and in the two functions like it.
unfoldable pub second_inflated : Info → Option Bytes → Info × Outcome
second_inflated info none = (info, err double_zlib_failed)
second_inflated info (some out) = finish_plz info out

-- A failure that reports where the marker was seen.
unfoldable pub marked : Info → Option ℕ → (ℕ → Incompatible) → Incompatible → Info × Outcome
marked info none at otherwise = (info, err otherwise)
marked info (some i) at otherwise = (record info { gvas_offset = i }, err (at i))

unfoldable pub oodled : Info → Bytes → Option Bytes → Info × Outcome
oodled info bytes none = marked info (index bytes gvas) oodle_failed_with_marker oodle_failed
oodled info bytes (some out) =
    if has_prefix out gvas
    then (info, ok out)
    else marked info (index out gvas) marker_not_at_start plm_not_gvas

module _ (codecs : Codecs) where
  unfoldable pub inflate_twice : Info → Bytes → Info × Outcome
  inflate_twice info inner =
      if not (info.compressed_len == length inner)
      then (info, err (bad_inner_len info.compressed_len (length inner)))
      else second_inflated info (codecs.inflate inner)

  unfoldable pub first_inflated : Info → Option Bytes → Info × Outcome
  first_inflated info none = (info, err zlib_failed)
  first_inflated info (some out) =
      if info.save_type == b'2' then inflate_twice info out else finish_plz info out

  unfoldable pub decode_plz : Info → Bytes → Info × Outcome
  decode_plz info payload = first_inflated info (codecs.inflate payload)

  unfoldable pub decode_plm : Info → Bytes → Bytes → Info × Outcome
  decode_plm info payload bytes =
      if not (info.save_type == b'1')
      then (info, err (bad_plm_type info.save_type))
      else if not (info.compressed_len == length payload)
      then (info, err (bad_plm_len info.compressed_len (length payload)))
      else oodled info bytes (codecs.oodle payload info.uncompressed_len)

  unfoldable pub decode_payload : Info → Outcome → Bytes → Info × Outcome
  decode_payload info (err e) bytes = (info, err e)
  decode_payload info (ok payload) bytes =
      if bytes_eq info.magic plz
      then decode_plz info payload
      else if bytes_eq info.magic plm
      then decode_plm info payload bytes
      else (info, err (unsupported_magic info.magic))

  -- `DecodeToGVAS`.
  unfoldable pub decode_to_gvas : Bytes → Info × Outcome
  decode_to_gvas bytes =
      let (info, outcome) = parse_header bytes in decode_payload info outcome bytes
