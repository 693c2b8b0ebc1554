-- ===== src/Gvas/Header.antt =====
-- sav-cli/internal/gvas/gvas.go: the header of a GVAS file.
pub mod Good
pub mod Encode
use pal_panel_host_wine.Prelude.{ℕ, Bool, true, false, List, Bytes, ltb, ◌==◌, not, if◌then◌else◌}
use pal_panel_host_wine.Prelude.Int.{ℤ, pos, negsuc}
use pal_panel_host_wine.Gvas.Value.{
  bad_magic, bad_save_version, bad_version_format, too_many_versions,
}
use pal_panel_host_wine.Gvas.Reader.{
  M, pure, fail, ◌>>=◌, ◌>>◌, i32, u16, u32, fstring, guid, repeat,
}

pub record Version : Type 0 where
  pub guid : Bytes
  pub version : ℤ

pub record Header : Type 0 where
  pub magic : ℤ
  pub save_game_version : ℤ
  pub package_file_version_ue4 : ℤ
  pub package_file_version_ue5 : ℤ
  pub engine_version_major : ℕ
  pub engine_version_minor : ℕ
  pub engine_version_patch : ℕ
  pub engine_version_change : ℕ
  pub engine_version_branch : Bytes
  pub custom_version_format : ℤ
  pub custom_versions : List Version
  pub save_game_class_name : Bytes

-- "GVAS" as a little-endian number.
abbrev pub gvas_magic : ℕ
gvas_magic = 0x53415647

-- `z == n` for a constant `n`.
abbrev pub is_number : ℤ → ℕ → Bool
is_number (pos m) n = m == n
is_number (negsuc _) _ = false

unfoldable pub read_version : M Version
read_version = do g ← guid; v ← i32; pure (record { guid = g; version = v })

-- The fields behind the checks of the magic and the save version.
unfoldable pub read_header_rest : ℤ → ℤ → M Header
read_header_rest magic version = do
  ue4 ← i32
  ue5 ← i32
  major ← u16
  minor ← u16
  patch ← u16
  change ← u32
  branch ← fstring
  format ← i32
  if not (is_number format 3) then fail (bad_version_format format) else do
    count ← u32
    if ltb 100000 count then fail (too_many_versions count) else do
      versions ← repeat count read_version
      class_name ← fstring
      pure (record {
        magic = magic;
        save_game_version = version;
        package_file_version_ue4 = ue4;
        package_file_version_ue5 = ue5;
        engine_version_major = major;
        engine_version_minor = minor;
        engine_version_patch = patch;
        engine_version_change = change;
        engine_version_branch = branch;
        custom_version_format = format;
        custom_versions = versions;
        save_game_class_name = class_name;
      })

unfoldable pub read_header : M Header
read_header = do
  magic ← i32
  if not (is_number magic gvas_magic) then fail (bad_magic magic) else do
    version ← i32
    if not (is_number version 3)
        then fail (bad_save_version version)
        else read_header_rest magic version
