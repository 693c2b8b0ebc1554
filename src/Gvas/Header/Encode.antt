-- ===== src/Gvas/Header/Encode.antt =====
-- A writer of the GVAS header, and what the reader makes of its output.
use pal_panel_host_wine.Prelude.{
  ℕ, ◌^◌, ◌≤◌, ◌<◌, ◌≡◌, List, [], ◌∷◌, ◌++◌, map, Bytes, length, All, codes, has_prefix, true,
  refl, ltb-false, arith,
}
use pal_panel_host_wine.Prelude.Int.{ℤ, pos}
use pal_panel_host_wine.Gvas.Reader.{format_guid, repeat}
use pal_panel_host_wine.Gvas.Reader.Encode.{
  Decodes, Decodes-pure, Decodes-bind, Decodes-last, concat, encode_le, encode_i32, encode_fstring,
  IsI32, FitsFstring, i32-Decodes, u16-Decodes, u32-Decodes, fstring-Decodes, guid-Decodes,
}
use pal_panel_host_wine.Gvas.Header.{
  Version, Header, gvas_magic, read_version, read_header_rest, read_header,
}

-- What a header holds behind its constants; a version's GUID is its 16 bytes.
pub record Source : Type 0 where
  pub ue4 : ℤ
  pub ue5 : ℤ
  pub major : ℕ
  pub minor : ℕ
  pub patch : ℕ
  pub change : ℕ
  pub branch : Bytes
  pub versions : List (Bytes × ℤ)
  pub class_name : Bytes

abbrev pub version_of : Bytes × ℤ → Version
version_of (g, v) = record { guid = format_guid g; version = v }

pub header_of : Source → Header
header_of s = record {
  magic = pos gvas_magic;
  save_game_version = pos 3;
  package_file_version_ue4 = s.ue4;
  package_file_version_ue5 = s.ue5;
  engine_version_major = s.major;
  engine_version_minor = s.minor;
  engine_version_patch = s.patch;
  engine_version_change = s.change;
  engine_version_branch = s.branch;
  custom_version_format = pos 3;
  custom_versions = map version_of s.versions;
  save_game_class_name = s.class_name;
}

abbrev pub encode_version : Bytes × ℤ → Bytes
encode_version (g, v) = g ++ encode_i32 v

unfoldable pub encode_header : Source → Bytes
encode_header s =
    encode_i32 (pos gvas_magic)
    ++ (encode_i32 (pos 3)
        ++ (encode_i32 s.ue4
            ++ (encode_i32 s.ue5
                ++ (encode_le 2 s.major
                    ++ (encode_le 2 s.minor
                        ++ (encode_le 2 s.patch
                            ++ (encode_le 4 s.change
                                ++ (encode_fstring s.branch
                                    ++ (encode_i32 (pos 3)
                                        ++ (encode_le 4 (length s.versions)
                                            ++ (concat (map encode_version s.versions)
                                                ++ encode_fstring s.class_name)))))))))))

-- The fields are in the ranges that the format gives them.
pub record IsValid (s : Source) : Type 0 where
  pub ue4 : IsI32 s.ue4
  pub ue5 : IsI32 s.ue5
  pub major : s.major < 2 ^ 16
  pub minor : s.minor < 2 ^ 16
  pub patch : s.patch < 2 ^ 16
  pub change : s.change < 2 ^ 32
  pub branch : FitsFstring s.branch
  pub count : length s.versions ≤ 100000
  pub versions : All (λ e. (length e.0 ≡ 16) × IsI32 e.1) s.versions
  pub class_name : FitsFstring s.class_name

read_version-Decodes :
    (g : Bytes) (v : ℤ)
    → length g ≡ 16
    → IsI32 v
    → Decodes read_version (g ++ encode_i32 v) (version_of (g, v))
unfolding read_version
read_version-Decodes g v hg hv =
    Decodes-bind _ (guid-Decodes g hg)
      (Decodes-last (λ z. record { guid = format_guid g; version = z }) (i32-Decodes v hv))

versions-Decode :
    (l : List (Bytes × ℤ))
    → All (λ e. (length e.0 ≡ 16) × IsI32 e.1) l
    → Decodes (repeat (length l) read_version) (concat (map encode_version l)) (map version_of l)
unfolding repeat concat
versions-Decode [] h = Decodes-pure []
versions-Decode ((g, v) ∷ l) h =
    Decodes-bind _ (read_version-Decodes g v h.0.0 h.0.1)
      (Decodes-last (λ vs. version_of (g, v) ∷ vs) (versions-Decode l h.1))

-- `readHeader` undoes the writer: if the fields of a header are in the ranges of the format, then
-- wherever its encoding stands in the data the reader reads exactly the encoding and returns the
-- header.
pub read_header-Decodes :
    (s : Source) → IsValid s → Decodes read_header (encode_header s) (header_of s)
unfolding read_header read_header_rest encode_header header_of
read_header-Decodes s h = Decodes-bind _ (i32-Decodes (pos gvas_magic) (omega arith)) (
    Decodes-bind _ (i32-Decodes (pos 3) (omega arith)) (
      Decodes-bind _ (i32-Decodes s.ue4 h.ue4) (
        Decodes-bind _ (i32-Decodes s.ue5 h.ue5) (
          Decodes-bind _ (u16-Decodes s.major h.major) (
            Decodes-bind _ (u16-Decodes s.minor h.minor) (
              Decodes-bind _ (u16-Decodes s.patch h.patch) (
                Decodes-bind _ (u32-Decodes s.change h.change) (
                  Decodes-bind _ (fstring-Decodes s.branch h.branch) (
                    Decodes-bind _ (i32-Decodes (pos 3) (omega arith)) (
                      Decodes-bind _ (u32-Decodes (length s.versions) (omega (arith, h.count))) (
                        rw (ltb-false 100000 (length s.versions) h.count) (
                          Decodes-bind _ (versions-Decode s.versions h.versions)
                            (Decodes-last _ (fstring-Decodes s.class_name h.class_name))))))))))))))

-- A header begins with the marker that a container's stream must have.
pub has_prefix-encode_header :
    (s : Source) (rest : Bytes) → has_prefix (encode_header s ++ rest) (codes "GVAS") ≡ true
unfolding encode_header encode_i32 encode_le has_prefix
has_prefix-encode_header s rest = refl
