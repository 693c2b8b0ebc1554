-- ===== src/Sav/Open.antt =====
-- A save from its container to its properties.
use pal_panel_host_wine.Prelude.{◌^◌, ◌<◌, ◌≡◌, refl, Option, some, [], ◌++◌, Bytes, length}
use pal_panel_host_wine.Gvas.Value.{end}
use pal_panel_host_wine.Gvas.Reader.{Result}
use pal_panel_host_wine.Gvas.Header.Encode.{
  Source, IsValid, header_of, encode_header, has_prefix-encode_header,
}
use pal_panel_host_wine.Gvas.Decode.{Host, File, read_file}
use pal_panel_host_wine.Gvas.Decode.Encode.{Tree, encode, value_of, IsTree}
use pal_panel_host_wine.Gvas.Decode.RoundTrip.{read_file-encode}
use pal_panel_host_wine.Sav.{Outcome, Codecs, decode_to_gvas}
use pal_panel_host_wine.Sav.Encode.{encode_plz2, decode-encode_plz2}

abbrev pub file_of : Source → Tree → Bytes → Bytes
file_of s t trailer = encode_header s ++ (encode t ++ trailer)

-- What a decoded container is read as.
abbrev pub opened : Host → Outcome → Option (Result File)
opened host (Outcome.ok bytes) = some (read_file host bytes)
opened host (Outcome.err e) = Option.none

-- A save is opened from its container to its properties: if a valid header and a valid tree, with
-- any bytes behind, are written and deflated twice, inflating undoes deflating on both layers, and
-- both lengths fit 32 bits, then the decoded container is read as that header, the map of that
-- tree and the number of the bytes behind.
pub decode-read_file :
    (host : Host) (codecs : Codecs) (deflate : Bytes → Bytes) (s : Source) (t : Tree)
    (trailer : Bytes)
    → codecs.inflate (deflate (file_of s t trailer)) ≡ some (file_of s t trailer)
    → codecs.inflate (deflate (deflate (file_of s t trailer)))
      ≡ some (deflate (file_of s t trailer))
    → length (file_of s t trailer) < 2 ^ 32
    → length (deflate (file_of s t trailer)) < 2 ^ 32
    → IsValid s
    → IsTree [] t
    → opened host (decode_to_gvas codecs (encode_plz2 deflate (file_of s t trailer))).1
      ≡ some (
          Result.ok (record {
            header = header_of s;
            properties = value_of t end;
            trailer_len = length trailer;
          }))
decode-read_file host codecs deflate s t trailer once twice n c v h =
    rw
      (decode-encode_plz2 codecs deflate (file_of s t trailer) once twice
        (has_prefix-encode_header s (encode t ++ trailer)) n c)
      (rw (read_file-encode host s t trailer v h) refl)
