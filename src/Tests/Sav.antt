-- ===== src/Tests/Sav.antt =====
-- The container theorems on small saves, with simple codecs.
use pal_panel_host_wine.Prelude.{
  ◌≡◌, refl, true, none, some, [], ◌∷◌, ◌++◌, Bytes, codes, has_prefix, bytes_eq, length, ◌==◌,
  if◌then◌else◌, drop, arith,
}
use pal_panel_host_wine.Gvas.Reader.{first_byte}
use pal_panel_host_wine.Sav.{
  inspect, ok, gvas, header_at, checked_payload, parse_header, Codecs, decode_payload, decode_plm,
  oodled, decode_to_gvas,
}
use pal_panel_host_wine.Sav.Inspect.{decode_to_gvas-inspect}
use pal_panel_host_wine.Sav.Decode.{FillsBuffer, decode_to_gvas_sound}
use pal_panel_host_wine.Sav.Encode.{
  encode_plm, decode-encode_plm, encode_plz1, encode_plz2, decode-encode_plz1, decode-encode_plz2,
}

-- One byte in front stands for the compression.
abbrev deflate : Bytes → Bytes
deflate bytes = 120 ∷ bytes

abbrev plain_codecs : Codecs
plain_codecs = record {
  inflate = λ bytes. some (drop 1 bytes);
  oodle = λ payload n. some (drop 1 payload);
}

abbrev codecs : Codecs
codecs = record {
  inflate = λ bytes. some (drop 1 bytes);
  oodle = λ payload n. if length payload == n then some payload else none;
}

codecs-FillsBuffer : FillsBuffer codecs
codecs-FillsBuffer payload n out h = ground arith

abbrev plm_save : Bytes
plm_save = 5 ∷ 0 ∷ 0 ∷ 0 ∷ 5 ∷ 0 ∷ 0 ∷ 0 ∷ codes "PlM1GVAS" ++ 7 ∷ []

abbrev stream : Bytes
stream = codes "GVAS" ++ 7 ∷ []

plm_save_decoded : (decode_to_gvas codecs plm_save).1 ≡ ok stream
unfolding decode_to_gvas parse_header header_at first_byte bytes_eq checked_payload decode_payload
    decode_plm oodled has_prefix
plm_save_decoded = refl

decode_to_gvas_sound_example :
    (has_prefix stream gvas ≡ true)
    × (length stream ≡ (decode_to_gvas codecs plm_save).0.uncompressed_len)
decode_to_gvas_sound_example =
    decode_to_gvas_sound codecs codecs-FillsBuffer plm_save stream plm_save_decoded

stream_marked : has_prefix stream gvas ≡ true
unfolding has_prefix
stream_marked = refl

decode-encode_plz1_example : (decode_to_gvas codecs (encode_plz1 deflate stream)).1 ≡ ok stream
decode-encode_plz1_example =
    decode-encode_plz1 codecs deflate stream refl stream_marked (omega arith) (omega arith)

decode-encode_plz2_example : (decode_to_gvas codecs (encode_plz2 deflate stream)).1 ≡ ok stream
decode-encode_plz2_example =
    decode-encode_plz2 codecs deflate stream refl refl stream_marked (omega arith) (omega arith)

decode-encode_plm_example : (decode_to_gvas plain_codecs (encode_plm deflate stream)).1 ≡ ok stream
decode-encode_plm_example =
    decode-encode_plm plain_codecs deflate stream refl stream_marked (omega arith) (omega arith)

decode_to_gvas-inspect_example : (inspect plm_save).1 ≡ none
decode_to_gvas-inspect_example = decode_to_gvas-inspect codecs plm_save stream plm_save_decoded
