-- ===== src/Gvas/Decode/RoundTrip.antt =====
-- Saves that are written are read back: the round trip of property trees and of files.
use mathlib.Core.List.{append-nil}
use mathlib.Core.Path.{subst}
use pal_panel_host_wine.Prelude.{
  ℕ, zero, suc, ◌^◌, ◌≤◌, ◌<◌, ◌≡◌, ap, [], ◌++◌, Bytes, String, codes, bytes_eq, length,
  length-append, arith,
}
use pal_panel_host_wine.Gvas.Value.{Value, Fields, end, put, unexpected_eof}
use pal_panel_host_wine.Gvas.Reader.{
  ok, M, pure, fail, continue, ◌>>=◌, remaining, get_remaining, new_reader, result, run,
}
use pal_panel_host_wine.Gvas.Reader.Encode.{
  between, Decodes, Decodes-pure, Decodes-bind, encode_le, encode_fstring, FitsFstring, u64-Decodes,
  fstring-Decodes,
}
use pal_panel_host_wine.Gvas.Properties.{plain_property}
use pal_panel_host_wine.Gvas.Decode.{Host, property, properties_from, properties_until_end}
use pal_panel_host_wine.Gvas.Header.Encode.{
  Source, IsValid, header_of, encode_header, read_header-Decodes,
}
use pal_panel_host_wine.Gvas.Decode.{file, read_file}
use pal_panel_host_wine.Gvas.Decode.Encode.{
  Tree, none_left, int_prop, str_prop, bool_prop, bytes_prop, struct_prop, encode_property, encode,
  value_of, IsPlain, path_of, IsName, IsTree, weight,
}
use pal_panel_host_wine.Gvas.Decode.Bodies.{
  not_at_end, annotate-Decodes, length-encode_fstring, weight-length, int_prop-Decodes,
  str_prop-Decodes, bool_prop-Decodes, bytes_prop-Decodes, struct_prop-Decodes,
}

module _ (host : Host) where
  property-Decodes :
      (properties : Bytes → M Fields) (tag : Bytes) (size : ℕ) (path : Bytes) {x : Bytes}
      {v : Fields}
      → IsPlain path
      → Decodes (plain_property properties tag size path) x v
      → Decodes (property host properties tag size path) x v
  unfolding property
  property-Decodes properties tag size path h d = rw h.0 (rw h.1 (rw h.2 d))

  -- One round of the loop.
  round-Decodes :
      (fuel : ℕ) (path : Bytes) (props : Fields) (n : Bytes) (tag : String) (size : ℕ)
      (body rest : Bytes) (v out : Fields)
      → IsName path n
      → FitsFstring (codes tag)
      → size < 2 ^ 64
      → Decodes
          (plain_property (λ p. properties_from host fuel p end) (codes tag) size (path_of path n))
          body
          v
      → Decodes (properties_from host fuel path (put n (Value.obj v) props)) rest out
      → Decodes
          (properties_from host (suc fuel) path props)
          (encode_property n tag size body rest)
          out
  unfolding properties_from
  round-Decodes fuel path props n tag size body rest v out name t s d r =
      not_at_end (fail (unexpected_eof path)) some (
        Decodes-bind _ (fstring-Decodes n name.0) (
          rw name.1 (
            Decodes-bind _ (fstring-Decodes (codes tag) t) (
              Decodes-bind _ (u64-Decodes size s) (
                Decodes-bind _
                  (annotate-Decodes (path_of path n) (codes tag) (
                    property-Decodes (λ p. properties_from host fuel p end) (codes tag) size
                      (path_of path n) name.2 d))
                  r)))))
    where
      some : 0 < length (encode_property n tag size body rest)
      some = omega (
        arith,
        length-encode_fstring n,
        length-append (encode_fstring n)
            (encode_fstring (codes tag) ++ (encode_le 8 size ++ (body ++ rest))),
      )

  last-Decodes :
      (fuel : ℕ) (path : Bytes) (props : Fields)
      → Decodes (properties_from host (suc fuel) path props) (encode_fstring (codes "None")) props
  unfolding properties_from bytes_eq
  last-Decodes fuel path props =
      subst (λ x. Decodes (properties_from host (suc fuel) path props) x props)
        (append-nil (encode_fstring (codes "None")))
        (not_at_end (fail (unexpected_eof path))
          (omega (
            arith,
            length-encode_fstring (codes "None"),
            length-append (encode_fstring (codes "None")) [],
          ))
          (Decodes-bind _ (fstring-Decodes (codes "None") (omega arith)) (Decodes-pure props)))

  properties_from-Decodes :
      (fuel : ℕ) (t : Tree) (path : Bytes) (props : Fields)
      → IsTree path t
      → weight t ≤ fuel
      → Decodes (properties_from host fuel path props) (encode t) (value_of t props)
  unfolding encode value_of IsTree weight
  properties_from-Decodes zero none_left path props h w = absurd (omega arith)
  properties_from-Decodes zero (int_prop n z r) path props h w = absurd (omega arith)
  properties_from-Decodes zero (str_prop n s r) path props h w = absurd (omega arith)
  properties_from-Decodes zero (bool_prop n b r) path props h w = absurd (omega arith)
  properties_from-Decodes zero (bytes_prop n b r) path props h w = absurd (omega arith)
  properties_from-Decodes zero (struct_prop n g t r) path props h w = absurd (omega arith)
  properties_from-Decodes (suc fuel) none_left path props h w = last-Decodes fuel path props
  properties_from-Decodes (suc fuel) (int_prop n z r) path props h w =
      round-Decodes fuel path props n "IntProperty" _ _ _ _ _ h.0 (omega arith) (omega arith)
        (int_prop-Decodes _ _ z h.1) (properties_from-Decodes fuel r path _ h.2 (omega arith))
  properties_from-Decodes (suc fuel) (str_prop n s r) path props h w =
      round-Decodes fuel path props n "StrProperty" _ _ _ _ _ h.0 (omega arith) h.2
        (str_prop-Decodes _ _ s h.1) (properties_from-Decodes fuel r path _ h.3 (omega arith))
  properties_from-Decodes (suc fuel) (bool_prop n b r) path props h w =
      round-Decodes fuel path props n "BoolProperty" _ _ _ _ _ h.0 (omega arith) (omega arith)
        (bool_prop-Decodes _ _ b) (properties_from-Decodes fuel r path _ h.1 (omega arith))
  properties_from-Decodes (suc fuel) (bytes_prop n b r) path props h w =
      round-Decodes fuel path props n "ArrayProperty" _ _ _ _ _ h.0 (omega arith)
        (omega (arith, h.1)) (bytes_prop-Decodes _ _ b h.1 h.2)
        (properties_from-Decodes fuel r path _ h.3 (omega arith))
  properties_from-Decodes (suc fuel) (struct_prop n g t r) path props h w =
      round-Decodes fuel path props n "StructProperty" _ _ _ _ _ h.0 (omega arith) h.2
        (struct_prop-Decodes _ _ g (encode t) _ (value_of t end) h.1
          (properties_from-Decodes fuel t (path_of path n) end h.3 (omega arith)))
        (properties_from-Decodes fuel r path _ h.4 (omega arith))

  -- `Read` undoes the writer of files: if a header is valid, and a tree of int, string, bool,
  -- byte-array and struct properties is valid (names, numbers and lengths in the ranges of the
  -- format, no path with a decoder of its own), then the file of both with any bytes behind is
  -- read as that header, the map of that tree and the number of the bytes behind.
  pub read_file-encode :
      (s : Source) (t : Tree) (trailer : Bytes)
      → IsValid s
      → IsTree [] t
      → read_file host (encode_header s ++ (encode t ++ trailer))
        ≡ ok (record {
          header = header_of s;
          properties = value_of t end;
          trailer_len = length trailer;
        })
  unfolding read_file run result new_reader file ◌>>=◌ continue properties_until_end get_remaining
      remaining pure
  read_file-encode s t trailer v h = rw ((read_header-Decodes s v).at [] (encode t ++ trailer)) (
      rw ((properties_from-Decodes (suc left) t [] end h enough).at (encode_header s) trailer) (
        ap (λ n. ok (record { header = header_of s; properties = value_of t end; trailer_len = n }))
          rest))
    where
      left : ℕ
      left = length (encode_header s ++ (encode t ++ trailer))

      enough : weight t ≤ suc left
      enough = omega (
        arith,
        weight-length t,
        length-append (encode_header s) (encode t ++ trailer),
        length-append (encode t) trailer,
      )

      rest : remaining (between (encode_header s ++ encode t) trailer) ≡ length trailer
      rest = ground (arith, length-append (encode_header s ++ encode t) trailer)
