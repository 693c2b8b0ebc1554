-- ===== src/Gvas/Decode/Blob.antt =====
-- The blobs inside byte-array properties: which bytes their decoders get, and what becomes of a
-- blob that cannot be decoded.
use mathlib.Core.List.{append-nil}
use mathlib.Core.Path.{subst}
use pal_panel_host_wine.Prelude.{
  ◌+◌, ◌%◌, ◌≤◌, ◌<◌, ◌≡◌, refl, Bool, false, [], ◌∷◌, map, Bytes, codes, bytes_eq, length, All,
  arith,
}
use pal_panel_host_wine.Gvas.Value.{Value, Fields, fields, items, get, put, put_all}
use pal_panel_host_wine.Gvas.Reader.{Result, ok, err, M}
use pal_panel_host_wine.Gvas.Reader.Encode.{Decodes, Decodes-pure, Decodes-bind}
use pal_panel_host_wine.Gvas.Parts.{byte_int}
use pal_panel_host_wine.Gvas.Decode.{
  Host, byte_of_int, item_bytes, list_bytes, raw_or, get_nested, bytes_from_property, exhausted,
  decode_failure, attach, byte_array_raw_data,
}
use pal_panel_host_wine.Gvas.Decode.Encode.{encode_bytes, bytes_value}
use pal_panel_host_wine.Gvas.Decode.Bodies.{bytes_prop-Decodes}

-- The model's own error is not a broken blob.
abbrev pub out_of_rounds : Result Value → Bool
out_of_rounds (ok v) = false
out_of_rounds (err e) = exhausted e

module _ (host : Host) where
  items_back : (b : Bytes) → All (λ x. x < 256) b → item_bytes host (items (map byte_int b)) ≡ b
  unfolding item_bytes byte_of_int
  items_back [] h = refl
  items_back (x ∷ b) h =
      let e : x % 256 ≡ x = omega (arith, h.0) in rw e (rw (items_back b h.1) refl)

  bytes_back :
      (b : Bytes) → All (λ x. x < 256) b → bytes_from_property host (Value.obj (bytes_value b)) ≡ b
  unfolding bytes_from_property list_bytes raw_or get_nested get bytes_eq
  bytes_back b h = items_back b h

  abbrev pub decoded_or : Bytes → Result Value → Value
  decoded_or b (ok v) = v
  decoded_or b (err e) = decode_failure host e b

  -- The map of the property, with the decoded blob, or with the error and the bytes.
  abbrev pub raw_value : Bytes → Bytes → Result Value → Fields
  raw_value path b x = fields (
      ("array_type", Value.str (codes "ByteProperty"))
      ∷ ("id", Value.nil)
      ∷ ("value", decoded_or b x)
      ∷ ("type", Value.str (codes "ArrayProperty"))
      ∷ ("custom_type", Value.str path)
      ∷ [])

  attach-Decodes :
      (path b : Bytes) (x : Result Value)
      → out_of_rounds x ≡ false
      → Decodes (attach host path b (bytes_value b) x) [] (raw_value path b x)
  unfolding attach put_all put bytes_eq
  attach-Decodes path b (ok v) h = Decodes-pure _
  attach-Decodes path b (err e) h = rw h (Decodes-pure _)

  -- If a property is a written byte array of at most 10000000 bytes, the blob decoder, whichever
  -- it is, gets exactly the array's bytes, and the property is read whole: with the decoded blob
  -- as its value, or, where the decoder fails otherwise than for want of fuel, with the error and
  -- the bytes; a broken blob does not fail the save.
  pub byte_array_raw_data-Decodes :
      (properties : Bytes → M Fields) (path b : Bytes) (decoder : Bytes → Result Value)
      → length b ≤ 10000000
      → All (λ x. x < 256) b
      → out_of_rounds (decoder b) ≡ false
      → Decodes
          (byte_array_raw_data host properties (codes "ArrayProperty") (length b + 4) path decoder)
          (encode_bytes b)
          (raw_value path b (decoder b))
  unfolding byte_array_raw_data
  byte_array_raw_data-Decodes properties path b decoder n h t =
      subst
        (λ x.
          Decodes
            (byte_array_raw_data host properties (codes "ArrayProperty") (length b + 4) path
              decoder)
            x (raw_value path b (decoder b)))
        (append-nil (encode_bytes b))
        (Decodes-bind _ (bytes_prop-Decodes properties path b n h)
          (rw (bytes_back b h) (attach-Decodes path b (decoder b) t)))
