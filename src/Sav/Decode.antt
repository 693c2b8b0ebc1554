-- ===== src/Sav/Decode.antt =====
-- What `DecodeToGVAS` promises of its output, and the saves that it opens.
use pal_panel_host_wine.Prelude.{
  ℕ, ◌≡◌, refl, Bool, true, false, Option, none, some, Bytes, has_prefix, length, if◌then◌else◌,
  arith,
}
use pal_panel_host_wine.Sav.{
  Info, Outcome, ok, err, Incompatible, gvas, parse_header, Codecs, finish_plz, second_inflated,
  first_inflated, oodled, inflate_twice, decode_plz, marked, decode_plm, decode_payload,
  decode_to_gvas,
}

-- A success holds a GVAS stream of the length that the header gives.
record IsGvas (p : Info × Outcome) : Type 0 where
  at :
      (out : Bytes)
      → p.1 ≡ ok out
      → (has_prefix out gvas ≡ true) × (length out ≡ p.0.uncompressed_len)

IsGvas-err : (info : Info) (e : Incompatible) → IsGvas (info, err e)
IsGvas-err info e = record { at = λ out h. cc }

IsGvas-ok :
    (info : Info) (out : Bytes)
    → has_prefix out gvas ≡ true
    → length out ≡ info.uncompressed_len
    → IsGvas (info, ok out)
IsGvas-ok info out p q = record { at = λ o h. ground arith }

IsGvas-if :
    (t : Bool) {x y : Info × Outcome}
    → (t ≡ true → IsGvas x)
    → (t ≡ false → IsGvas y)
    → IsGvas (if t then x else y)
IsGvas-if true f g = f refl
IsGvas-if false f g = g refl

finish_plz-IsGvas : (info : Info) (out : Bytes) → IsGvas (finish_plz info out)
unfolding finish_plz
finish_plz-IsGvas info out = record { at = λ o h. ground arith }

second_inflated-IsGvas : (info : Info) (o : Option Bytes) → IsGvas (second_inflated info o)
unfolding second_inflated
second_inflated-IsGvas info none = IsGvas-err info _
second_inflated-IsGvas info (some out) = finish_plz-IsGvas info out

marked-IsGvas :
    (info : Info) (o : Option ℕ) (at : ℕ → Incompatible) (e : Incompatible)
    → IsGvas (marked info o at e)
unfolding marked
marked-IsGvas info none at e = IsGvas-err info e
marked-IsGvas info (some i) at e = IsGvas-err _ _

oodled-IsGvas :
    (info : Info) (bytes : Bytes) (o : Option Bytes)
    → ((out : Bytes) → o ≡ some out → length out ≡ info.uncompressed_len)
    → IsGvas (oodled info bytes o)
unfolding oodled
oodled-IsGvas info bytes none h = marked-IsGvas info _ _ _
oodled-IsGvas info bytes (some out) h =
    IsGvas-if _ (λ e. IsGvas-ok info out e (h out refl)) (λ e. marked-IsGvas info _ _ _)

-- An Oodle decoder that succeeds has filled its buffer.
abbrev pub FillsBuffer : Codecs → Type 0
FillsBuffer codecs =
    (payload : Bytes) (n : ℕ) (out : Bytes) → codecs.oodle payload n ≡ some out → length out ≡ n

module _ (codecs : Codecs) where
  inflate_twice-IsGvas : (info : Info) (inner : Bytes) → IsGvas (inflate_twice codecs info inner)
  unfolding inflate_twice
  inflate_twice-IsGvas info inner = search (IsGvas-if, IsGvas-err, second_inflated-IsGvas)

  first_inflated-IsGvas : (info : Info) (o : Option Bytes) → IsGvas (first_inflated codecs info o)
  unfolding first_inflated
  first_inflated-IsGvas info none = IsGvas-err info _
  first_inflated-IsGvas info (some out) =
      search (IsGvas-if, inflate_twice-IsGvas, finish_plz-IsGvas)

  decode_payload-IsGvas :
      FillsBuffer codecs
      → (info : Info) (o : Outcome) (bytes : Bytes) → IsGvas (decode_payload codecs info o bytes)
  unfolding decode_payload decode_plz decode_plm
  decode_payload-IsGvas fills info (err e) bytes = IsGvas-err info e
  decode_payload-IsGvas fills info (ok payload) bytes = search (
    IsGvas-if,
    IsGvas-err,
    first_inflated-IsGvas,
    oodled-IsGvas info bytes (codecs.oodle payload info.uncompressed_len)
        (fills payload info.uncompressed_len),
  )

  decode_to_gvas-IsGvas :
      FillsBuffer codecs → (bytes : Bytes) → IsGvas (decode_to_gvas codecs bytes)
  unfolding decode_to_gvas
  decode_to_gvas-IsGvas fills bytes =
      decode_payload-IsGvas fills (parse_header bytes).0 (parse_header bytes).1 bytes

  -- Whatever the file, a save that is decoded begins with the GVAS marker and has exactly the
  -- length that the reported header information gives, if the Oodle decoder fills its buffer.
  pub decode_to_gvas_sound :
      FillsBuffer codecs
      → (bytes out : Bytes) → (decode_to_gvas codecs bytes).1 ≡ ok out
      → (has_prefix out gvas ≡ true)
        × (length out ≡ (decode_to_gvas codecs bytes).0.uncompressed_len)
  decode_to_gvas_sound fills bytes out h = (decode_to_gvas-IsGvas fills bytes).at out h
