-- ===== src/Sav/Encode.antt =====
-- A writer of the three zlib containers, and that the decoder opens them.
use pal_panel_host_wine.Prelude.{
  ℕ, ◌+◌, ◌-◌, ◌^◌, ◌<◌, ◌≡◌, refl, true, some, ◌∷◌, ◌++◌, Bytes, bytes_eq, has_prefix, length,
  ltb-false, ◌==◌, ==_iff, arith,
}
use pal_panel_host_wine.Gvas.Reader.{first_byte}
use pal_panel_host_wine.Gvas.Reader.Encode.{encode_le, le_value-encode_le}
use pal_panel_host_wine.Sav.{
  Info, ok, gvas, plz, header_at, checked_payload, parse_header, Codecs, finish_plz,
  second_inflated, first_inflated, inflate_twice, decode_plz, decode_plm, oodled, plm,
  decode_payload, decode_to_gvas,
}

-- The header of a container: two lengths, a magic of three bytes and a type.
encode_container : ℕ → ℕ → Bytes → ℕ → Bytes → Bytes
encode_container uncompressed compressed magic save_type rest =
    encode_le 4 uncompressed ++ (encode_le 4 compressed ++ (magic ++ (save_type ∷ rest)))

plz_header :
    (n c t : ℕ) (rest : Bytes)
    → n < 2 ^ 32
    → c < 2 ^ 32
    → header_at 0 (encode_container n c plz t rest) ≡ record {
      uncompressed_len = n;
      compressed_len = c;
      magic = plz;
      save_type = t;
      data_offset = 12;
      gvas_offset = 0;
    }
unfolding header_at encode_container encode_le first_byte
plz_header n c t rest hn hc = rw (le_value-encode_le 4 n hn) (rw (le_value-encode_le 4 c hc) refl)

outer_header :
    (n c t : ℕ) (rest : Bytes)
    → n < 2 ^ 32
    → c < 2 ^ 32
    → length (encode_container n c plz t rest) ≡ length rest + 12
unfolding encode_container encode_le
outer_header n c t rest hn hc = omega arith

-- A PlZ save of type '1': the stream deflated once.
pub encode_plz1 : (Bytes → Bytes) → Bytes → Bytes
unfolding encode_container
encode_plz1 deflate out =
    encode_container (length out) (length (deflate out)) plz b'1' (deflate out)

-- A PlZ save of type '2': the stream deflated twice.
pub encode_plz2 : (Bytes → Bytes) → Bytes → Bytes
unfolding encode_container
encode_plz2 deflate out =
    encode_container (length out) (length (deflate out)) plz b'2' (deflate (deflate out))

parse_plz :
    (n c t : ℕ) (rest : Bytes)
    → n < 2 ^ 32
    → c < 2 ^ 32
    → parse_header (encode_container n c plz t rest)
      ≡ checked_payload
          (record {
            uncompressed_len = n;
            compressed_len = c;
            magic = plz;
            save_type = t;
            data_offset = 12;
            gvas_offset = 0;
          })
          (encode_container n c plz t rest)
unfolding parse_header bytes_eq
parse_plz n c t rest hn hc = rw (plz_header n c t rest hn hc) (
    rw
      (ltb-false (length (encode_container n c plz t rest)) 12
        (omega (arith, outer_header n c t rest hn hc)))
      refl)

abbrev plz_info : ℕ → ℕ → ℕ → Info
plz_info n c t = record {
  uncompressed_len = n;
  compressed_len = c;
  magic = plz;
  save_type = t;
  data_offset = 12;
  gvas_offset = 0;
}

==_refl : (n : ℕ) → (n == n) ≡ true
==_refl n = (==_iff n n).1 refl

plz1_payload :
    (n : ℕ) (rest : Bytes)
    → checked_payload
        (plz_info n (length rest) b'1')
        (encode_container n (length rest) plz b'1' rest)
      ≡ (plz_info n (length rest) b'1', ok rest)
unfolding checked_payload bytes_eq encode_container encode_le
plz1_payload n rest =
    let e : length (encode_container n (length rest) plz b'1' rest) - 12 ≡ length rest =
      omega arith in
    rw e (rw (==_refl (length rest)) refl)

plz2_payload :
    (n c : ℕ) (rest : Bytes)
    → checked_payload (plz_info n c b'2') (encode_container n c plz b'2' rest)
      ≡ (plz_info n c b'2', ok rest)
unfolding checked_payload bytes_eq encode_container encode_le
plz2_payload n c rest = refl

module _ (codecs : Codecs) (deflate : Bytes → Bytes) (out : Bytes) where
  finished :
      (c t : ℕ)
      → has_prefix out gvas ≡ true
      → finish_plz (plz_info (length out) c t) out ≡ (plz_info (length out) c t, ok out)
  unfolding finish_plz
  finished c t marker = rw (==_refl (length out)) (rw marker refl)

  -- A PlZ save of type '1' of a stream that begins with the marker is decoded to the stream, if
  -- inflating undoes deflating and both lengths fit 32 bits.
  pub decode-encode_plz1 :
      codecs.inflate (deflate out) ≡ some out
      → has_prefix out gvas ≡ true
      → length out < 2 ^ 32
      → length (deflate out) < 2 ^ 32
      → (decode_to_gvas codecs (encode_plz1 deflate out)).1 ≡ ok out
  unfolding encode_plz1 decode_to_gvas bytes_eq decode_payload decode_plz first_inflated
  decode-encode_plz1 inv marker n c =
      rw (parse_plz (length out) (length (deflate out)) b'1' (deflate out) n c) (
        rw (plz1_payload (length out) (deflate out))
          (rw inv (rw (finished (length (deflate out)) b'1' marker) refl)))

  -- A PlZ save of type '2' of a stream that begins with the marker is decoded to the stream, if
  -- inflating undoes deflating on both layers and both lengths fit 32 bits.
  pub decode-encode_plz2 :
      codecs.inflate (deflate out) ≡ some out
      → codecs.inflate (deflate (deflate out)) ≡ some (deflate out)
      → has_prefix out gvas ≡ true
      → length out < 2 ^ 32
      → length (deflate out) < 2 ^ 32
      → (decode_to_gvas codecs (encode_plz2 deflate out)).1 ≡ ok out
  unfolding encode_plz2 decode_to_gvas bytes_eq decode_payload decode_plz first_inflated
      inflate_twice second_inflated
  decode-encode_plz2 inv inv2 marker n c =
      rw (parse_plz (length out) (length (deflate out)) b'2' (deflate (deflate out)) n c) (
        rw (plz2_payload (length out) (length (deflate out)) (deflate (deflate out))) (
          rw inv2 (
            rw (==_refl (length (deflate out)))
              (rw inv (rw (finished (length (deflate out)) b'2' marker) refl)))))

-- A PlM save: the stream compressed by Oodle.
pub encode_plm : (Bytes → Bytes) → Bytes → Bytes
unfolding encode_container
encode_plm compress out =
    encode_container (length out) (length (compress out)) plm b'1' (compress out)

abbrev plm_info : ℕ → ℕ → Info
plm_info n c = record {
  uncompressed_len = n;
  compressed_len = c;
  magic = plm;
  save_type = b'1';
  data_offset = 12;
  gvas_offset = 0;
}

plm_header :
    (n c : ℕ) (rest : Bytes)
    → n < 2 ^ 32
    → c < 2 ^ 32
    → header_at 0 (encode_container n c plm b'1' rest) ≡ plm_info n c
unfolding header_at encode_container encode_le first_byte
plm_header n c rest hn hc = rw (le_value-encode_le 4 n hn) (rw (le_value-encode_le 4 c hc) refl)

length-encode_container :
    (n c : ℕ) (rest : Bytes) → length (encode_container n c plm b'1' rest) ≡ length rest + 12
unfolding encode_container encode_le
length-encode_container n c rest = omega arith

plm_payload :
    (n c : ℕ) (rest : Bytes)
    → checked_payload (plm_info n c) (encode_container n c plm b'1' rest) ≡ (plm_info n c, ok rest)
unfolding checked_payload bytes_eq encode_container encode_le
plm_payload n c rest = refl

parse_plm :
    (n c : ℕ) (rest : Bytes)
    → n < 2 ^ 32
    → c < 2 ^ 32
    → parse_header (encode_container n c plm b'1' rest) ≡ (plm_info n c, ok rest)
unfolding parse_header bytes_eq
parse_plm n c rest hn hc = rw (plm_header n c rest hn hc) (
    rw
      (ltb-false (length (encode_container n c plm b'1' rest)) 12
        (omega (arith, length-encode_container n c rest)))
      (plm_payload n c rest))

-- A PlM save of a stream that begins with the marker is decoded to the stream, if the Oodle
-- decoder undoes the compressor on it and both lengths fit 32 bits.
pub decode-encode_plm :
    (codecs : Codecs) (compress : Bytes → Bytes) (out : Bytes)
    → codecs.oodle (compress out) (length out) ≡ some out
    → has_prefix out gvas ≡ true
    → length out < 2 ^ 32
    → length (compress out) < 2 ^ 32
    → (decode_to_gvas codecs (encode_plm compress out)).1 ≡ ok out
unfolding encode_plm decode_to_gvas bytes_eq decode_payload decode_plm oodled
decode-encode_plm codecs compress out inv marker n c =
    rw (parse_plm (length out) (length (compress out)) (compress out) n c)
      (rw (==_refl (length (compress out))) (rw inv (rw marker refl)))
