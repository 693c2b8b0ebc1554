-- ===== src/Rcon/RoundTrip.antt =====
-- Packets that are written are read back, one after the other.
use mathlib.Core.List.{append_assoc}
use pal_panel_host_wine.Prelude.{
  ℕ, suc, ◌+◌, ◌-◌, ◌≤◌, ◌≡◌, refl, sym, ap, ◌∙◌, ◌||◌, [], ◌∷◌, ◌++◌, Bytes, bytes_eq, length,
  length-append, take, drop, take-append, drop-append, length-take, length-drop, ltb, ltb-false,
  Bool-cases, inl, inr, arith,
}
use pal_panel_host_wine.Prelude.Int.{ℤ, pos, negsuc, signed32, pattern32}
use pal_panel_host_wine.Gvas.Reader.{le_value}
use pal_panel_host_wine.Gvas.Reader.Encode.{
  encode_le, length-encode_le, le_value-encode_le, encode_i32, IsI32, pattern32_lt,
  signed32-pattern32,
}
use pal_panel_host_wine.Rcon.{
  Packet, packet, failed, packet_limit, end_of_stream, invalid_size, invalid_terminator,
  write_packet, read_payload, read_sized, read_packet,
}

-- The numbers are int32s, and the size is within the limit.
pub record IsPacket (p : Packet) : Type 0 where
  pub id : IsI32 p.id
  pub packet_type : IsI32 p.packet_type
  pub size : length p.body + 10 ≤ packet_limit

abbrev payload_of : Packet → Bytes
payload_of p = encode_i32 p.id ++ (encode_i32 p.packet_type ++ (p.body ++ 0 ∷ 0 ∷ []))

i32_back : (z : ℤ) → IsI32 z → signed32 (le_value (encode_i32 z)) ≡ z
unfolding encode_i32
i32_back z h =
    ap signed32 (le_value-encode_le 4 (pattern32 z) (pattern32_lt z h)) ∙ signed32-pattern32 z h

take_4 : (z : ℤ) (s : Bytes) → take 4 (encode_i32 z ++ s) ≡ encode_i32 z
unfolding encode_i32 encode_le
take_4 z s = refl

drop_4 : (z : ℤ) (s : Bytes) → drop 4 (encode_i32 z ++ s) ≡ s
unfolding encode_i32 encode_le
drop_4 z s = refl

length-payload_of : (p : Packet) → length (payload_of p) ≡ length p.body + 10
unfolding encode_i32 encode_le
length-payload_of p = omega (arith, length-append p.body (0 ∷ 0 ∷ []))

body_back : (p : Packet) → take (length (payload_of p) - 10) (drop 8 (payload_of p)) ≡ p.body
unfolding encode_i32 encode_le
body_back p =
    let e : length (payload_of p) - 10 ≡ length p.body = omega (arith, length-payload_of p) in
    rw e (take-append p.body (0 ∷ 0 ∷ []))

terminator_back : (p : Packet) → drop (length (payload_of p) - 2) (payload_of p) ≡ 0 ∷ 0 ∷ []
unfolding encode_i32 encode_le
terminator_back p =
    let e : length (payload_of p) - 2
        ≡ suc (suc (suc (suc (suc (suc (suc (suc (length p.body)))))))) =
      omega (arith, length-payload_of p) in
    rw e (drop-append p.body (0 ∷ 0 ∷ []))

payload-read :
    (p : Packet) (rest : Bytes) → IsPacket p → read_payload (payload_of p) rest ≡ packet p rest
unfolding read_payload bytes_eq
payload-read p rest h = rw (terminator_back p) (
    rw (body_back p) (
      rw (take_4 p.id (encode_i32 p.packet_type ++ (p.body ++ 0 ∷ 0 ∷ []))) (
        rw (drop_4 p.id (encode_i32 p.packet_type ++ (p.body ++ 0 ∷ 0 ∷ []))) (
          rw (take_4 p.packet_type (p.body ++ 0 ∷ 0 ∷ []))
            (rw (i32_back p.id h.id) (rw (i32_back p.packet_type h.packet_type) refl))))))

sized-read :
    (n : ℕ) (x rest : Bytes)
    → length x ≡ n
    → 10 ≤ n
    → n ≤ packet_limit
    → read_sized (pos n) (x ++ rest) ≡ read_payload x rest
unfolding read_sized
sized-read n x rest e low high = rw (ltb-false n 10 low) (
    rw (ltb-false packet_limit n high) (
      rw (ltb-false (length (x ++ rest)) n (omega (arith, length-append x rest)))
        (rw (sym e) (rw (take-append x rest) (rw (drop-append x rest) refl)))))

size_back : (n : ℕ) → n ≤ packet_limit → signed32 (le_value (encode_le 4 n)) ≡ pos n
size_back n h = ap signed32 (le_value-encode_le 4 n (omega arith)) ∙ ground arith

packet-read :
    (n : ℕ) (s : Bytes) → n ≤ packet_limit → read_packet (encode_le 4 n ++ s) ≡ read_sized (pos n) s
unfolding read_packet
packet-read n s h =
    rw
      (ltb-false (length (encode_le 4 n ++ s)) 4
        (omega (arith, length-append (encode_le 4 n) s, length-encode_le 4 n)))
      (rw (first (encode_le 4 n) s (length-encode_le 4 n))
        (rw (behind (encode_le 4 n) s (length-encode_le 4 n)) (rw (size_back n h) refl)))
  where
    first : (x y : Bytes) → length x ≡ 4 → take 4 (x ++ y) ≡ x
    first x y e = rw (sym e) (take-append x y)

    behind : (x y : Bytes) → length x ≡ 4 → drop 4 (x ++ y) ≡ y
    behind x y e = rw (sym e) (drop-append x y)

-- `readRCONPacket` undoes `writeRCONPacket`: a packet whose numbers are int32s and whose size is
-- within the limit is read back from the front of a stream, and what is behind it is left.
pub read_packet-write_packet :
    (p : Packet) (rest : Bytes) → IsPacket p → read_packet (write_packet p ++ rest) ≡ packet p rest
unfolding write_packet
read_packet-write_packet p rest h =
    ap read_packet (append_assoc (encode_le 4 (length p.body + 10)) (payload_of p) rest)
    ∙ packet-read (length p.body + 10) (payload_of p ++ rest) h.size
    ∙ sized-read (length p.body + 10) (payload_of p) rest (length-payload_of p) (omega arith) h.size
    ∙ payload-read p rest h

-- What a payload of at least ten bytes is read as.
payload-bounds :
    (x rest r : Bytes) (p : Packet)
    → 10 ≤ length x
    → read_payload x rest ≡ packet p r
    → (length p.body + 10 ≡ length x) × (r ≡ rest)
unfolding read_payload
payload-bounds x rest r p low h =
    elim (Bool-cases (bytes_eq (drop (length x - 2) x) (0 ∷ 0 ∷ []))) [
      | inl ends ↦ read_as (rw ends at h)
      | inr e ↦ absurd (refused (rw e at h))
    ]
  where
    refused : failed invalid_terminator ≡ packet p r → ⊥
    refused e = cc

    body_size : length (take (length x - 10) (drop 8 x)) + 10 ≡ length x
    body_size = omega (arith, length-take (length x - 10) (drop 8 x), length-drop 8 x)

    read_as :
        {i t : ℤ}
        → packet (record { id = i; packet_type = t; body = take (length x - 10) (drop 8 x) }) rest
          ≡ packet p r
        → (length p.body + 10 ≡ length x) × (r ≡ rest)
    read_as {i} {t} e =
        let b : length (take (length x - 10) (drop 8 x)) ≡ length p.body = cc in
        (omega (arith, b, body_size), cc)

sized-bounds :
    (n : ℕ) (s rest : Bytes) (p : Packet)
    → read_sized (pos n) s ≡ packet p rest
    → (length p.body + 10 ≡ n) × (rest ≡ drop n s) × (n ≤ packet_limit) × (n ≤ length s)
unfolding read_sized
sized-bounds n s rest p h = elim (Bool-cases (ltb n 10 || ltb packet_limit n)) [
  | inl bad ↦ absurd (no_size (rw bad at h))
  | inr good ↦ elim (Bool-cases (ltb (length s) n)) [
    | inl short ↦ absurd (no_bytes (rw (good, short) at h))
    | inr enough ↦
        let (a, b) =
          payload-bounds (take n s) (drop n s) rest p (ground (arith, length-take n s))
            (rw (good, enough) at h) in
        (ground (arith, length-take n s), b, ground arith, ground arith)
  ]
]
  where
    no_size : failed (invalid_size (pos n)) ≡ packet p rest → ⊥
    no_size e = cc

    no_bytes : failed end_of_stream ≡ packet p rest → ⊥
    no_bytes e = cc

-- Whatever the stream, a packet that is read has a body within the limit, and the stream was
-- longer than what is left by exactly the body and 14 bytes.
pub read_packet-bounds :
    (s rest : Bytes) (p : Packet)
    → read_packet s ≡ packet p rest
    → (length p.body + 10 ≤ packet_limit) × (length s ≡ length p.body + 14 + length rest)
unfolding read_packet
read_packet-bounds s rest p h = elim (Bool-cases (ltb (length s) 4)) [
  | inl short ↦ absurd (no_size (rw short at h))
  | inr enough ↦ by_size (signed32 (le_value (take 4 s))) (ground arith) (rw enough at h)
]
  where
    no_size : failed end_of_stream ≡ packet p rest → ⊥
    no_size e = cc

    by_size :
        (z : ℤ)
        → 4 ≤ length s
        → read_sized z (drop 4 s) ≡ packet p rest
        → (length p.body + 10 ≤ packet_limit) × (length s ≡ length p.body + 14 + length rest)
    by_size (pos n) long e =
        let (a, b, c, d) = sized-bounds n (drop 4 s) rest p e in
        (
          omega arith,
          omega (arith, a, d, ap (λ l. length l) b, length-drop n (drop 4 s), length-drop 4 s),
        )
    by_size (negsuc n) long e = absurd (negative e)
      where
        negative : read_sized (negsuc n) (drop 4 s) ≡ packet p rest → ⊥
        negative e = unfold read_sized in cc
