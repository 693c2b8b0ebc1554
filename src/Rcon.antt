-- ===== src/Rcon.antt =====
-- backend/internal/paldefender/rcon.go: the packets of an RCON connection. What a connection still
-- has to deliver before it ends is a list of bytes.
pub mod RoundTrip
use pal_panel_host_wine.Prelude.{
  ℕ, ◌+◌, ◌-◌, Bool, true, false, ◌||◌, List, [], ◌∷◌, ◌++◌, Bytes, bytes_eq, length, take, drop,
  ltb, if◌then◌else◌,
}
use pal_panel_host_wine.Prelude.Int.{ℤ, pos, negsuc, signed32}
use pal_panel_host_wine.Gvas.Reader.{le_value}
use pal_panel_host_wine.Gvas.Reader.Encode.{encode_le, encode_i32}

-- `packet_type` is the field Type.
pub record Packet : Type 0 where
  pub id : ℤ
  pub packet_type : ℤ
  pub body : Bytes

pub data PacketError : Type 0 where
  end_of_stream : PacketError
  invalid_size : ℤ → PacketError
  invalid_terminator : PacketError

pub data Received : Type 0 where
  -- the packet, and what is behind it
  packet : Packet → Bytes → Received
  failed : PacketError → Received

abbrev pub packet_limit : ℕ
packet_limit = 4194304

-- `writeRCONPacket`: the size is an int32, of which four bytes are written.
unfoldable pub write_packet : Packet → Bytes
write_packet p =
    encode_le 4 (length p.body + 10)
    ++ (encode_i32 p.id ++ (encode_i32 p.packet_type ++ (p.body ++ 0 ∷ 0 ∷ [])))

-- The payload of `size` bytes, which are at least ten, and what is behind it.
unfoldable pub read_payload : Bytes → Bytes → Received
read_payload payload rest =
    if bytes_eq (drop (length payload - 2) payload) (0 ∷ 0 ∷ [])
    then packet
        (record {
          id = signed32 (le_value (take 4 payload));
          packet_type = signed32 (le_value (take 4 (drop 4 payload)));
          body = take (length payload - 10) (drop 8 payload);
        })
        rest
    else failed invalid_terminator

unfoldable pub read_sized : ℤ → Bytes → Received
read_sized (negsuc n) stream = failed (invalid_size (negsuc n))
read_sized (pos n) stream =
    if ltb n 10 || ltb packet_limit n
    then failed (invalid_size (pos n))
    else if ltb (length stream) n
    then failed end_of_stream
    else read_payload (take n stream) (drop n stream)

-- `readRCONPacket`.
unfoldable pub read_packet : Bytes → Received
read_packet stream =
    if ltb (length stream) 4
    then failed end_of_stream
    else read_sized (signed32 (le_value (take 4 stream))) (drop 4 stream)
