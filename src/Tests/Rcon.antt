-- ===== src/Tests/Rcon.antt =====
-- The packet theorems on a command and on a packet as it stands in a stream.
use pal_panel_host_wine.Prelude.{
  ◌+◌, ◌≤◌, ◌≡◌, refl, [], ◌∷◌, ◌++◌, Bytes, codes, bytes_eq, length, arith,
}
use pal_panel_host_wine.Prelude.Int.{pos}
use pal_panel_host_wine.Rcon.{
  Packet, packet, packet_limit, write_packet, read_payload, read_sized, read_packet,
}
use pal_panel_host_wine.Rcon.RoundTrip.{IsPacket, read_packet-write_packet, read_packet-bounds}

abbrev command : Packet
command = record { id = pos 1; packet_type = pos 2; body = codes "Info" }

command-IsPacket : IsPacket command
command-IsPacket = record { id = omega arith; packet_type = omega arith; size = omega arith }

read_packet-write_packet_example :
    read_packet (write_packet command ++ 9 ∷ []) ≡ packet command (9 ∷ [])
read_packet-write_packet_example = read_packet-write_packet command (9 ∷ []) command-IsPacket

abbrev stream : Bytes
stream = 11 ∷ 0 ∷ 0 ∷ 0 ∷ 1 ∷ 0 ∷ 0 ∷ 0 ∷ 2 ∷ 0 ∷ 0 ∷ 0 ∷ 65 ∷ 0 ∷ 0 ∷ 9 ∷ []

abbrev reply : Packet
reply = record { id = pos 1; packet_type = pos 2; body = 65 ∷ [] }

stream_read : read_packet stream ≡ packet reply (9 ∷ [])
unfolding read_packet read_sized read_payload bytes_eq
stream_read = refl

read_packet-bounds_example :
    (length reply.body + 10 ≤ packet_limit) × (length stream ≡ length reply.body + 14 + 1)
read_packet-bounds_example = read_packet-bounds stream (9 ∷ []) reply stream_read
