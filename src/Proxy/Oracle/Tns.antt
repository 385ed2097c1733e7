-- ===== src/Proxy/Oracle/Tns.antt =====
-- internal/proxy/oracle/tns.go: the packets of the Oracle protocol. A connection is the list of the
-- bytes that are still to come from it; what `io.ReadFull` does not get is an error.
pub mod Frames
pub mod RoundTrip
mod Tests
use dbbat.Prelude.{
  ℕ, zero, suc, ◌+◌, ◌-◌, ◌*◌, ◌/◌, ◌%◌, Bool, ◌||◌, List, [], ◌∷◌, ◌++◌, ltb, ◌==◌, if◌then◌else◌,
  length, Result, ok, err, ◌>>=◌,
}

pub data TnsError : Type 0 where
  header_too_short packet_too_large read_failed : TnsError

abbrev pub type_connect : ℕ
type_connect = 1

abbrev pub tns_header_size : ℕ
tns_header_size = 8

abbrev pub max_tns_packet_size : ℕ
max_tns_packet_size = 65535

-- A slice that is nil is the empty list.
pub record TnsPacket : Type 0 where
  pub type : ℕ
  pub flags : ℕ
  pub length : ℕ
  pub payload : List ℕ
  pub raw : List ℕ

-- `raw[i]`, where the code has tested that it is there.
pub byte_at : ℕ → List ℕ → ℕ
byte_at i [] = 0
byte_at zero (b ∷ raw) = b
byte_at (suc i) (b ∷ raw) = byte_at i raw

-- `binary.BigEndian.Uint16(raw[i:i+2])`
pub uint16_at : ℕ → List ℕ → ℕ
unfolding byte_at
uint16_at i raw = byte_at i raw * 256 + byte_at (suc i) raw

-- `binary.BigEndian.PutUint16(buf, uint16(n))`
pub put_uint16 : ℕ → List ℕ
put_uint16 n = (n / 256 % 256) ∷ (n % 256) ∷ []

-- `io.ReadFull` into a slice of `n` bytes.
pub read_full : ℕ → List ℕ → Result TnsError (List ℕ × List ℕ)
read_full zero conn = ok ([], conn)
read_full (suc n) [] = err read_failed
read_full (suc n) (b ∷ conn) = read_full n conn >>= λ (bytes, rest). ok (b ∷ bytes, rest)

-- `parseTNSHeader`
pub parse_tns_header : List ℕ → Result TnsError TnsPacket
unfolding uint16_at byte_at
parse_tns_header raw =
    if ltb (length raw) tns_header_size
    then err header_too_short
    else ok (record {
      type = byte_at 4 raw;
      flags = byte_at 5 raw;
      length = uint16_at 0 raw;
      payload = [];
      raw = [];
    })

-- `encodeTNSPacket`
pub encode_tns_packet : ℕ → List ℕ → List ℕ
unfolding put_uint16
encode_tns_packet type payload =
    put_uint16 (tns_header_size + length payload) ++ (0 ∷ 0 ∷ type ∷ 0 ∷ 0 ∷ 0 ∷ payload)

-- The two parts of `readExtendedConnectData` that read from the connection.
read_extended_data : List ℕ → TnsPacket → List ℕ → Result TnsError (TnsPacket × List ℕ)
unfolding read_full uint16_at
read_extended_data size_buf pkt conn =
    let extended_len = uint16_at 0 size_buf in
    if ltb extended_len 2 || ltb max_tns_packet_size extended_len
    then err packet_too_large
    else read_full (extended_len - 2) conn >>= λ (remaining, rest). ok (
      record pkt {
        payload = (pkt.payload ++ size_buf) ++ remaining;
        raw = (pkt.raw ++ size_buf) ++ remaining;
      },
      rest,
    )

-- `readExtendedConnectData`: `payloadNeeded < len(pkt.Payload)` with the header's size added to
-- both sides, since the difference can be negative.
pub read_extended_connect_data : TnsPacket → List ℕ → Result TnsError (TnsPacket × List ℕ)
unfolding read_extended_data read_full uint16_at
read_extended_connect_data pkt conn =
    if ltb (length pkt.payload) 20
    then ok (pkt, conn)
    else if ltb (uint16_at 18 pkt.payload) (length pkt.payload + tns_header_size)
    then ok (pkt, conn)
    else read_full 2 conn >>= λ (size_buf, rest). read_extended_data size_buf pkt rest

-- The legacy length of two bytes, and the length of four bytes where that reads zero.
pub packet_length : TnsPacket → List ℕ → ℕ
unfolding uint16_at
packet_length pkt header =
    if ltb 0 pkt.length then pkt.length else uint16_at 0 header * 65536 + uint16_at 2 header

finish_packet : TnsPacket → List ℕ → Result TnsError (TnsPacket × List ℕ)
unfolding read_extended_connect_data
finish_packet pkt conn =
    if pkt.type == type_connect then read_extended_connect_data pkt conn else ok (pkt, conn)

-- `readTNSPacket` after its header.
read_body : TnsPacket → List ℕ → List ℕ → Result TnsError (TnsPacket × List ℕ)
unfolding packet_length read_full finish_packet
read_body pkt header conn =
    let packet_len = packet_length pkt header in
    if ltb packet_len tns_header_size
    then ok (record pkt { raw = header }, conn)
    else if ltb max_tns_packet_size packet_len
    then err packet_too_large
    else read_full (packet_len - tns_header_size) conn >>= λ (payload, rest).
        finish_packet (record pkt { payload = payload; raw = header ++ payload }) rest

-- `readTNSPacket`
pub read_tns_packet : List ℕ → Result TnsError (TnsPacket × List ℕ)
unfolding read_full parse_tns_header read_body
read_tns_packet conn = read_full tns_header_size conn >>= λ (header, rest).
    parse_tns_header header >>= λ pkt. read_body pkt header rest

-- `writeTNSPacket`: the bytes that it writes.
pub write_tns_packet : TnsPacket → List ℕ
unfolding encode_tns_packet
write_tns_packet pkt =
    if ltb 0 (length pkt.raw) then pkt.raw else encode_tns_packet pkt.type pkt.payload
