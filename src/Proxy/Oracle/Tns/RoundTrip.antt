-- ===== src/Proxy/Oracle/Tns/RoundTrip.antt =====
-- Reading back what internal/proxy/oracle/tns.go encodes, and where the length field wraps around.
use dbbat.Prelude.{
  ℕ, ◌+◌, ◌-◌, ◌*◌, ◌/◌, ◌%◌, ◌≤◌, ◌<◌, ◌≡◌, ◌≢◌, refl, sym, ap, ◌∙◌, true, false, List, [], ◌∷◌,
  ◌++◌, arith, ltb, ◌==◌, length, ok,
}
use dbbat.Proxy.Oracle.Tns.{
  TnsPacket, type_connect, read_full, packet_length, finish_packet, read_body, parse_tns_header,
  read_tns_packet, encode_tns_packet,
}
use dbbat.Proxy.Oracle.Tns.Frames.{read_full-append}

-- The eight bytes before the payload, for the length `n`.
abbrev header_of : ℕ → ℕ → List ℕ
header_of n type = (n / 256 % 256) ∷ (n % 256) ∷ 0 ∷ 0 ∷ type ∷ 0 ∷ 0 ∷ 0 ∷ []

abbrev parsed : ℕ → ℕ → TnsPacket
parsed n type = record { type = type; flags = 0; length = n; payload = []; raw = [] }

read-encode :
    (type : ℕ) (payload rest : List ℕ)
    → let n = 8 + length payload in
      read_tns_packet (encode_tns_packet type payload ++ rest)
      ≡ read_body (parsed (n / 256 % 256 * 256 + n % 256) type) (header_of n type) (payload ++ rest)
unfolding read_tns_packet encode_tns_packet read_full parse_tns_header
read-encode type payload rest = refl

encode-header :
    (type : ℕ) (payload : List ℕ)
    → encode_tns_packet type payload ≡ header_of (8 + length payload) type ++ payload
unfolding encode_tns_packet
encode-header type payload = refl

body_fits :
    (type n : ℕ) (header payload rest : List ℕ)
    → type ≢ type_connect
    → n ≡ 8 + length payload
    → n ≤ 65535
    → read_body (parsed n type) header (payload ++ rest)
      ≡ ok (
        record { type = type; flags = 0; length = n; payload = payload; raw = header ++ payload },
        rest,
      )
unfolding read_body packet_length finish_packet
body_fits type n header payload rest h e le =
    let positive : ltb 0 n ≡ true = ground arith in
    let above : ltb n 8 ≡ false = ground arith in
    let below : ltb 65535 n ≡ false = ground arith in
    let size : n - 8 ≡ length payload = omega arith in
    let other : (type == type_connect) ≡ false = ground arith in
    rw (positive, above, below, size, read_full-append payload rest, other) refl

body_wraps :
    (type n : ℕ) (payload rest : List ℕ)
    → n % 65536 < 8
    → read_body (parsed (n % 65536) type) (header_of n type) (payload ++ rest)
      ≡ ok (
        record { type = type; flags = 0; length = n % 65536; payload = []; raw = header_of n type },
        payload ++ rest,
      )
unfolding read_body
body_wraps type n payload rest h =
    let high : n / 256 % 256 * 256 + n % 256 ≡ n % 65536 = omega arith in ground (arith, high)

bytes_of_length : (n : ℕ) → n / 256 % 256 * 256 + n % 256 ≡ n % 65536
bytes_of_length n = omega arith

-- A packet that is not a Connect packet and whose payload leaves its length within 65535 is read
-- back as it was encoded, and what follows it is left on the connection.
pub read-encode_fits :
    (type : ℕ) (payload rest : List ℕ)
    → type ≢ type_connect
    → length payload ≤ 65527
    → read_tns_packet (encode_tns_packet type payload ++ rest)
      ≡ ok (
        record {
          type = type;
          flags = 0;
          length = 8 + length payload;
          payload = payload;
          raw = encode_tns_packet type payload;
        },
        rest,
      )
read-encode_fits type payload rest h le =
    let n = 8 + length payload in
    let m = n / 256 % 256 * 256 + n % 256 in
    let whole : m ≡ 8 + length payload = bytes_of_length n ∙ omega arith in
    read-encode type payload rest
    ∙ ap (λ k. read_body (parsed k type) (header_of n type) (payload ++ rest)) whole
    ∙ body_fits type n (header_of n type) payload rest h refl (omega arith)
    ∙ ap
        (λ raw.
          ok (record { type = type; flags = 0; length = n; payload = payload; raw = raw }, rest))
        (sym (encode-header type payload))

-- A payload of 65528 to 65535 bytes makes the length field wrap around: what is encoded is read back
-- as a packet without payload, and the payload is left to be read as further packets.
pub read-encode_wraps :
    (type : ℕ) (payload rest : List ℕ)
    → 65528 ≤ length payload
    → length payload ≤ 65535
    → (pkt : TnsPacket) × (pkt.payload ≡ [])
      × (read_tns_packet (encode_tns_packet type payload ++ rest) ≡ ok (pkt, payload ++ rest))
read-encode_wraps type payload rest low high =
    let n = 8 + length payload in
    (
      record (parsed (n % 65536) type) { raw = header_of n type },
      refl,
      read-encode type payload rest
          ∙ ap (λ m. read_body (parsed m type) (header_of n type) (payload ++ rest))
              (bytes_of_length n)
          ∙ body_wraps type n payload rest (omega arith),
    )
