-- ===== src/Proxy/Oracle/Tns/Tests.antt =====
-- Runs of internal/proxy/oracle/tns.go.
use dbbat.Prelude.{ℕ, ◌≡◌, List, [], ◌∷◌, ◌++◌, arith, length, length-replicate, replicate, ok}
use dbbat.Proxy.Oracle.Tns.{TnsPacket, read_tns_packet, encode_tns_packet}
use dbbat.Proxy.Oracle.Tns.Frames.{Relays, read_tns_packet-Relays}
use dbbat.Proxy.Oracle.Tns.RoundTrip.{read-encode_wraps}

-- A Connect packet of 30 bytes with extended data, which start at 30.
abbrev a_connect : List ℕ
a_connect =
    (0 ∷ 30 ∷ 0 ∷ 0 ∷ 1 ∷ 0 ∷ 0 ∷ 0 ∷ [])
    ++ (replicate 18 7 ++ ((0 ∷ 30 ∷ 7 ∷ 7 ∷ []) ++ (0 ∷ 4 ∷ 65 ∷ 66 ∷ 99 ∷ [])))

read_tns_packet-Relays_example : Relays a_connect (read_tns_packet a_connect)
read_tns_packet-Relays_example = read_tns_packet-Relays a_connect

long : List ℕ
long = replicate 65530 7

length-long : length long ≡ 65530
unfolding long
length-long = length-replicate {A = ℕ} 65530 7

read-encode_wraps_example :
    (pkt : TnsPacket) × (pkt.payload ≡ [])
    × (read_tns_packet (encode_tns_packet 6 long ++ []) ≡ ok (pkt, long ++ []))
read-encode_wraps_example =
    read-encode_wraps 6 long [] (omega (arith, length-long)) (omega (arith, length-long))
