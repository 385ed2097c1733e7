-- ===== src/Proxy/Oracle/Tns/Frames.antt =====
-- That what internal/proxy/oracle/tns.go reads and writes agree byte for byte.
use dbbat.Prelude.{
  ℕ, zero, suc, ◌+◌, ◌-◌, ◌≤◌, ◌≡◌, refl, sym, ap, ◌∙◌, ◌||◌, List, [], ◌∷◌, ◌++◌, arith, ltb, ◌==◌,
  length, length-append, append_assoc, subst, Result, ok, err, Result-cases, Bool-cases, inl, inr,
}
use dbbat.Proxy.Oracle.Tns.{
  TnsError, TnsPacket, type_connect, max_tns_packet_size, read_full, read_extended_data, uint16_at,
  read_extended_connect_data, packet_length, finish_packet, read_body, parse_tns_header,
  read_tns_packet, write_tns_packet,
}

-- What is read is the start of the connection, and is as long as asked.
abbrev pub Reads : ℕ → List ℕ → Result TnsError (List ℕ × List ℕ) → Type 0
Reads n conn (err e) = Unit
Reads n conn (ok (bytes, rest)) = (conn ≡ bytes ++ rest) × (length bytes ≡ n)

read_full-Reads : (n : ℕ) (conn : List ℕ) → Reads n conn (read_full n conn)
unfolding read_full
read_full-Reads zero conn = (refl, refl)
read_full-Reads (suc n) [] = tt
read_full-Reads (suc n) (b ∷ conn) = elim (Result-cases (read_full n conn)) [
  | inr (e, h) ↦ rw h tt
  | inl (r, h) ↦
      let (e, l) = subst (Reads n conn) h (read_full-Reads n conn) in
      rw h (ap (λ x. b ∷ x) e, ap suc l)
]

pub read_full-append :
    (bytes rest : List ℕ) → read_full (length bytes) (bytes ++ rest) ≡ ok (bytes, rest)
unfolding read_full
read_full-append [] rest = refl
read_full-append (b ∷ bytes) rest = rw (read_full-append bytes rest) refl

-- The raw bytes of the packet are those that were read.
abbrev pub Forwards : List ℕ → Result TnsError (TnsPacket × List ℕ) → Type 0
Forwards conn (err e) = Unit
Forwards conn (ok (pkt, rest)) = (conn ≡ pkt.raw ++ rest) × (8 ≤ length pkt.raw)

grow : (xs ys : List ℕ) → 8 ≤ length xs → 8 ≤ length (xs ++ ys)
grow xs ys h = omega (arith, length-append xs ys)

read_extended_data-Forwards :
    (size_buf : List ℕ) (pkt : TnsPacket) (conn all : List ℕ)
    → all ≡ (pkt.raw ++ size_buf) ++ conn
    → 8 ≤ length pkt.raw
    → Forwards all (read_extended_data size_buf pkt conn)
read_extended_data-Forwards size_buf pkt conn all h big =
    let n = uint16_at 0 size_buf in
    elim (Bool-cases (ltb n 2 || ltb max_tns_packet_size n)) [
      | inl e ↦ unfold read_extended_data in rw e tt
      | inr e ↦ elim (Result-cases (read_full (n - 2) conn)) [
        | inr (_, r) ↦ unfold read_extended_data in rw (e, r) tt
        | inl (r, got) ↦
            let (c, _) = subst (Reads (n - 2) conn) got (read_full-Reads (n - 2) conn) in
            unfold read_extended_data in
            rw (e, got)
              (
                h
                    ∙ ap (λ x. (pkt.raw ++ size_buf) ++ x) c
                    ∙ sym (append_assoc (pkt.raw ++ size_buf) r.0 r.1),
                grow (pkt.raw ++ size_buf) r.0 (grow pkt.raw size_buf big),
              )
      ]
    ]

read_extended-Forwards :
    (pkt : TnsPacket) (conn all : List ℕ)
    → all ≡ pkt.raw ++ conn
    → 8 ≤ length pkt.raw
    → Forwards all (read_extended_connect_data pkt conn)
unfolding read_extended_connect_data
read_extended-Forwards pkt conn all h big = elim (Bool-cases (ltb (length pkt.payload) 20)) [
  | inl e ↦ rw e (h, big)
  | inr e ↦ elim (Bool-cases (ltb (uint16_at 18 pkt.payload) (length pkt.payload + 8))) [
    | inl e' ↦ rw (e, e') (h, big)
    | inr e' ↦ elim (Result-cases (read_full 2 conn)) [
      | inr (_, r) ↦ rw (e, e', r) tt
      | inl (r, got) ↦
          let (c, _) = subst (Reads 2 conn) got (read_full-Reads 2 conn) in
          rw (e, e', got)
            (read_extended_data-Forwards r.0 pkt r.1 all
              (h ∙ ap (λ x. pkt.raw ++ x) c ∙ sym (append_assoc pkt.raw r.0 r.1)) big)
    ]
  ]
]

finish_packet-Forwards :
    (pkt : TnsPacket) (conn all : List ℕ)
    → all ≡ pkt.raw ++ conn
    → 8 ≤ length pkt.raw
    → Forwards all (finish_packet pkt conn)
unfolding finish_packet
finish_packet-Forwards pkt conn all h big = elim (Bool-cases (pkt.type == type_connect)) [
  | inl e ↦ rw e (read_extended-Forwards pkt conn all h big)
  | inr e ↦ rw e (h, big)
]

read_body-Forwards :
    (pkt : TnsPacket) (header conn all : List ℕ)
    → all ≡ header ++ conn
    → 8 ≤ length header
    → Forwards all (read_body pkt header conn)
read_body-Forwards pkt header conn all h big =
    let n = packet_length pkt header in
    elim (Bool-cases (ltb n 8)) [
      | inl e ↦ unfold read_body in rw e (h, big)
      | inr e ↦ elim (Bool-cases (ltb max_tns_packet_size n)) [
        | inl e' ↦ unfold read_body in rw (e, e') tt
        | inr e' ↦ elim (Result-cases (read_full (n - 8) conn)) [
          | inr (_, r) ↦ unfold read_body in rw (e, e', r) tt
          | inl (r, got) ↦
              let (c, _) = subst (Reads (n - 8) conn) got (read_full-Reads (n - 8) conn) in
              let next = record pkt { payload = r.0; raw = header ++ r.0 } in
              unfold read_body in
              rw (e, e', got)
                (finish_packet-Forwards next r.1 all
                  (h ∙ ap (λ x. header ++ x) c ∙ sym (append_assoc header r.0 r.1))
                  (grow header r.0 big))
        ]
      ]
    ]

read_tns_packet-Forwards : (conn : List ℕ) → Forwards conn (read_tns_packet conn)
unfolding read_tns_packet
read_tns_packet-Forwards conn = elim (Result-cases (read_full 8 conn)) [
  | inr (_, r) ↦ rw r tt
  | inl (r, got) ↦
      let (c, l) = subst (Reads 8 conn) got (read_full-Reads 8 conn) in
      elim (Result-cases (parse_tns_header r.0)) [
        | inr (_, bad) ↦ rw (got, bad) tt
        | inl (pkt, good) ↦
            rw (got, good) (read_body-Forwards pkt r.0 r.1 conn c (omega (arith, l)))
      ]
]

-- What is written for a packet, followed by what is left of the connection, is the connection.
abbrev pub Relays : List ℕ → Result TnsError (TnsPacket × List ℕ) → Type 0
Relays conn (err e) = Unit
Relays conn (ok (pkt, rest)) = conn ≡ write_tns_packet pkt ++ rest

write-raw : (pkt : TnsPacket) → 8 ≤ length pkt.raw → write_tns_packet pkt ≡ pkt.raw
unfolding write_tns_packet
write-raw pkt h = ground arith

Forwards-Relays :
    (conn : List ℕ) (r : Result TnsError (TnsPacket × List ℕ)) → Forwards conn r → Relays conn r
Forwards-Relays conn (err e) f = tt
Forwards-Relays conn (ok (pkt, rest)) (e, big) = e ∙ ap (λ x. x ++ rest) (sym (write-raw pkt big))

-- Reading a packet and writing it passes on exactly the bytes that were taken from the connection,
-- those of extended connect data included, whatever the length fields say.
pub read_tns_packet-Relays : (conn : List ℕ) → Relays conn (read_tns_packet conn)
read_tns_packet-Relays conn =
    Forwards-Relays conn (read_tns_packet conn) (read_tns_packet-Forwards conn)
