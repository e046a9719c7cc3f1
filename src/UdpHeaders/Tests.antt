-- ===== src/UdpHeaders/Tests.antt =====
-- A buffer that writes eight bytes, the most significant first.
use basic_sim.Prelude.{
  ℕ, zero, suc, ◌+◌, ◌*◌, ◌/◌, ◌%◌, ◌^◌, ◌<◌, ◌≡◌, refl, ap, List, [], ◌∷◌, ◌++◌, arith, length,
}
use basic_sim.UdpHeaders.{
  Buffer, UdpPingHeader, serialize_ping, deserialize_ping, ping_serialized_size,
  deserialize-serialize_ping,
}

abbrev write : ℕ → List ℕ
write x =
    x / 2 ^ 56 % 256
    ∷ x / 2 ^ 48 % 256
    ∷ x / 2 ^ 40 % 256
    ∷ x / 2 ^ 32 % 256
    ∷ x / 2 ^ 24 % 256
    ∷ x / 2 ^ 16 % 256
    ∷ x / 2 ^ 8 % 256
    ∷ x % 256
    ∷ []

unfoldable read : ℕ → ℕ → List ℕ → ℕ × List ℕ
read zero n bs = (n, bs)
read (suc k) n [] = (n, [])
read (suc k) n (b ∷ bs) = read k (n * 256 + b) bs

read-write : (x : ℕ) (rest : List ℕ) → x < 2 ^ 64 → read 8 0 (write x ++ rest) ≡ (x, rest)
unfolding read
read-write x rest h = ap (λ n. (n, rest)) (omega arith)

abbrev network_order : Buffer
network_order = record {
  write_hton_u64 = write;
  read_ntoh_u64 = read 8 0;
  length-write = λ x. refl;
  read-write = read-write;
}

deserialize-serialize_ping_example :
    let h : UdpPingHeader = record { id = 3; seq = 300; ts = 10_000_000_000 } in
    (length (serialize_ping network_order h) ≡ ping_serialized_size)
    × (deserialize_ping network_order (serialize_ping network_order h ++ (7 ∷ [])) ≡ (h, 7 ∷ []))
deserialize-serialize_ping_example =
    deserialize-serialize_ping network_order (record { id = 3; seq = 300; ts = 10_000_000_000 })
      (7 ∷ []) (omega arith) (omega arith) (omega arith)
