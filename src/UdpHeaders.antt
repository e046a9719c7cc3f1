-- ===== src/UdpHeaders.antt =====
-- model/apps/udp-burst-header.cc and udp-ping-header.cc: the headers of the UDP applications. The
-- buffer of ns-3 is the interface `Buffer`, whose law is what ns-3 documents: a 64-bit number that
-- is written in network order is read again from where it was written.
mod Tests
use basic_sim.Prelude.{
  ℕ, ◌+◌, ◌^◌, ◌<◌, ◌≡◌, refl, sym, ◌∙◌, ap, List, [], ◌++◌, arith, length, length-append,
  append_assoc,
}

pub record Buffer : Type 0 where
  pub write_hton_u64 : ℕ → List ℕ
  pub read_ntoh_u64 : List ℕ → ℕ × List ℕ
  pub length-write : (x : ℕ) → length (write_hton_u64 x) ≡ 8
  pub read-write :
      (x : ℕ) (rest : List ℕ) → x < 2 ^ 64 → read_ntoh_u64 (write_hton_u64 x ++ rest) ≡ (x, rest)

pub record UdpBurstHeader : Type 0 where
  pub id : ℕ
  pub seq : ℕ

pub record UdpPingHeader : Type 0 where
  pub id : ℕ
  pub seq : ℕ
  pub ts : ℕ

abbrev pub burst_serialized_size : ℕ
burst_serialized_size = 8 + 8

abbrev pub ping_serialized_size : ℕ
ping_serialized_size = 8 + 8 + 8

module _ (b : Buffer) where
  open b use {write_hton_u64, read_ntoh_u64, length-write, read-write}

  unfoldable pub serialize_burst : UdpBurstHeader → List ℕ
  serialize_burst h = write_hton_u64 h.id ++ write_hton_u64 h.seq

  -- The header and what stands behind it.
  unfoldable pub deserialize_burst : List ℕ → UdpBurstHeader × List ℕ
  deserialize_burst start =
      let first = read_ntoh_u64 start in
      let second = read_ntoh_u64 first.1 in (record { id = first.0; seq = second.0 }, second.1)

  unfoldable pub serialize_ping : UdpPingHeader → List ℕ
  serialize_ping h = write_hton_u64 h.id ++ (write_hton_u64 h.seq ++ write_hton_u64 h.ts)

  unfoldable pub deserialize_ping : List ℕ → UdpPingHeader × List ℕ
  deserialize_ping start =
      let first = read_ntoh_u64 start in
      let second = read_ntoh_u64 first.1 in
      let third = read_ntoh_u64 second.1 in
      (record { id = first.0; seq = second.0; ts = third.0 }, third.1)

  -- The header of a burst has its announced size, and it is read again before any payload.
  pub deserialize-serialize_burst :
      (h : UdpBurstHeader) (payload : List ℕ)
      → h.id < 2 ^ 64
      → h.seq < 2 ^ 64
      → (length (serialize_burst h) ≡ burst_serialized_size)
        × (deserialize_burst (serialize_burst h ++ payload) ≡ (h, payload))
  unfolding serialize_burst deserialize_burst
  deserialize-serialize_burst h payload hi hs = (
    omega (
      arith,
      length-append (write_hton_u64 h.id) (write_hton_u64 h.seq),
      length-write h.id,
      length-write h.seq,
    ),
    rw
        (
          append_assoc (write_hton_u64 h.id) (write_hton_u64 h.seq) payload,
          read-write h.id (write_hton_u64 h.seq ++ payload) hi,
          read-write h.seq payload hs,
        )
        refl,
  )

  -- The header of a ping has its announced size, and it is read again before any payload.
  pub deserialize-serialize_ping :
      (h : UdpPingHeader) (payload : List ℕ)
      → h.id < 2 ^ 64
      → h.seq < 2 ^ 64
      → h.ts < 2 ^ 64
      → (length (serialize_ping h) ≡ ping_serialized_size)
        × (deserialize_ping (serialize_ping h ++ payload) ≡ (h, payload))
  unfolding serialize_ping deserialize_ping
  deserialize-serialize_ping h payload hi hs ht =
      let w = λ (x : ℕ). write_hton_u64 x in
      (
        omega (
          arith,
          length-append (w h.id) (w h.seq ++ w h.ts),
          length-append (w h.seq) (w h.ts),
          length-write h.id,
          length-write h.seq,
          length-write h.ts,
        ),
        rw
            (
              append_assoc (w h.id) (w h.seq ++ w h.ts) payload,
              append_assoc (w h.seq) (w h.ts) payload,
              read-write h.id (w h.seq ++ (w h.ts ++ payload)) hi,
              read-write h.seq (w h.ts ++ payload) hs,
              read-write h.ts payload ht,
            )
            refl,
      )
