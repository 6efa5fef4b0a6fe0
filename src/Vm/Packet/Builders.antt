-- ===== src/Vm/Packet/Builders.antt =====
-- vm/packet.go: what the accessors of a raw packet read from one that `WithTCP` has made: the bytes of
-- both versions, and the IPv4 packet. `h` is where the protocol stands.
use ipfw_go.Prelude.Int.{pos, negsuc, ◌+ₙ◌}
use ipfw_go.Prelude.{
  false, ℕ, zero, suc, ◌+◌, ◌-◌, ◌*◌, ◌/◌, ◌%◌, ◌≤◌, ◌<◌, [], ◌∷◌, ◌++◌, some, Bytes, ◌==◌, ◌^◌,
  not, ◌||◌, ltb, ltb→lt, lt→ltb, if◌then◌else◌, length, length-append, length-set, get_or, set,
  replicate, ◌≡◌, refl, ap, ap₂, ◌∙◌, arith, Bool-cases, inl, inr,
}
use ipfw_go.Vm.Packet.Ipv4.{
  transport, version, protocol, is_fragment, source_port, destination_port, tcp_flags, grow,
  with_protocol_at, with_protocol, with_tcp,
}
use ipfw_go.Vm.Packet.{
  byte_at, uint16_at, uint8_at, set_ports, ip_version, ipv4_header_len, proto_tcp,
}

get_or-set :
    (xs : Bytes) (i v j : ℕ)
    → i < length xs
    → get_or (set xs i v) j 0 ≡ (if j == i then v else get_or xs j 0)
get_or-set [] i v j h = elim h [ ]
get_or-set (x ∷ xs) zero v zero h = refl
get_or-set (x ∷ xs) zero v (suc j) h = ground arith
get_or-set (x ∷ xs) (suc i) v zero h = ground arith
get_or-set (x ∷ xs) (suc i) v (suc j) h = get_or-set xs i v j (omega arith) ∙ ground arith

length-replicate : (n : ℕ) → length (replicate {A = ℕ} n 0) ≡ n
length-replicate zero = refl
length-replicate (suc n) = ap suc (length-replicate n)

get_or-replicate : (n j : ℕ) → get_or (replicate {A = ℕ} n 0) j 0 ≡ 0
get_or-replicate zero j = refl
get_or-replicate (suc n) zero = refl
get_or-replicate (suc n) (suc j) = get_or-replicate n j

get_or-zeros : (xs : Bytes) (n j : ℕ) → get_or (xs ++ replicate n 0) j 0 ≡ get_or xs j 0
get_or-zeros [] n j = get_or-replicate n j
get_or-zeros (x ∷ xs) n zero = refl
get_or-zeros (x ∷ xs) n (suc j) = get_or-zeros xs n j

length-grow : (m : Bytes) (size : ℕ) → size ≤ length (grow m size)
length-grow m size =
    omega
      (arith, length-append m (replicate (size - length m) 0), length-replicate (size - length m))

module _ (m : Bytes) (flags src dst at h : ℕ) where
  abbrev pub grown : Bytes
  grown = set (grow m (at + 14)) h proto_tcp

  abbrev pub made : Bytes
  made =
      set
        (set (set (set (set grown at (src / 256)) (at + 1) (src % 256)) (at + 2) (dst / 256))
          (at + 3) (dst % 256))
        (at + 13) flags

  length-grown : at + 14 ≤ length grown
  length-grown = omega (arith, length-grow m (at + 14), length-set (grow m (at + 14)) h proto_tcp)

  pub length-made : at + 14 ≤ length made
  length-made =
      let a = set grown at (src / 256) in
      let b = set a (at + 1) (src % 256) in
      let c = set b (at + 2) (dst / 256) in
      let d = set c (at + 3) (dst % 256) in
      omega (
        arith,
        length-grown,
        length-set grown at (src / 256),
        length-set a (at + 1) (src % 256),
        length-set b (at + 2) (dst / 256),
        length-set c (at + 3) (dst % 256),
        length-set d (at + 13) flags,
      )

  -- A byte of the packet that is made.
  byte_made :
      (j : ℕ)
      → 20 ≤ at
      → h < 20
      → byte_at made j ≡ (
          if j == at + 13
          then flags
          else if j == at + 3
          then dst % 256
          else if j == at + 2
          then dst / 256
          else if j == at + 1
          then src % 256
          else if j == at
          then src / 256
          else if j == h
          then proto_tcp
          else byte_at m j)
  byte_made j far near =
      let a = set grown at (src / 256) in
      let b = set a (at + 1) (src % 256) in
      let c = set b (at + 2) (dst / 256) in
      let d = set c (at + 3) (dst % 256) in
      let la = length-set grown at (src / 256) in
      let lb = length-set a (at + 1) (src % 256) in
      let lc = length-set b (at + 2) (dst / 256) in
      let ld = length-set c (at + 3) (dst % 256) in
      rw
        (
          get_or-set d (at + 13) flags j (omega (arith, length-grown)),
          get_or-set c (at + 3) (dst % 256) j (omega (arith, length-grown)),
          get_or-set b (at + 2) (dst / 256) j (omega (arith, length-grown)),
          get_or-set a (at + 1) (src % 256) j (omega (arith, length-grown)),
          get_or-set grown at (src / 256) j (omega (arith, length-grown)),
          get_or-set (grow m (at + 14)) h proto_tcp j (omega (arith, length-grow m (at + 14))),
          get_or-zeros m (at + 14 - length m) j,
        )
        refl

  pub byte_made_below :
      (j : ℕ) → 20 ≤ at → h < 20 → j < 20 → (j == h) ≡ false → byte_at made j ≡ byte_at m j
  byte_made_below j far near below other = byte_made j far near ∙ ground arith

  pub byte_made_h : 20 ≤ at → h < 20 → byte_at made h ≡ proto_tcp
  byte_made_h far near = byte_made h far near ∙ ground arith

  byte_made_at : 20 ≤ at → h < 20 → byte_at made at ≡ src / 256
  byte_made_at far near = byte_made at far near ∙ ground arith

  byte_made_at1 : 20 ≤ at → h < 20 → byte_at made (at + 1) ≡ src % 256
  byte_made_at1 far near = byte_made (at + 1) far near ∙ ground arith

  byte_made_at2 : 20 ≤ at → h < 20 → byte_at made (at + 2) ≡ dst / 256
  byte_made_at2 far near = byte_made (at + 2) far near ∙ ground arith

  byte_made_at3 : 20 ≤ at → h < 20 → byte_at made (at + 2 + 1) ≡ dst % 256
  byte_made_at3 far near = byte_made (at + 2 + 1) far near ∙ ground arith

  byte_made_at13 : 20 ≤ at → h < 20 → byte_at made (at + 13) ≡ flags
  byte_made_at13 far near = byte_made (at + 13) far near ∙ ground arith

  uint16_made :
      (i hi lo value : ℕ)
      → i + 2 ≤ length made
      → byte_at made i ≡ hi
      → byte_at made (i + 1) ≡ lo
      → hi * 256 + lo ≡ value
      → uint16_at made (pos i) ≡ some value
  unfolding uint16_at
  uint16_made i hi lo value within h l v = elim (Bool-cases (ltb (length made) (i + 2))) [
    | inl short ↦ absurd (omega (arith, ltb→lt _ _ short))
    | inr long ↦ rw (long, h, l, v) refl
  ]

  -- The fields of the transport header.
  pub made_ports :
      20 ≤ at
      → h < 20
      → (uint16_at made (pos at) ≡ some src)
        × (uint16_at made (pos (at + 2)) ≡ some dst)
        × (uint8_at made (pos (at + 13)) ≡ some flags)
  unfolding uint8_at
  made_ports far near = (
    uint16_made at (src / 256) (src % 256) src (omega (arith, length-made)) (byte_made_at far near)
        (byte_made_at1 far near) (omega arith),
    uint16_made (at + 2) (dst / 256) (dst % 256) dst (omega (arith, length-made))
        (byte_made_at2 far near) (byte_made_at3 far near) (omega arith),
    rw (lt→ltb (at + 13) (length made) (omega (arith, length-made)), byte_made_at13 far near) refl,
  )

-- A header that is there is past the twenty bytes that it has at least.
transport-far : (m : Bytes) (at : ℕ) → transport m ≡ pos at → 20 ≤ at
unfolding transport
transport-far m at e = ground arith

transport-first :
    (m after : Bytes) (at : ℕ)
    → byte_at after 0 ≡ byte_at m 0
    → transport m ≡ pos at
    → transport after ≡ pos at
unfolding transport
transport-first m after at first e =
    ap (λ b. if ltb (b % 16 * 4) ipv4_header_len then negsuc (2 ^ 30 - 1) else pos (b % 16 * 4))
      first
    ∙ e

-- `WithTCP` on an IPv4 packet whose header length is at least the least one: it does not panic, and
-- the packet that it makes is a TCP one with the ports and the flags given, and of the version that it
-- had, a fragment if it was one.
pub with_tcp-reads :
    (m : Bytes) (flags src dst at : ℕ)
    → transport m ≡ pos at
    → (packet : Bytes) × (with_tcp m flags src dst ≡ some packet)
      × (protocol packet ≡ proto_tcp)
      × (source_port packet ≡ some src)
      × (destination_port packet ≡ some dst)
      × (tcp_flags packet ≡ some flags)
      × (version packet ≡ version m)
      × (is_fragment packet ≡ is_fragment m)
unfolding with_tcp with_protocol with_protocol_at set_ports protocol source_port destination_port
    tcp_flags version is_fragment uint8_at
with_tcp-reads m flags src dst at e =
    let p = made m flags src dst at 9 in
    let far = transport-far m at e in
    let near : 9 < 20 = omega arith in
    let below = λ (j : ℕ) (b : j < 20) (o : (j == 9) ≡ false).
      byte_made_below m flags src dst at 9 j far near b o in
    let t = transport-first m p at (below 0 (omega arith) refl) e in
    let (s, d, f) = made_ports m flags src dst at 9 far near in
    (
      p,
      rw e refl,
      byte_made_h m flags src dst at 9 far near,
      ap (uint16_at p) t ∙ s,
      ap (λ i. uint16_at p (i +ₙ 2)) t ∙ d,
      ap (λ i. uint8_at p (i +ₙ 13)) t ∙ f,
      ap (λ b. ip_version (b / 16)) (below 0 (omega arith) refl),
      ap₂ (λ b c. not (b % 32 == 0) || not (c == 0)) (below 6 (omega arith) refl)
          (below 7 (omega arith) refl),
    )
