-- ===== src/Vm/Packet/Layout.antt =====
-- The walk along the extension headers of an IPv6 packet ends, and the accessors that skip it where
-- there is no extension header give what it would.
use ipfw_go.Prelude.Int.{pos, ◌+ₙ◌}
use ipfw_go.Prelude.{
  ℕ, zero, suc, ◌+◌, ◌-◌, ◌≤◌, ◌<◌, Bool, true, false, not, ◌&&◌, ◌||◌, some, Bytes, ◌==◌, ==_iff,
  ltb, ltb→lt, not_ltb→le, length, ◌≡◌, refl, sym, ap, ◌∙◌, arith, Bool-cases, inl, inr,
}
use ipfw_go.Vm.Packet.Ipv6.{
  Ipv6Layout, is_extension_header, is_followed, header_need, header_length, is_later_fragment, walk,
  layout_run, or_no_layout, layout, out_of_reach, walked_transport, protocol, is_fragment,
  source_port, destination_port, tcp_flags, icmp_type,
}
use ipfw_go.Vm.Packet.{byte_at, uint16_at, uint8_at, ipv6_header_len}

-- The mask of the fast path and the cases of the walk, on the numbers below a bound.
abbrev agree : ℕ → Bool
agree p =
    (is_extension_header p && is_followed p) || (not (is_extension_header p) && not (is_followed p))

all_agree : ℕ → Bool
all_agree zero = true
all_agree (suc b) = agree b && all_agree b

all_agree-lt : (b p : ℕ) → all_agree b ≡ true → p < b → agree p ≡ true
unfolding all_agree
all_agree-lt zero p h lt = elim lt [ ]
all_agree-lt (suc b) p h lt = elim (Bool-cases (p == b)) [
  | inl e ↦ rw ((==_iff p b).0 e) (ground arith)
  | inr e ↦ all_agree-lt b p (ground arith) (ground arith)
]

agree_below : all_agree 64 ≡ true
unfolding all_agree is_extension_header is_followed
agree_below = refl

high_lem : (p : ℕ) → 64 ≤ p → is_extension_header p ≡ is_followed p
unfolding is_extension_header is_followed
high_lem p h = ground arith

-- A protocol is in the mask exactly when the walk goes on at its header.
is_extension_header-is_followed : (p : ℕ) → is_extension_header p ≡ is_followed p
is_extension_header-is_followed p = elim (Bool-cases (ltb p 64)) [
  | inl low ↦ let h = all_agree-lt 64 p agree_below (ltb→lt p 64 low) in ground arith
  | inr high ↦ high_lem p (not_ltb→le p 64 high)
]

header_length-le : (m : Bytes) (p at : ℕ) → 8 ≤ header_length m p at
header_length-le m p at = ground arith

need_later : (p at : ℕ) → at < at + header_need p
need_later p at = ground arith

shorter :
    (len need at by f : ℕ)
    → at < need
    → need ≤ len
    → 8 ≤ by
    → len - at < suc f
    → len - (at + by) < f
shorter len need at by f a b c d = omega arith

-- The walk moves at least eight bytes on at each header, inside the packet.
walk_total :
    (f : ℕ) (m : Bytes) (p next at : ℕ)
    → length m - at < f
    → (l : Ipv6Layout) × (walk f m p next at ≡ some l)
unfolding walk
walk_total zero m p next at h = absurd (omega arith)
walk_total (suc f) m p next at h = elim (Bool-cases (is_followed p)) [
  | inr done ↦ rw done (_, refl)
  | inl more ↦ elim (Bool-cases (ltb (length m) (at + header_need p))) [
    | inl short ↦ rw (more, short) (_, refl)
    | inr long ↦ elim (Bool-cases (is_later_fragment m p at)) [
      | inl later ↦ rw (more, long, later) (_, refl)
      | inr first ↦
          rw (more, long, first)
            (walk_total f m (byte_at m at) at (at + header_length m p at) (
              shorter (length m) (at + header_need p) at (header_length m p at) f (need_later p at)
                (not_ltb→le _ _ long) (header_length-le m p at) h))
    ]
  ]
]

-- The walk of any packet ends.
layout_run_total : (m : Bytes) → layout_run m ≡ some (layout m)
unfolding layout_run layout
layout_run_total m =
    let (l, e) = walk_total (length m + 1) m (byte_at m 6) 6 ipv6_header_len (omega arith) in
    rw e refl

abbrev pub first_layout : Bytes → Ipv6Layout
first_layout m = record {
  protocol = byte_at m 6;
  next_header = 6;
  transport = pos ipv6_header_len;
  fragment = false;
}

walk-first :
    (f : ℕ) (m : Bytes)
    → is_followed (byte_at m 6) ≡ false
    → walk (suc f) m (byte_at m 6) 6 ipv6_header_len ≡ some (first_layout m)
unfolding walk
walk-first f m h = rw h refl

-- Without an extension header the walk stops where it starts.
pub layout-first :
    (m : Bytes) → is_extension_header (byte_at m 6) ≡ false → layout m ≡ first_layout m
unfolding layout layout_run
layout-first m h =
    let f : length m + 1 ≡ suc (length m) = omega arith in
    ap (λ k. or_no_layout (walk k m (byte_at m 6) 6 ipv6_header_len)) f
    ∙ ap or_no_layout
        (walk-first (length m) m (sym (is_extension_header-is_followed (byte_at m 6)) ∙ h))

-- The walk along the extension headers of any packet ends, and what the accessors read is what the
-- walk gives, whether or not they took it: the protocol, whether the packet is a later fragment, and
-- where the ports, the flags and the ICMP type stand.
pub accessors-layout :
    (m : Bytes)
    → (layout_run m ≡ some (layout m))
      × (protocol m ≡ (layout m).protocol)
      × (is_fragment m ≡ (layout m).fragment)
      × (source_port m ≡ uint16_at m (walked_transport m))
      × (destination_port m ≡ uint16_at m (walked_transport m +ₙ 2))
      × (tcp_flags m ≡ uint8_at m (walked_transport m +ₙ 13))
      × (icmp_type m ≡ uint8_at m (walked_transport m))
unfolding protocol is_fragment source_port destination_port tcp_flags icmp_type walked_transport
accessors-layout m = elim (Bool-cases (is_extension_header (byte_at m 6))) [
  | inl walked ↦ rw walked (layout_run_total m, refl, refl, refl, refl, refl, refl)
  | inr direct ↦
      let at = layout-first m direct in
      let found = ap (λ (l : Ipv6Layout). out_of_reach l.transport) at in
      rw direct (
        layout_run_total m,
        sym (ap (λ l. l.protocol) at),
        sym (ap (λ l. l.fragment) at),
        sym (ap (uint16_at m) found),
        sym (ap (λ i. uint16_at m (i +ₙ 2)) found),
        sym (ap (λ i. uint8_at m (i +ₙ 13)) found),
        sym (ap (uint8_at m) found),
      )
]
