-- ===== src/Tests/Inputs.antt =====
-- Interface masks, tables and raw packets on small inputs.
use ipfw_go.IfMask.Matches.{range_match-mask_class}
use ipfw_go.IfMask.Meaning.{class_meaning, mask_class}
use ipfw_go.IfMask.Total.{mask_run_total}
use ipfw_go.IfMask.{range_match, matched, mismatch, malformed, mask_run, match_if_mask}
use ipfw_go.Prelude.{true, false, List, [], ◌∷◌, some, Bytes, codes, ◌≡◌, refl, replicate, ◌++◌}
use ipfw_go.Prelude.Int.{pos, ◌+ₙ◌}
use ipfw_go.Tests.Data.{nets4}
use ipfw_go.Vm.Packet.Ipv6.{
  is_extension_header, version, layout_run, layout, walked_transport, protocol, is_fragment,
  source_port, destination_port, tcp_flags, icmp_type,
}
use ipfw_go.Vm.Packet.Ipv4
use ipfw_go.Vm.Packet.Ipv4.{transport, with_tcp}
use ipfw_go.Vm.Packet.Builders.{with_tcp-reads}
use ipfw_go.Vm.Packet.Builders6
use ipfw_go.Vm.Packet.Reads6.{with_tcp6-reads}
use ipfw_go.Vm.Tables.{DefaultTables, new_tables}
use ipfw_go.Vm.Packet.Layout.{accessors-layout}
use ipfw_go.Vm.Packet.{v4, uint16_at, uint8_at}
use ipfw_go.Vm.Tables.Prefix.Best.{best, value_part, prefix_lookup-best}
use ipfw_go.Vm.Tables.Prefix.History.{added}
use ipfw_go.Vm.Tables.Prefix.{prefix_lookup, prefix_add}

mask_test :
    (match_if_mask (codes "vlan*[0-9]") (codes "vlan1x7") ≡ true)
    × (match_if_mask (codes "[!a-c]x") (codes "bx") ≡ false)
    × (match_if_mask (codes "a[b") (codes "a[b") ≡ true)
    × (match_if_mask (codes "a\\") (codes "a\\") ≡ true)
    × (match_if_mask (codes "e?h*") (codes "eth0.5") ≡ true)
unfolding match_if_mask
mask_test = (refl, refl, refl, refl, refl)

mask_run_total_example :
    mask_run (codes "vlan*[0-9]") (codes "vlan1x7")
    ≡ some (match_if_mask (codes "vlan*[0-9]") (codes "vlan1x7"))
mask_run_total_example = mask_run_total (codes "vlan*[0-9]") (codes "vlan1x7")

-- Not a byte of `a` to `c`, nor a bracket, which stands first; the escaped bracket closes nothing.
class_test :
    (mask_class (codes "!]a-c\\]]x") b'd' ≡ matched (codes "x"))
    × (mask_class (codes "!]a-c\\]]x") b']' ≡ mismatch)
    × (mask_class (codes "a-c") b'b' ≡ malformed)
unfolding class_meaning
class_test = (refl, refl, refl)

range_match-mask_class_example :
    range_match (codes "!]a-c\\]]x") b'd' ≡ mask_class (codes "!]a-c\\]]x") b'd'
range_match-mask_class_example = range_match-mask_class (codes "!]a-c\\]]x") b'd'

-- The updates of a table, the last one first.
abbrev updates : List (Bytes × Bytes)
updates = (10 ∷ [], codes "1") ∷ (10 ∷ 1 ∷ [], codes "2") ∷ (10 ∷ 1 ∷ [], codes "3") ∷ []

prefix_lookup_test :
    prefix_lookup nets4 (added nets4 updates) (v4 (10 ∷ 1 ∷ 0 ∷ 1 ∷ [])) ≡ some (codes "2")
unfolding prefix_lookup added prefix_add
prefix_lookup_test = refl

prefix_lookup-best_example :
    prefix_lookup nets4 (added nets4 updates) (v4 (10 ∷ 1 ∷ 0 ∷ 1 ∷ []))
    ≡ value_part (best nets4 updates (v4 (10 ∷ 1 ∷ 0 ∷ 1 ∷ [])))
prefix_lookup-best_example = prefix_lookup-best nets4 updates (v4 (10 ∷ 1 ∷ 0 ∷ 1 ∷ []))

-- A fragment header that names a later fragment of a UDP packet.
abbrev later_fragment : Bytes
later_fragment =
    (96 ∷ 0 ∷ 0 ∷ 0 ∷ 0 ∷ 8 ∷ 44 ∷ 64 ∷ replicate 32 0) ++ (17 ∷ 0 ∷ 1 ∷ 0 ∷ 0 ∷ 0 ∷ 0 ∷ 0 ∷ [])

later_fragment_test : (protocol later_fragment ≡ 17) × (is_fragment later_fragment ≡ true)
unfolding protocol is_fragment
later_fragment_test = (refl, refl)

accessors-layout_example :
    (layout_run later_fragment ≡ some (layout later_fragment))
    × (protocol later_fragment ≡ (layout later_fragment).protocol)
    × (is_fragment later_fragment ≡ (layout later_fragment).fragment)
    × (source_port later_fragment ≡ uint16_at later_fragment (walked_transport later_fragment))
    × (destination_port later_fragment
        ≡ uint16_at later_fragment (walked_transport later_fragment +ₙ 2))
    × (tcp_flags later_fragment ≡ uint8_at later_fragment (walked_transport later_fragment +ₙ 13))
    × (icmp_type later_fragment ≡ uint8_at later_fragment (walked_transport later_fragment))
accessors-layout_example = accessors-layout later_fragment

abbrev registered : DefaultTables Bytes Bytes
registered = new_tables {V4 = Bytes} {V6 = Bytes}

-- A header of twenty bytes with nothing but its version.
abbrev bare : Bytes
bare = 69 ∷ replicate 19 0

bare_test : transport bare ≡ pos 20
unfolding transport
bare_test = refl

with_tcp-reads_example :
    (made : Bytes) × (with_tcp bare 2 1024 80 ≡ some made)
    × (Ipv4.protocol made ≡ 6)
    × (Ipv4.source_port made ≡ some 1024)
    × (Ipv4.destination_port made ≡ some 80)
    × (Ipv4.tcp_flags made ≡ some 2)
    × (Ipv4.version made ≡ Ipv4.version bare)
    × (Ipv4.is_fragment made ≡ Ipv4.is_fragment bare)
with_tcp-reads_example = with_tcp-reads bare 2 1024 80 20 bare_test

abbrev bare6 : Bytes
bare6 = 96 ∷ 0 ∷ 0 ∷ 0 ∷ 0 ∷ 0 ∷ 59 ∷ 64 ∷ replicate 32 0

bare6_plain : is_extension_header 59 ≡ false
unfolding is_extension_header
bare6_plain = refl

with_tcp6-reads_example :
    (packet : Bytes) × (Builders6.with_tcp bare6 2 1024 80 ≡ some packet)
    × (protocol packet ≡ 6)
    × (source_port packet ≡ some 1024)
    × (destination_port packet ≡ some 80)
    × (tcp_flags packet ≡ some 2)
    × (is_fragment packet ≡ false)
    × (version packet ≡ version bare6)
with_tcp6-reads_example = with_tcp6-reads bare6 2 1024 80 bare6_plain
