-- ===== src/Net/Tests.antt =====
-- Runs of kernel/net.c.
use piux_kernel.Prelude.{
  ℕ, ◌/◌, ◌%◌, ◌≡◌, refl, arith, List, [], ◌∷◌, ◌++◌, CString, codes, some, none,
}
use mathlib.Core.Bool.{Bool}
use piux_kernel.Net.{net_checksum, net_parse_ip, net_format_ip, scan_host}
use piux_kernel.Net.Checksum.{checksum_verifies}
use piux_kernel.Net.IpText.{parse-format}

-- The header of a packet from 10.0.2.15 to 10.0.2.2, in front of and behind its checksum field.
abbrev front : List ℕ
front = 0x45 ∷ 0 ∷ 0 ∷ 84 ∷ 0 ∷ 1 ∷ 0 ∷ 0 ∷ 64 ∷ 1 ∷ []

abbrev back : List ℕ
back = 10 ∷ 0 ∷ 2 ∷ 15 ∷ 10 ∷ 0 ∷ 2 ∷ 2 ∷ []

checksum_verifies_example :
    let c = net_checksum (front ++ (0 ∷ 0 ∷ back)) 0 in
    net_checksum (front ++ ((c / 256) ∷ (c % 256) ∷ back)) 0 ≡ 0
checksum_verifies_example =
    checksum_verifies front back 0 (omega arith) (omega arith) tt (omega arith) (omega arith)

checksum_run : net_checksum (front ++ (0 ∷ 0 ∷ back)) 0 ≡ 0x6298
unfolding net_checksum
checksum_run = refl

parse-format_example : net_parse_ip (net_format_ip 0x0a00_020f) ≡ some 0x0a00_020f
parse-format_example = parse-format 0x0a00_020f (omega arith)

format_run : net_format_ip 0x0a00_02ff ≡ codes "10.0.2.255"
unfolding net_format_ip
format_run = refl

-- A fifth part is stored with a negative shift.
parse_run :
    (net_parse_ip (codes "1.2") ≡ some 0x0102_0000) × (net_parse_ip (codes "1.2.3.4.5") ≡ none)
unfolding net_parse_ip
parse_run = (refl, refl)

host_run :
    (scan_host (codes "10.0.2.2") Bool.false ≡ some Bool.false)
    × (scan_host (codes "gnu.org") Bool.false ≡ some Bool.true)
    × (scan_host (codes "my-host") Bool.false ≡ none)
unfolding scan_host
host_run = (refl, refl, refl)

abbrev label : CString
label = codes "ocalhost"
