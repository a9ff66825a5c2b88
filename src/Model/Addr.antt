-- ===== src/Model/Addr.antt =====
-- Package net/netip as model/restricted.go uses it: addresses, their predicates, and prefixes.
pub mod Ranges
use tenpm_uptime_monitor.Prelude.{
  ℕ, ◌+◌, ◌*◌, ◌/◌, ◌%◌, ◌^◌, Bool, true, false, ◌&&◌, ◌||◌, [], ◌==◌, if◌then◌else◌,
}
use tenpm_uptime_monitor.Prelude.Text.{Text, same}

-- netip.Addr: the zero Addr, a 32-bit address, and a 128-bit address with its zone.
pub data Addr : Type 0 where
  invalid : Addr
  v4 : ℕ → Addr
  v6 : ℕ → Text → Addr

-- The 128-bit address ::ffff:a.b.c.d of a 32-bit address.
abbrev pub mapped : ℕ → ℕ
mapped n = 0xffff * 2 ^ 32 + n

-- Unmap: an IPv4-mapped IPv6 address becomes the IPv4 address, and loses its zone.
unfoldable pub unmap : Addr → Addr
unmap invalid = invalid
unmap (v4 n) = v4 n
unmap (v6 n zone) = if n / 2 ^ 32 == 0xffff then v4 (n % 2 ^ 32) else v6 n zone

-- IsValid
unfoldable pub is_valid : Addr → Bool
is_valid invalid = false
is_valid (v4 n) = true
is_valid (v6 n zone) = true

-- IsLoopback
unfoldable pub is_loopback : Addr → Bool
is_loopback invalid = false
is_loopback (v4 n) = n / 2 ^ 24 == 127
is_loopback (v6 n zone) = n == 1

-- IsPrivate: 10.0.0.0/8, 172.16.0.0/12, 192.168.0.0/16 and fc00::/7.
unfoldable pub is_private : Addr → Bool
is_private invalid = false
is_private (v4 n) = n / 2 ^ 24 == 10 || n / 2 ^ 20 == 0xac1 || n / 2 ^ 16 == 0xc0a8
is_private (v6 n zone) = n / 2 ^ 121 == 0x7e

-- IsLinkLocalUnicast: 169.254.0.0/16 and fe80::/10.
unfoldable pub is_link_local_unicast : Addr → Bool
is_link_local_unicast invalid = false
is_link_local_unicast (v4 n) = n / 2 ^ 16 == 0xa9fe
is_link_local_unicast (v6 n zone) = n / 2 ^ 118 == 0x3fa

-- IsMulticast: 224.0.0.0/4 and ff00::/8.
unfoldable pub is_multicast : Addr → Bool
is_multicast invalid = false
is_multicast (v4 n) = n / 2 ^ 28 == 0xe
is_multicast (v6 n zone) = n / 2 ^ 120 == 0xff

-- IsLinkLocalMulticast: 224.0.0.0/24, and ff_2::/16 whatever the flags.
unfoldable pub is_link_local_multicast : Addr → Bool
is_link_local_multicast invalid = false
is_link_local_multicast (v4 n) = n / 2 ^ 8 == 0xe00000
is_link_local_multicast (v6 n zone) = n / 2 ^ 120 == 0xff && (n / 2 ^ 112) % 16 == 2

-- IsInterfaceLocalMulticast: ff_1::/16 whatever the flags.
unfoldable pub is_interface_local_multicast : Addr → Bool
is_interface_local_multicast invalid = false
is_interface_local_multicast (v4 n) = false
is_interface_local_multicast (v6 n zone) = n / 2 ^ 120 == 0xff && (n / 2 ^ 112) % 16 == 1

-- IsUnspecified compares whole addresses: 0.0.0.0, and :: with no zone.
unfoldable pub is_unspecified : Addr → Bool
is_unspecified invalid = false
is_unspecified (v4 n) = n == 0
is_unspecified (v6 n zone) = n == 0 && same zone []

-- netip.Prefix: its family, its leading bits, how many bits follow them, and its text.
pub data Family : Type 0 where
  ip4 ip6 : Family

pub record Prefix : Type 0 where
  pub family : Family
  pub leading : ℕ
  pub host_bits : ℕ
  pub text : Text

contains_in : Family → ℕ → ℕ → Addr → Bool
contains_in ip4 leading host_bits (v4 n) = n / 2 ^ host_bits == leading
contains_in ip6 leading host_bits (v6 n zone) = same zone [] && n / 2 ^ host_bits == leading
contains_in _ leading host_bits _ = false

-- Prefix.Contains: the families agree, and a zoned address is in no prefix.
unfoldable pub prefix_contains : Prefix → Addr → Bool
unfolding contains_in
prefix_contains p a = contains_in p.family p.leading p.host_bits a
