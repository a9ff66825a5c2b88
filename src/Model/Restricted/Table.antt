-- ===== src/Model/Restricted/Table.antt =====
-- RestrictedAddr against a table of the internal address ranges.
use tenpm_uptime_monitor.Prelude.{
  ℕ, ◌+◌, ◌*◌, ◌/◌, ◌%◌, ◌^◌, ◌<◌, ◌≡◌, refl, ◌↔◌, ◌⊎◌, inl, inr, ◌≢◌, true, false, List, [], ◌∷◌,
  arith, ℕ_discrete,
}
use tenpm_uptime_monitor.Model.Addr.{
  Addr, invalid, v4, v6, unmap, is_valid, is_loopback, is_private, is_link_local_unicast,
  is_multicast, is_link_local_multicast, is_interface_local_multicast, is_unspecified,
  prefix_contains,
}
use tenpm_uptime_monitor.Model.Addr.Ranges.{InRanges}
use tenpm_uptime_monitor.Model.Restricted.{Net, restricted_addr}
use tenpm_uptime_monitor.Prelude.Text.{Text, text_dec}

-- The first address of 64:ff9b::/96.
abbrev pub nat64 : ℕ
nat64 = 0x64ff9b0000000000000000 * 2 ^ 32

-- Every internal range of 32-bit addresses, as its first address and its length.
abbrev pub internal_v4 : List (ℕ × ℕ)
internal_v4 =
    (0x00000000, 1)
    ∷ (0x0a000000, 2 ^ 24)
    ∷ (0x64400000, 2 ^ 22)
    ∷ (0x7f000000, 2 ^ 24)
    ∷ (0xa9fe0000, 2 ^ 16)
    ∷ (0xac100000, 2 ^ 20)
    ∷ (0xc0000000, 2 ^ 8)
    ∷ (0xc0000200, 2 ^ 8)
    ∷ (0xc0a80000, 2 ^ 16)
    ∷ (0xc6120000, 2 ^ 17)
    ∷ (0xc6336400, 2 ^ 8)
    ∷ (0xcb007100, 2 ^ 8)
    ∷ (0xe0000000, 2 ^ 28)
    ∷ (0xf0000000, 2 ^ 28)
    ∷ []

-- Every internal range of 128-bit addresses but the IPv4-mapped ones.
abbrev pub internal_v6 : List (ℕ × ℕ)
internal_v6 =
    (0, 2)
    ∷ (nat64, 2 ^ 32)
    ∷ (0x2002 * 2 ^ 112, 2 ^ 112)
    ∷ (0x7e * 2 ^ 121, 2 ^ 121)
    ∷ (0x3fa * 2 ^ 118, 2 ^ 118)
    ∷ (0xff * 2 ^ 120, 2 ^ 120)
    ∷ []

-- The address is internal: its range is in a table, or that of the IPv4 address that it maps.
abbrev pub IsInternal : Addr → Type 0
IsInternal invalid = Unit {0}
IsInternal (v4 n) = InRanges internal_v4 n
IsInternal (v6 n zone) =
    ((n / 2 ^ 32 ≡ 0xffff) × InRanges internal_v4 (n % 2 ^ 32))
    ⊎ ((n / 2 ^ 32 ≢ 0xffff) × InRanges internal_v6 n)

abbrev pub Unzoned : Addr → Type 0
Unzoned invalid = Unit {0}
Unzoned (v4 n) = Unit {0}
Unzoned (v6 n zone) = zone ≡ []

-- The predicates of net/netip that the rule asks, opened together.
predicates : Unit {0}
unfolding unmap is_valid is_loopback is_private is_link_local_unicast is_multicast
    is_link_local_multicast is_interface_local_multicast is_unspecified prefix_contains
predicates = tt

restricted_v4_sound :
    (net : Net) (n : ℕ) → (restricted_addr net (v4 n)).0 ≡ true → InRanges internal_v4 n
unfolding restricted_addr predicates
restricted_v4_sound net n h = ground arith

restricted_v4_complete :
    (net : Net) (n : ℕ) → InRanges internal_v4 n → (restricted_addr net (v4 n)).0 ≡ true
unfolding restricted_addr predicates
restricted_v4_complete net n h = ground arith

-- An IPv4-mapped address is judged as the IPv4 address that it maps, whatever its zone.
restricted_addr-mapped :
    (net : Net) (n : ℕ) (zone : Text)
    → n / 2 ^ 32 ≡ 0xffff
    → restricted_addr net (v6 n zone) ≡ restricted_addr net (v4 (n % 2 ^ 32))
unfolding restricted_addr predicates
restricted_addr-mapped net n zone h = ground arith

restricted_v6_sound :
    (net : Net) (n : ℕ)
    → n / 2 ^ 32 ≢ 0xffff
    → (restricted_addr net (v6 n [])).0 ≡ true
    → InRanges internal_v6 n
unfolding restricted_addr predicates
restricted_v6_sound net n h k = ground arith

restricted_v6_complete :
    (net : Net) (n : ℕ)
    → n / 2 ^ 32 ≢ 0xffff
    → InRanges internal_v6 n
    → (restricted_addr net (v6 n [])).0 ≡ true
unfolding restricted_addr predicates text_dec
restricted_v6_complete net n h k = ground arith

restricted_addr_sound :
    (net : Net) (a : Addr) → Unzoned a → (restricted_addr net a).0 ≡ true → IsInternal a
restricted_addr_sound net invalid z h = tt
restricted_addr_sound net (v4 n) z h = restricted_v4_sound net n h
restricted_addr_sound net (v6 n zone) z h = elim (ℕ_discrete (n / 2 ^ 32) 0xffff) [
  | yes e ↦
      inl (e, restricted_v4_sound net (n % 2 ^ 32) (rw (← restricted_addr-mapped net n zone e) h))
  | no ne ↦ inr (ne, restricted_v6_sound net n ne (rw z at h))
]

restricted_addr_complete :
    (net : Net) (a : Addr) → Unzoned a → IsInternal a → (restricted_addr net a).0 ≡ true
unfolding restricted_addr predicates
restricted_addr_complete net invalid z h = refl
restricted_addr_complete net (v4 n) z h = restricted_v4_complete net n h
restricted_addr_complete net (v6 n zone) z (inl (e, h)) =
    rw (restricted_addr-mapped net n zone e) (restricted_v4_complete net (n % 2 ^ 32) h)
restricted_addr_complete net (v6 n zone) z (inr (ne, h)) = rw z (restricted_v6_complete net n ne h)

-- RestrictedAddr refuses an address that carries no zone exactly when the address is the zero Addr
-- or lies in one of the internal ranges of the tables, an IPv4-mapped address by the range of the
-- IPv4 address that it maps.
pub restricted_addr-IsInternal :
    (net : Net) (a : Addr) → Unzoned a → ((restricted_addr net a).0 ≡ true) ↔ IsInternal a
restricted_addr-IsInternal net a z =
    (restricted_addr_sound net a z, restricted_addr_complete net a z)

-- An address of the NAT64 prefix 64:ff9b::/96 is refused without a zone, and with any zone it is
-- accepted, whatever IPv4 address it embeds.
pub zoned_nat64_accepted :
    (net : Net) (embedded : ℕ) (zone : Text)
    → embedded < 2 ^ 32
    → zone ≢ []
    → ((restricted_addr net (v6 (nat64 + embedded) [])).0 ≡ true)
      × ((restricted_addr net (v6 (nat64 + embedded) zone)).0 ≡ false)
unfolding restricted_addr predicates
zoned_nat64_accepted net embedded zone h z =
    (restricted_v6_complete net (nat64 + embedded) (omega arith) (omega arith), ground arith)
