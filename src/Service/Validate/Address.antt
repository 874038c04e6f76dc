-- ===== src/Service/Validate/Address.antt =====
-- isPublicIP of service/url_service.go against blocks of IPv4 addresses.
use go_url_shortener.Base.{
  ℕ, ◌+◌, ◌*◌, ◌<◌, ◌≡◌, Bool, true, false, ◌&&◌, ◌||◌, not, leb, arith, ◌/◌, ◌==◌ as nat_eq,
  if◌then◌else◌,
}
use go_url_shortener.Service.Validate.{
  v4, is_loopback, is_link_local_unicast, is_link_local_multicast, is_multicast, is_unspecified,
  is_broadcast, is_public_ip,
}

-- The address as one number.
abbrev pub address : ℕ → ℕ → ℕ → ℕ → ℕ
address a b c d = ((a * 256 + b) * 256 + c) * 256 + d

unfoldable pub block : ℕ → ℕ → ℕ → Bool
block n lo hi = leb lo n && leb n hi

-- 0.0.0.0, 10.0.0.0/8, 127.0.0.0/8, 169.254.0.0/16, 172.16.0.0/12, 192.168.0.0/16, 224.0.0.0/4 and
-- 255.255.255.255
abbrev pub is_reserved : ℕ → Bool
is_reserved n =
    block n 0 0
    || block n 0x0a000000 0x0affffff
    || block n 0x7f000000 0x7fffffff
    || block n 0xa9fe0000 0xa9feffff
    || block n 0xac100000 0xac1fffff
    || block n 0xc0a80000 0xc0a8ffff
    || block n 0xe0000000 0xefffffff
    || block n 0xffffffff 0xffffffff

module _ {a b c d : ℕ} (ha : a < 256) (hb : b < 256) (hc : c < 256) (hd : d < 256) where
  loopback_block : is_loopback (v4 a b c d) ≡ block (address a b c d) 0x7f000000 0x7fffffff
  unfolding block
  loopback_block = ground arith

  unspecified_block : is_unspecified (v4 a b c d) ≡ block (address a b c d) 0 0
  unfolding block
  unspecified_block = ground arith

  broadcast_block : is_broadcast (v4 a b c d) ≡ block (address a b c d) 0xffffffff 0xffffffff
  unfolding block
  broadcast_block = ground arith

  multicast_block : is_multicast (v4 a b c d) ≡ block (address a b c d) 0xe0000000 0xefffffff
  unfolding block
  multicast_block = ground arith

  link_local_block :
      is_link_local_unicast (v4 a b c d) ≡ block (address a b c d) 0xa9fe0000 0xa9feffff
  unfolding block
  link_local_block = ground arith

  ten_block : nat_eq a 10 ≡ block (address a b c d) 0x0a000000 0x0affffff
  unfolding block
  ten_block = ground arith

  twelve_block : (nat_eq a 172 && nat_eq (b / 16) 1) ≡ block (address a b c d) 0xac100000 0xac1fffff
  unfolding block
  twelve_block = ground arith

  sixteen_block : (nat_eq a 192 && nat_eq b 168) ≡ block (address a b c d) 0xc0a80000 0xc0a8ffff
  unfolding block
  sixteen_block = ground arith

-- The test of 224.0.0.0/24 adds nothing to that of 224.0.0.0/4.
link_local_multicast_redundant :
    (a b c d : ℕ) → is_multicast (v4 a b c d) ≡ false → is_link_local_multicast (v4 a b c d) ≡ false
link_local_multicast_redundant a b c d h = ground arith

ladder :
    (z t l k w s m lm x : Bool)
    → (m ≡ false → lm ≡ false)
    → (if l
        then false
        else if t || w || s
        then false
        else if k
        then false
        else if lm
        then false
        else if m
        then false
        else if z
        then false
        else if x
        then false
        else true)
      ≡ not (z || t || l || k || w || s || m || x)
ladder z t l k w s m lm x h = ground arith

-- An IPv4 address is public exactly where, as one number, it lies outside the eight reserved blocks.
pub is_public_ip-v4 :
    (a b c d : ℕ)
    → a < 256
    → b < 256
    → c < 256
    → d < 256
    → is_public_ip (v4 a b c d) ≡ not (is_reserved (address a b c d))
unfolding is_public_ip
is_public_ip-v4 a b c d ha hb hc hd =
    rw
      (
        ← unspecified_block ha hb hc hd,
        ← ten_block ha hb hc hd,
        ← loopback_block ha hb hc hd,
        ← link_local_block ha hb hc hd,
        ← twelve_block ha hb hc hd,
        ← sixteen_block ha hb hc hd,
        ← multicast_block ha hb hc hd,
        ← broadcast_block ha hb hc hd,
      )
      (ladder (is_unspecified (v4 a b c d)) (nat_eq a 10) (is_loopback (v4 a b c d))
        (is_link_local_unicast (v4 a b c d)) (nat_eq a 172 && nat_eq (b / 16) 1)
        (nat_eq a 192 && nat_eq b 168) (is_multicast (v4 a b c d))
        (is_link_local_multicast (v4 a b c d)) (is_broadcast (v4 a b c d))
        (link_local_multicast_redundant a b c d))
