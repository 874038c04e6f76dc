-- ===== src/Service/Validate/Reserved.antt =====
-- isPublicIP of service/url_service.go against blocks of IPv6 addresses, and of both kinds.
use go_url_shortener.Base.{
  ℕ, ◌+◌, ◌*◌, ◌<◌, ◌≤◌, ◌≡◌, refl, Bool, true, false, ◌||◌, not, List, [], ◌∷◌, arith,
  ◌==◌ as nat_eq, if◌then◌else◌,
}
use go_url_shortener.Service.Validate.{
  Ip, v4, v6, all_zero, is_v6_loopback, is_private, is_link_local_unicast, is_link_local_multicast,
  is_multicast, is_public_ip,
}
use go_url_shortener.Service.Validate.Address.{address, block, is_reserved, is_public_ip-v4}

-- The bytes after those of a number, as one number.
pub number_from : ℕ → List ℕ → ℕ
number_from n [] = n
number_from n (b ∷ bs) = number_from (n * 256 + b) bs

le-number_from : (n : ℕ) (bs : List ℕ) → n ≤ number_from n bs
unfolding number_from
le-number_from n [] = omega arith
le-number_from n (b ∷ bs) = let later = le-number_from (n * 256 + b) bs in omega arith

number_from-zero : (bs : List ℕ) → all_zero bs ≡ nat_eq (number_from 0 bs) 0
unfolding number_from
number_from-zero [] = refl
number_from-zero (b ∷ bs) = ground (arith, le-number_from b bs, number_from-zero bs)

number_from-one : (bs : List ℕ) → is_v6_loopback bs ≡ nat_eq (number_from 0 bs) 1
unfolding number_from
number_from-one [] = refl
number_from-one (b ∷ []) = ground arith
number_from-one (b ∷ c ∷ bs) =
    ground (arith, le-number_from (b * 256 + c) bs, number_from-one (c ∷ bs))

-- ::, ::1, fc00::/7, fe80::/10 and ff00::/8, by the first two bytes and the whole address as numbers
abbrev pub is_reserved_v6 : ℕ → ℕ → Bool
is_reserved_v6 group n =
    nat_eq n 0
    || nat_eq n 1
    || block group 0xfc00 0xfdff
    || block group 0xfe80 0xfebf
    || block group 0xff00 0xffff

module _ {a b : ℕ} (rest : List ℕ) (ha : a < 256) (hb : b < 256) where
  private_block : is_private (v6 (a ∷ b ∷ rest)) ≡ block (a * 256 + b) 0xfc00 0xfdff
  unfolding block
  private_block = ground arith

  link_local_block : is_link_local_unicast (v6 (a ∷ b ∷ rest)) ≡ block (a * 256 + b) 0xfe80 0xfebf
  unfolding block
  link_local_block = ground arith

  multicast_block : is_multicast (v6 (a ∷ b ∷ rest)) ≡ block (a * 256 + b) 0xff00 0xffff
  unfolding block
  multicast_block = ground arith

link_local_multicast_redundant :
    (bs : List ℕ) → is_multicast (v6 bs) ≡ false → is_link_local_multicast (v6 bs) ≡ false
link_local_multicast_redundant bs h = ground arith

ladder :
    (l p k lm m z : Bool)
    → (m ≡ false → lm ≡ false)
    → (if l
        then false
        else if p
        then false
        else if k
        then false
        else if lm
        then false
        else if m
        then false
        else if z
        then false
        else if false
        then false
        else true)
      ≡ not (z || l || p || k || m)
ladder l p k lm m z h = ground arith

is_public_ip-v6 :
    (a b : ℕ) (rest : List ℕ)
    → a < 256
    → b < 256
    → is_public_ip (v6 (a ∷ b ∷ rest))
      ≡ not (is_reserved_v6 (a * 256 + b) (number_from 0 (a ∷ b ∷ rest)))
unfolding is_public_ip
is_public_ip-v6 a b rest ha hb =
    rw
      (
        ← number_from-zero (a ∷ b ∷ rest),
        ← number_from-one (a ∷ b ∷ rest),
        ← private_block rest ha hb,
        ← link_local_block rest ha hb,
        ← multicast_block rest ha hb,
      )
      (ladder (is_v6_loopback (a ∷ b ∷ rest)) (is_private (v6 (a ∷ b ∷ rest)))
        (is_link_local_unicast (v6 (a ∷ b ∷ rest))) (is_link_local_multicast (v6 (a ∷ b ∷ rest)))
        (is_multicast (v6 (a ∷ b ∷ rest))) (all_zero (a ∷ b ∷ rest))
        (link_local_multicast_redundant (a ∷ b ∷ rest)))

-- Four bytes, or sixteen of which the first two matter as bytes.
unfoldable pub IsAddress : Ip → Type 0
IsAddress (v4 a b c d) = (a < 256) × (b < 256) × (c < 256) × (d < 256)
IsAddress (v6 (a ∷ b ∷ rest)) = (a < 256) × (b < 256)
IsAddress (v6 bs) = ⊥

unfoldable pub is_special : Ip → Bool
is_special (v4 a b c d) = is_reserved (address a b c d)
is_special (v6 (a ∷ b ∷ rest)) = is_reserved_v6 (a * 256 + b) (number_from 0 (a ∷ b ∷ rest))
is_special (v6 bs) = true

-- An address is public exactly where it lies outside the reserved blocks: an IPv4 address, as one
-- number, outside 0.0.0.0, 10.0.0.0/8, 127.0.0.0/8, 169.254.0.0/16, 172.16.0.0/12, 192.168.0.0/16,
-- 224.0.0.0/4 and 255.255.255.255; an IPv6 address outside ::, ::1, fc00::/7, fe80::/10 and
-- ff00::/8.
pub is_public_ip-is_special : (ip : Ip) → IsAddress ip → is_public_ip ip ≡ not (is_special ip)
unfolding IsAddress is_special
is_public_ip-is_special (v4 a b c d) (ha, hb, hc, hd) = is_public_ip-v4 a b c d ha hb hc hd
is_public_ip-is_special (v6 (a ∷ b ∷ rest)) (ha, hb) = is_public_ip-v6 a b rest ha hb
is_public_ip-is_special (v6 (a ∷ [])) bad = absurd bad
is_public_ip-is_special (v6 []) bad = absurd bad
