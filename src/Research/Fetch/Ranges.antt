-- ===== src/Research/Fetch/Ranges.antt =====
-- The addresses that publicIP (Research/Fetch) lets through, as ranges of numbers.
use daiki_aipass_backend.Prelude.{
  ℕ, ◌+◌, ◌*◌, ◌/◌, ◌%◌, ◌<◌, Bool, true, false, List, ◌≡◌, refl, arith, leb, ◌==◌, ◌&&◌, ◌||◌, not,
}
use daiki_aipass_backend.Research.Fetch.{
  Address, nil, four, sixteen, all_zero, zeros_and_one, public_ip,
}

-- The 32 bits of an IPv4 address.
abbrev pub number : (a b c d : ℕ) → ℕ
number a b c d = ((a * 256 + b) * 256 + c) * 256 + d

abbrev pub within : ℕ → ℕ → ℕ → Bool
within low high n = leb low n && leb n high

-- Loopback, private, link-local, multicast or unspecified.
abbrev pub is_reserved : ℕ → Bool
is_reserved n =
    within 0x7f00_0000 0x7fff_ffff n
    || (within 0x0a00_0000 0x0aff_ffff n
        || within 0xac10_0000 0xac1f_ffff n
        || within 0xc0a8_0000 0xc0a8_ffff n)
    || within 0xa9fe_0000 0xa9fe_ffff n
    || within 0xe000_0000 0xefff_ffff n
    || (n == 0)

module _ (a b c d : ℕ) (hb : b < 256) (hc : c < 256) (hd : d < 256) where
  loopback_range : (a == 127) ≡ within 0x7f00_0000 0x7fff_ffff (number a b c d)
  loopback_range = ground arith

  ten_range : (a == 10) ≡ within 0x0a00_0000 0x0aff_ffff (number a b c d)
  ten_range = ground arith

  twelve_bits : ((a == 172) && (b / 16 == 1)) ≡ within 0xac10_0000 0xac1f_ffff (number a b c d)
  twelve_bits = ground arith

  sixteen_bits : ((a == 192) && (b == 168)) ≡ within 0xc0a8_0000 0xc0a8_ffff (number a b c d)
  sixteen_bits = ground arith

  link_local : ((a == 169) && (b == 254)) ≡ within 0xa9fe_0000 0xa9fe_ffff (number a b c d)
  link_local = ground arith

  multicast_range : (a / 16 == 14) ≡ within 0xe000_0000 0xefff_ffff (number a b c d)
  multicast_range = ground arith

  unspecified_lem : ((a == 0) && (b == 0) && (c == 0) && (d == 0)) ≡ (number a b c d == 0)
  unspecified_lem = ground arith

local_multicast : (a b c : ℕ) → ((a == 224) && (b == 0) && (c == 0)) ≡ true → (a / 16 == 14) ≡ true
local_multicast a b c h = ground arith

-- The tests of the code as one disjunction; what is `local` is also `multi`.
joined :
    (loop private link local multi none : Bool)
    → (local ≡ true → multi ≡ true)
    → (not loop && not private && not link && not local && not multi && not none)
      ≡ not (loop || private || link || multi || none)
joined true private link local multi none h = refl
joined false true link local multi none h = refl
joined false false true local multi none h = refl
joined false false false true multi none h = rw (h refl)
joined false false false false multi none h = not-or multi none
  where
    not-or : (p q : Bool) → (not p && not q) ≡ not (p || q)
    not-or true q = refl
    not-or false q = refl

-- An IPv4 address passes exactly if its number is in none of the reserved ranges.
pub public_ip-four :
    (a b c d : ℕ)
    → b < 256
    → c < 256
    → d < 256
    → public_ip (four a b c d) ≡ not (is_reserved (number a b c d))
unfolding public_ip
public_ip-four a b c d hb hc hd =
    rw
      (
        ← loopback_range a b c d hb hc hd,
        ← ten_range a b c d hb hc hd,
        ← twelve_bits a b c d hb hc hd,
        ← sixteen_bits a b c d hb hc hd,
        ← link_local a b c d hb hc hd,
        ← multicast_range a b c d hb hc hd,
        ← unspecified_lem a b c d hb hc hd,
      )
      (joined _ _ _ _ _ _ (local_multicast a b c))

module _ (x y : ℕ) (hy : y < 256) where
  zero_lem : ((x == 0) && (y == 0)) ≡ (x * 256 + y == 0)
  zero_lem = ground arith

  unique_local : (x / 2 == 126) ≡ within 0xfc00 0xfdff (x * 256 + y)
  unique_local = ground arith

  link_local_six : ((x == 254) && (y / 64 == 2)) ≡ within 0xfe80 0xfebf (x * 256 + y)
  link_local_six = ground arith

  multicast_six : (x == 255) ≡ within 0xff00 0xffff (x * 256 + y)
  multicast_six = ground arith

and_assoc : (p q r : Bool) → (p && q && r) ≡ ((p && q) && r)
and_assoc true q r = refl
and_assoc false q r = refl

local_multicast_six : (x y : ℕ) → ((x == 255) && (y % 16 == 2)) ≡ true → (x == 255) ≡ true
local_multicast_six x y h = ground arith

-- The ranges of the first 16 bits, and the loopback and the unspecified address.
abbrev pub is_reserved_six : ℕ → List ℕ → Bool
is_reserved_six m rest =
    ((m == 0) && zeros_and_one rest)
    || within 0xfc00 0xfdff m
    || within 0xfe80 0xfebf m
    || within 0xff00 0xffff m
    || ((m == 0) && all_zero rest)

public_ip-sixteen :
    (x y : ℕ) (rest : List ℕ)
    → y < 256
    → public_ip (sixteen x y rest) ≡ not (is_reserved_six (x * 256 + y) rest)
unfolding public_ip
public_ip-sixteen x y rest hy =
    rw
      (
        ← zero_lem x y hy,
        ← unique_local x y hy,
        ← link_local_six x y hy,
        ← multicast_six x y hy,
        ← and_assoc (x == 0) (y == 0) (zeros_and_one rest),
        ← and_assoc (x == 0) (y == 0) (all_zero rest),
      )
      (joined _ _ _ _ _ _ (local_multicast_six x y))

-- The bytes of an address below its first are bytes.
abbrev pub IsAddress : Address → Type 0
IsAddress nil = Unit
IsAddress (four a b c d) = (b < 256) × (c < 256) × (d < 256)
IsAddress (sixteen x y rest) = y < 256

abbrev pub is_reserved_address : Address → Bool
is_reserved_address nil = true
is_reserved_address (four a b c d) = is_reserved (number a b c d)
is_reserved_address (sixteen x y rest) = is_reserved_six (x * 256 + y) rest

-- publicIP lets an address through exactly if it is none of these: no address at all; of IPv4, a
-- number in 127.0.0.0/8, 10.0.0.0/8, 172.16.0.0/12, 192.168.0.0/16, 169.254.0.0/16 or 224.0.0.0/4,
-- or 0.0.0.0; of IPv6, one in fc00::/7, fe80::/10 or ff00::/8, or ::1, or ::.
pub public_ip-ranges : (ip : Address) → IsAddress ip → public_ip ip ≡ not (is_reserved_address ip)
unfolding public_ip
public_ip-ranges nil h = refl
public_ip-ranges (four a b c d) h = public_ip-four a b c d h.0 h.1 h.2
public_ip-ranges (sixteen x y rest) h = public_ip-sixteen x y rest h
