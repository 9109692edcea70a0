-- ===== src/Massifs/Snowflake/Worker.antt =====
-- massifs/snowflakeid/privateip.go: the worker id and the bits of the sequence number, from a
-- network and an address. The parsers of the net package are arguments.
use Prim.Native.Nat.{bit_and}
use go_merklelog.Base.{
  ℕ, zero, suc, ◌-◌, Bool, ◌&&◌, ◌||◌, Option, none, some, [], ◌∷◌, ◌++◌, length,
}
use go_merklelog.Base.{ltb, ◌==◌, if◌then◌else◌, bytes_equal}
use go_merklelog.Base.Bits.{len64}
use go_merklelog.Base.Buffers.{Bytes, take, drop, zeros, read_byte, read_bytes, uint16}
use go_merklelog.Base.Results.{ok, err, panic, ◌>>=◌}
use go_merklelog.Massifs.Snowflake.{R, cidr_error, bad_pod_ip, mask_range, max_worker_bits}

-- What `net.ParseCIDR` gives for the mask, what `net.ParseIP` gives, and `IP.IsPrivate`.
pub record Net : Type 0 where
  pub parse_cidr : Bytes → Option Bytes
  pub parse_ip : Bytes → Option Bytes
  pub is_private : Bytes → Bool

-- `mask[i] = ^mask[i]` for the first `n` bytes
unfoldable pub invert_ip_mask : ℕ → Bytes → R Bytes
invert_ip_mask zero mask = ok mask
invert_ip_mask (suc n) [] = panic
invert_ip_mask (suc n) (x ∷ mask) = invert_ip_mask n mask >>= λ rest. ok ((255 - x) ∷ rest)

unfoldable pub check_mask : Bytes → R Bytes
check_mask mask = read_byte mask 0 >>= λ m0. read_byte mask 1 >>= λ m1. read_byte mask 2 >>= λ m2.
    read_byte mask 3 >>= λ m3.
    (if ltb 0 m0 || ltb 0 m1
      then err mask_range
      else if m2 == 0 && ltb m3 255
      then err mask_range
      else ok mask)

unfoldable pub parse_mask : Net → Bytes → R Bytes
parse_mask net worker_cidr = elim (net.parse_cidr worker_cidr) [
  | none ↦ err cidr_error
  | some mask ↦ invert_ip_mask 4 mask >>= λ inverted. check_mask inverted
]

unfoldable pub parse_private_ip : Net → Bytes → R Bytes
parse_private_ip net pod_ip = elim (net.parse_ip pod_ip) [
  | none ↦ err bad_pod_ip
  | some ip ↦ if net.is_private ip then ok ip else err bad_pod_ip
]

unfoldable pub and_bytes : Bytes → Bytes → Bytes
and_bytes [] ys = []
and_bytes (x ∷ xs) [] = []
and_bytes (x ∷ xs) (y ∷ ys) = bit_and x y ∷ and_bytes xs ys

-- the prefix of an IPv4 address in 16 bytes
abbrev pub v4_in_v6_prefix : Bytes
v4_in_v6_prefix = zeros 10 ++ (255 ∷ 255 ∷ [])

-- the prefix of a mask in 16 bytes that is one of an IPv4 address
abbrev pub all_ff : Bytes
all_ff = 255 ∷ 255 ∷ 255 ∷ 255 ∷ 255 ∷ 255 ∷ 255 ∷ 255 ∷ 255 ∷ 255 ∷ 255 ∷ 255 ∷ []

-- `IP.Mask`, which cuts a long mask for a short address and a long address for a short mask; the
-- empty list is nil
unfoldable pub short_mask : Bytes → Bytes → Bytes
short_mask ip mask =
    if bytes_equal (take 12 mask) all_ff && length mask == 16 && length ip == 4
    then drop 12 mask
    else mask

unfoldable pub short_ip : Bytes → Bytes → Bytes
short_ip ip mask =
    if bytes_equal (take 12 ip) v4_in_v6_prefix && length mask == 4 && length ip == 16
    then drop 12 ip
    else ip

unfoldable pub and_mask : Bytes → Bytes → Bytes
and_mask ip mask = if length ip == length mask then and_bytes ip mask else []

unfoldable pub ip_mask : Bytes → Bytes → Bytes
ip_mask ip mask = let mask = short_mask ip mask in and_mask (short_ip ip mask) mask

unfoldable pub worker_id_sequence_bits : Net → Bytes → Bytes → R (ℕ × ℕ)
worker_id_sequence_bits net worker_cidr pod_ip = parse_mask net worker_cidr >>= λ mask.
    parse_private_ip net pod_ip >>= λ ip. read_bytes mask 2 2 >>= λ low_mask.
    read_bytes (ip_mask ip mask) 2 2 >>= λ masked.
    ok (uint16 masked, max_worker_bits - len64 (uint16 low_mask))
