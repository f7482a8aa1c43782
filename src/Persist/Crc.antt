-- ===== src/Persist/Crc.antt =====
-- hash/crc32: ChecksumIEEE, bit by bit.
use Prim.Native.Nat.{bit_xor}
use hybrid_vector_cache_hnsw.Common.{
  ℕ, zero, suc, ◌/◌, ◌%◌, ◌^◌, ◌<◌, ◌≡◌, refl, [], ◌∷◌, if◌then◌else◌, ◌==◌, arith,
}
use hybrid_vector_cache_hnsw.Common.Bytes.{Bytes, bytes}

shift_bits : ℕ → ℕ → ℕ
shift_bits zero c = c
shift_bits (suc n) c = shift_bits n (if c % 2 == 1 then bit_xor (c / 2) 0xedb88320 else c / 2)

update_bytes : ℕ → Bytes → ℕ
unfolding shift_bits
update_bytes c [] = c
update_bytes c (b ∷ bs) = update_bytes (shift_bits 8 (bit_xor c (b % 256))) bs

-- The result is a uint32.
unfoldable pub crc32 : Bytes → ℕ
unfolding update_bytes
crc32 text = bit_xor (update_bytes 0xffffffff text) 0xffffffff % 2 ^ 32

-- The check value of CRC-32/ISO-HDLC.
crc32_check : crc32 (bytes "123456789") ≡ 0xcbf43926
unfolding crc32
crc32_check = refl

pub crc32_bounds : (text : Bytes) → crc32 text < 2 ^ 32
unfolding crc32
crc32_bounds text = omega arith
