-- ===== src/Types.antt =====
-- The helpers of src/tinybase-types.h that the modules use. The arguments are unsigned words.
pub mod Endian
pub mod FirstBit
use tiny_base.Base.{ℕ, ◌*◌, ◌/◌, ◌%◌, ◌^◌, bit_and, bit_or}
use tiny_base.Base.Word.{u16, u32, ◌<<<◌, ◌>>>◌}

pub flip_endian16 : ℕ → ℕ
flip_endian16 i = bit_or (bit_and (i >>> 8) 0xFF) (bit_and (i <<< 8) 0xFF00)

pub flip_endian16x2 : ℕ → ℕ
flip_endian16x2 i = u32 (bit_or (flip_endian16 (u16 i)) (flip_endian16 (u16 (i >>> 16)) <<< 16))

pub flip_endian32 : ℕ → ℕ
flip_endian32 i =
    bit_or
      (bit_or (bit_or (bit_and (i >>> 24) 0xFF) (bit_and (i >>> 8) 0xFF00))
        (bit_and (u32 (i <<< 8)) 0xFF0000))
      (bit_and (u32 (i <<< 24)) 0xFF000000)
