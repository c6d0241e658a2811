-- ===== src/Bacnet/Encode.antt =====
-- The tag encoders of fwEDR/internal/bacnet/codec.go. A `uint32` argument is a number that the
-- theorems bound by 2 ^ 32; an `int` one is converted by `uint32(…)` as the source does.
pub mod Laws
use dcim_data_reader.Prelude.{
  ℕ, zero, suc, ◌+◌, ◌-◌, ◌*◌, ◌/◌, ◌%◌, ◌^◌, List, [], ◌∷◌, true, false, ◌==◌, if◌then◌else◌,
  length, drop, shr, low_bits, shl32, bit_or, min, max,
}

-- `uint32(n)` and `byte(n)`
abbrev pub u32 : ℕ → ℕ
u32 n = n % 2 ^ 32

abbrev pub byte : ℕ → ℕ
byte n = n % 256

-- `for v > 0 { n++; v >>= 1 }`. A 32-bit word is 0 after 32 rounds.
unfoldable pub bit_len_loop : ℕ → ℕ → ℕ → ℕ
bit_len_loop zero v n = n
bit_len_loop (suc f) v n = let rest = bit_len_loop f (shr v 1) (n + 1) in if v == 0 then n else rest

unfoldable pub bit_len : ℕ → ℕ
unfolding bit_len_loop
bit_len v = bit_len_loop 32 v 0

-- binary.BigEndian.PutUint32
unfoldable pub put_uint32 : ℕ → List ℕ
put_uint32 v = byte (shr v 24) ∷ byte (shr v 16) ∷ byte (shr v 8) ∷ byte v ∷ []

unfoldable pub enc_app_uint : ℕ → List ℕ
enc_app_uint val =
    if val == 0
    then 0x21 ∷ 0x00 ∷ []
    else let n = min ((bit_len val + 7) / 8) 4 in
      byte (bit_or 0x20 n) ∷ drop (4 - n) (put_uint32 val)

unfoldable pub enc_app_enum : ℕ → List ℕ
enc_app_enum val =
    let n = min (max ((bit_len val + 7) / 8) 1) 4 in
    byte (bit_or 0x90 n) ∷ drop (4 - n) (put_uint32 val)

-- `((objType & 0x3FF) << 22) | (instance & 0x3FFFFF)`
unfoldable pub pack_oid : ℕ → ℕ → ℕ
pack_oid obj_type instance_num = bit_or (shl32 (low_bits obj_type 10) 22) (low_bits instance_num 22)

unfoldable pub enc_app_oid : ℕ → ℕ → List ℕ
enc_app_oid obj_type instance_num = 0xc4 ∷ put_uint32 (pack_oid obj_type instance_num)

unfoldable pub enc_ctx_uint : ℕ → ℕ → List ℕ
enc_ctx_uint ctx val =
    let payload : List ℕ =
      if val == 0 then 0x00 ∷ [] else drop (4 - (bit_len val + 7) / 8) (put_uint32 val) in
    byte (bit_or (bit_or (ctx * 16) 0x08) (length payload)) ∷ payload

unfoldable pub enc_ctx_oid : ℕ → ℕ → ℕ → List ℕ
enc_ctx_oid ctx obj_type instance_num =
    byte (bit_or (bit_or (ctx * 16) 0x08) 4)
    ∷ put_uint32 (pack_oid (u32 obj_type) (u32 instance_num))

unfoldable pub enc_ctx_open : ℕ → List ℕ
enc_ctx_open ctx = byte (bit_or (ctx * 16) 0x0e) ∷ []

unfoldable pub enc_ctx_close : ℕ → List ℕ
enc_ctx_close ctx = byte (bit_or (ctx * 16) 0x0f) ∷ []
