-- ===== src/Bacnet/Encode/Laws.antt =====
-- What the encoders of fwEDR/internal/bacnet/codec.go write: big-endian bytes that stand for the value.
use native.Mathlib.Nat.{pow-suc, pow-le-pow_right}
use dcim_data_reader.Prelude.{
  ℕ, zero, suc, ◌+◌, ◌-◌, ◌*◌, ◌/◌, ◌^◌, ◌≤◌, ◌<◌, ◌≡◌, refl, List, [], ◌∷◌, ◌==◌, length, drop,
  shr, arith, Bool-cases, inl, inr, min, max, bit_or, bit_or-disjoint, ==_iff,
}
use dcim_data_reader.Bacnet.Encode.{
  byte, bit_len_loop, bit_len, put_uint32, enc_app_uint, enc_app_enum, enc_ctx_uint,
}

-- The number that big-endian bytes stand for, after the digits of `v`.
abbrev pub be_from : ℕ → List ℕ → ℕ
be_from v [] = v
be_from v (b ∷ bs) = be_from (v * 256 + b) bs

abbrev pub AllBytes : List ℕ → Type 0
AllBytes [] = Unit
AllBytes (b ∷ bs) = (b < 256) × AllBytes bs

-- The loop counts the bits of `v`, if it is given a round for each.
bit_len_loop_lem :
    (f v n : ℕ)
    → v < 2 ^ f
    → (k : ℕ) × (bit_len_loop f v n ≡ n + k) × (v < 2 ^ k) × (k ≤ f) × (0 < v → 0 < k)
unfolding bit_len_loop
bit_len_loop_lem zero v n h = (0, omega arith, h, omega arith, λ p. omega arith)
bit_len_loop_lem (suc f) v n h = elim (Bool-cases (v == 0)) [
  | inl e ↦ (0, rw e (omega arith), ground arith, omega arith, λ p. ground arith)
  | inr e ↦
      let half : v < 2 ^ f * 2 = rw pow-suc at h in
      let (k, eq, lt, le, _) = bit_len_loop_lem f (shr v 1) (n + 1) (omega arith) in
      (suc k, rw e (omega arith), omega (arith, pow-suc 2 k), omega arith, λ p. omega arith)
]

two_pow_mono : (k m : ℕ) → k ≤ m → 2 ^ k ≤ 2 ^ m
two_pow_mono k m h = pow-le-pow_right (omega arith) h

-- The bits of a 32-bit word fit in `(bitLen(v) + 7) / 8` bytes, of which there are at most four.
pub bytes_fit :
    (v : ℕ)
    → v < 2 ^ 32
    → (v < 256 ^ ((bit_len v + 7) / 8))
      × ((bit_len v + 7) / 8 ≤ 4)
      × (0 < v → 0 < (bit_len v + 7) / 8)
unfolding bit_len
bytes_fit v h =
    let (k, eq, lt, le, pos) = bit_len_loop_lem 32 v 0 h in
    let e : (bit_len v + 7) / 8 ≡ (k + 7) / 8 = omega arith in
    rw e (fits k ((k + 7) / 8) lt le refl, omega arith, λ p. omega (arith, pos p))
  where
    fits : (k n : ℕ) → v < 2 ^ k → k ≤ 32 → n ≡ (k + 7) / 8 → v < 256 ^ n
    fits k zero lt le e = let z : k ≡ 0 = omega arith in rw z at lt
    fits k (suc zero) lt le e = omega (arith, two_pow_mono k 8 (omega arith))
    fits k (suc (suc zero)) lt le e = omega (arith, two_pow_mono k 16 (omega arith))
    fits k (suc (suc (suc zero))) lt le e = omega (arith, two_pow_mono k 24 (omega arith))
    fits k (suc (suc (suc (suc n)))) lt le e = let z : n ≡ 0 = omega arith in rw z h

-- The last `n` bytes of the big-endian word stand for a value that fits in them.
pub put_uint32_tail :
    (n v : ℕ)
    → n ≤ 4
    → v < 256 ^ n
    → (be_from 0 (drop (4 - n) (put_uint32 v)) ≡ v)
      × (length (drop (4 - n) (put_uint32 v)) ≡ n)
      × AllBytes (drop (4 - n) (put_uint32 v))
unfolding put_uint32
put_uint32_tail zero v h m = (omega arith, refl, tt)
put_uint32_tail (suc zero) v h m = (omega arith, refl, omega arith)
put_uint32_tail (suc (suc zero)) v h m = (omega arith, refl, omega arith)
put_uint32_tail (suc (suc (suc zero))) v h m = (omega arith, refl, omega arith)
put_uint32_tail (suc (suc (suc (suc zero)))) v h m = (omega arith, refl, omega arith)
put_uint32_tail (suc (suc (suc (suc (suc n))))) v h m = absurd (omega arith)

-- A tag byte `tag + n` and `n` bytes, one to four, that stand for `v`.
pub record Tagged (tag v : ℕ) (bytes : List ℕ) : Type 0 where
  pub payload : List ℕ
  pub layout : bytes ≡ (tag + length payload) ∷ payload
  pub some_bytes : 0 < length payload
  pub few_bytes : length payload ≤ 4
  pub are_bytes : AllBytes payload
  pub value : be_from 0 payload ≡ v

tail_Tagged :
    (tag v n : ℕ)
    → 0 < n
    → n ≤ 4
    → v < 256 ^ n
    → Tagged tag v ((tag + n) ∷ drop (4 - n) (put_uint32 v))
tail_Tagged tag v n p h m =
    let (e, l, b) = put_uint32_tail n v h m in
    record {
      payload = drop (4 - n) (put_uint32 v);
      layout = rw l;
      some_bytes = omega arith;
      few_bytes = omega arith;
      are_bytes = b;
      value = e;
    }

zero_Tagged : (tag : ℕ) → Tagged tag 0 ((tag + 1) ∷ 0 ∷ [])
zero_Tagged tag = record {
  payload = 0 ∷ [];
  layout = refl;
  some_bytes = omega arith;
  few_bytes = omega arith;
  are_bytes = (omega arith, tt);
  value = refl;
}

-- The tag byte: `n` in the low three bits of `tag`, whose low three bits are clear.
tag_byte : (hi n : ℕ) → n < 8 → hi < 32 → byte (bit_or (hi * 8) n) ≡ hi * 8 + n
tag_byte hi n h m = omega (arith, bit_or-disjoint 3 hi n h)

module _ (v : ℕ) (h : v < 2 ^ 32) where
  pub enc_app_uint-Tagged : Tagged 0x20 v (enc_app_uint v)
  unfolding enc_app_uint
  enc_app_uint-Tagged = elim (Bool-cases (v == 0)) [
    | inl e ↦ rw (e, (==_iff v 0).0 e) (zero_Tagged 0x20)
    | inr e ↦
        let (m, few, pos) = bytes_fit v h in
        let n = (bit_len v + 7) / 8 in
        let c : min n 4 ≡ n = omega arith in
        rw (e, c, tag_byte 4 n (omega arith) (omega arith))
          (tail_Tagged 0x20 v n (pos (ground arith)) few m)
  ]

  pub enc_app_enum-Tagged : Tagged 0x90 v (enc_app_enum v)
  unfolding enc_app_enum
  enc_app_enum-Tagged =
      let (m, few, pos) = bytes_fit v h in
      let n = max ((bit_len v + 7) / 8) 1 in
      let c : min n 4 ≡ n = omega arith in
      rw (c, tag_byte 18 n (omega arith) (omega arith))
        (tail_Tagged 0x90 v n (omega arith) (omega arith) (wider ((bit_len v + 7) / 8) m))
    where
      wider : (k : ℕ) → v < 256 ^ k → v < 256 ^ max k 1
      wider zero l = omega arith
      wider (suc k) l = let e : max (suc k) 1 ≡ suc k = omega arith in rw e l

  -- A context tag of a number below 16 that has a length of one to four.
  ctx_byte :
      (ctx n : ℕ) → ctx < 16 → n < 8 → byte (bit_or (bit_or (ctx * 16) 0x08) n) ≡ ctx * 16 + 8 + n
  ctx_byte ctx n m l = rw (bit_or-disjoint 4 ctx 8 (omega arith)) (
      let e : ctx * 2 ^ 4 + 8 ≡ (ctx * 2 + 1) * 8 = omega arith in
      rw e (omega (arith, tag_byte (ctx * 2 + 1) n l (omega arith))))

  pub enc_ctx_uint-Tagged : (ctx : ℕ) → ctx < 16 → Tagged (ctx * 16 + 8) v (enc_ctx_uint ctx v)
  unfolding enc_ctx_uint
  enc_ctx_uint-Tagged ctx c = elim (Bool-cases (v == 0)) [
    | inl e ↦ rw (e, (==_iff v 0).0 e, ctx_byte ctx 1 c (omega arith)) (zero_Tagged (ctx * 16 + 8))
    | inr e ↦
        let (m, few, pos) = bytes_fit v h in
        let n = (bit_len v + 7) / 8 in
        rw (e, (put_uint32_tail n v few m).1, ctx_byte ctx n c (omega arith))
          (tail_Tagged (ctx * 16 + 8) v n (pos (ground arith)) few m)
  ]
