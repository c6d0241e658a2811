-- ===== src/Bacnet/Tag/RoundTrip.antt =====
-- The tag encoders and the tag decoders together (fwEDR/internal/bacnet/codec.go).
use dcim_data_reader.Prelude.{
  ==_iff, ℕ, ◌+◌, ◌-◌, ◌*◌, ◌^◌, ◌≤◌, ◌<◌, ◌≡◌, refl, ap, ◌∙◌, some, List, [], ◌∷◌, ◌++◌, true,
  false, length, lt→leb, drop, shr, shl32, low_bits, bit_set, arith, bit_or, bit_or-disjoint, ok,
  lt_here, index_here, drop_next, length-append, length-drop, ◌⊎◌, inl, inr,
}
use dcim_data_reader.Bacnet.Encode.{
  byte, put_uint32, enc_app_uint, enc_app_enum, enc_ctx_uint, enc_app_oid, enc_ctx_open,
  enc_ctx_close, pack_oid,
}
use dcim_data_reader.Bacnet.Encode.Laws.{
  be_from, AllBytes, Tagged, enc_app_uint-Tagged, enc_app_enum-Tagged, enc_ctx_uint-Tagged,
}
use dcim_data_reader.Bacnet.Tag.{
  uint32_be, decode_oid, read_tag_hdr, opening, closing, whole, read_uint32, decode_unsigned,
  decode_app_value,
}

be_from-ge : (v : ℕ) (bs : List ℕ) → v ≤ be_from v bs
be_from-ge v [] = omega arith
be_from-ge v (b ∷ bs) = omega (arith, be_from-ge (v * 256 + b) bs)

-- The loop over big-endian bytes gives the number that they stand for.
read_uint32_lem :
    (frame : List ℕ) (p v : ℕ) (bs rest : List ℕ)
    → drop p frame ≡ bs ++ rest
    → AllBytes bs
    → be_from v bs < 2 ^ 32
    → read_uint32 frame p (length bs) v ≡ ok (be_from v bs)
unfolding read_uint32
read_uint32_lem frame p v [] rest h b l = refl
read_uint32_lem frame p v (x ∷ bs) rest h b l =
    let small : v * 256 + x < 2 ^ 32 = omega (arith, be_from-ge (v * 256 + x) bs) in
    let step : bit_or (shl32 v 8) x ≡ v * 256 + x =
      omega (arith, bit_or-disjoint 8 v x b.0, ap (λ (t : ℕ). bit_or t x) (wrap v x small)) in
    rw (index_here frame p h, step)
      (read_uint32_lem frame (p + 1) (v * 256 + x) bs rest (drop_next frame p h) b.1 l)
  where
    wrap : (v x : ℕ) → v * 256 + x < 2 ^ 32 → shl32 v 8 ≡ v * 2 ^ 8
    wrap v x s = omega arith

decode_unsigned_lem :
    (frame : List ℕ) (p v : ℕ) (bs rest : List ℕ)
    → p ≤ length frame
    → drop p frame ≡ bs ++ rest
    → AllBytes bs
    → be_from 0 bs ≡ v
    → v < 2 ^ 32
    → decode_unsigned frame p (length bs) ≡ ok (some (whole v, p + length bs))
unfolding decode_unsigned
decode_unsigned_lem frame p v bs rest inside h b e l = ground (
  arith,
  read_uint32_lem frame p 0 bs rest h b (rw e l),
  length-drop p frame,
  ap length h,
  length-append bs rest,
)

-- An application tag 2 or 9 and its bytes are decoded to the value that they stand for.
decode_Tagged :
    (tag v : ℕ) (frame : List ℕ) (pos : ℕ) (bytes rest : List ℕ)
    → (tag ≡ 0x20) ⊎ (tag ≡ 0x90)
    → Tagged tag v bytes
    → v < 2 ^ 32
    → drop pos frame ≡ bytes ++ rest
    → decode_app_value frame pos ≡ ok (some (whole v, pos + length bytes))
unfolding decode_app_value
decode_Tagged tag v frame pos bytes rest which t l h =
    let n = length t.payload in
    let here : drop pos frame ≡ (tag + n) ∷ (t.payload ++ rest) =
      h ∙ ap (λ bs. bs ++ rest) t.layout in
    let low : low_bits (tag + n) 3 ≡ n = omega (arith, t) in
    let size : length bytes ≡ n + 1 = omega (arith, ap length t.layout) in
    rw (lt→leb _ _ (lt_here frame pos here), index_here frame pos here, low, size)
      (ground (
        arith,
        decode_unsigned_lem frame (pos + 1) v t.payload rest (omega (arith, lt_here frame pos here))
            (drop_next frame pos here) t.are_bytes t.value l,
      ))

-- readTagHdr on a context tag with a value of one to seven bytes but five.
read_ctx_tag :
    (frame : List ℕ) (pos ctx n : ℕ) (rest : List ℕ)
    → ctx < 15
    → n < 5
    → drop pos frame ≡ (ctx * 16 + 8 + n) ∷ rest
    → read_tag_hdr frame pos
      ≡ ok (record {
        tag_num = ctx;
        is_ctx = true;
        is_open = false;
        is_close = false;
        vlen = n;
        new_pos = pos + 1;
      })
unfolding read_tag_hdr
read_ctx_tag frame pos ctx n rest c l h =
    let num : low_bits (shr (ctx * 16 + 8 + n) 4) 4 ≡ ctx = omega arith in
    let flag : bit_set (ctx * 16 + 8 + n) 3 ≡ true = (==_iff _ 1).1 (omega arith) in
    let low : low_bits (ctx * 16 + 8 + n) 3 ≡ n = omega arith in
    rw (lt→leb _ _ (lt_here frame pos h), index_here frame pos h, num, flag, low) (ground arith)

-- Four bytes joined by `|` are joined by `+`.
bit_or_bytes :
    (a b c d : ℕ)
    → b < 256
    → c < 256
    → d < 256
    → bit_or (bit_or (bit_or (a * 2 ^ 24) (b * 2 ^ 16)) (c * 2 ^ 8)) d
      ≡ ((a * 256 + b) * 256 + c) * 256 + d
bit_or_bytes a b c d hb hc hd =
    let e : a * 2 ^ 24 + b * 2 ^ 16 ≡ (a * 256 + b) * 2 ^ 16 = omega arith in
    let f : (a * 256 + b) * 2 ^ 16 + c * 2 ^ 8 ≡ ((a * 256 + b) * 256 + c) * 2 ^ 8 = omega arith in
    rw (
      bit_or-disjoint 24 a (b * 2 ^ 16) (omega arith),
      e,
      bit_or-disjoint 16 (a * 256 + b) (c * 2 ^ 8) (omega arith),
      f,
      bit_or-disjoint 8 ((a * 256 + b) * 256 + c) d (omega arith),
    )

-- Big-endian bytes are read back.
uint32_be-put_uint32 : (v : ℕ) → v < 2 ^ 32 → uint32_be (put_uint32 v) ≡ ok v
unfolding uint32_be put_uint32
uint32_be-put_uint32 v h =
    rw
      (bit_or_bytes (byte (shr v 24)) (byte (shr v 16)) (byte (shr v 8)) (byte v) (omega arith)
        (omega arith) (omega arith))
      (ap ok (omega arith))

-- Where encAppUint has written a number below 2 ^ 32, anywhere in a frame, decodeAppValue reads
-- that number and returns the position behind it.
pub decode_app_value-enc_app_uint :
    (frame rest : List ℕ) (pos v : ℕ)
    → v < 2 ^ 32
    → drop pos frame ≡ enc_app_uint v ++ rest
    → decode_app_value frame pos ≡ ok (some (whole v, pos + length (enc_app_uint v)))
decode_app_value-enc_app_uint frame rest pos v l h =
    decode_Tagged 0x20 v frame pos (enc_app_uint v) rest (inl refl) (enc_app_uint-Tagged v l) l h

-- Where encAppEnum has written an enumeration below 2 ^ 32, anywhere in a frame, decodeAppValue
-- reads that number and returns the position behind it.
pub decode_app_value-enc_app_enum :
    (frame rest : List ℕ) (pos v : ℕ)
    → v < 2 ^ 32
    → drop pos frame ≡ enc_app_enum v ++ rest
    → decode_app_value frame pos ≡ ok (some (whole v, pos + length (enc_app_enum v)))
decode_app_value-enc_app_enum frame rest pos v l h =
    decode_Tagged 0x90 v frame pos (enc_app_enum v) rest (inr refl) (enc_app_enum-Tagged v l) l h

pack_oid_lem : (t i : ℕ) → t < 1024 → i < 2 ^ 22 → pack_oid t i ≡ t * 2 ^ 22 + i
unfolding pack_oid
pack_oid_lem t i h m =
    let hi : shl32 (low_bits t 10) 22 ≡ t * 2 ^ 22 = omega arith in
    let lo : low_bits i 22 ≡ i = omega arith in rw (hi, lo, bit_or-disjoint 22 t i m)

-- decodeOID gives back the object type below 1024 and the instance below 2 ^ 22 that encAppOID
-- writes behind its tag byte.
pub decode_oid-enc_app_oid :
    (t i : ℕ)
    → t < 1024
    → i < 2 ^ 22
    → decode_oid (drop 1 (enc_app_oid t i)) ≡ ok (record { obj_type = t; inst = i })
unfolding decode_oid enc_app_oid
decode_oid-enc_app_oid t i h m =
    let e = pack_oid_lem t i h m in
    let type_bits : low_bits (shr (t * 2 ^ 22 + i) 22) 10 ≡ t = omega arith in
    let inst_bits : low_bits (t * 2 ^ 22 + i) 22 ≡ i = omega arith in
    rw (e, uint32_be-put_uint32 (t * 2 ^ 22 + i) (omega arith), type_bits, inst_bits)

-- Where encCtxUint has written a number below 2 ^ 32 under a context number below 15, anywhere
-- in a frame, readTagHdr reads that context number, no opening or closing, and a length and a
-- position that take in exactly the bytes of the value.
pub read_tag_hdr-enc_ctx_uint :
    (frame rest : List ℕ) (pos ctx v : ℕ)
    → ctx < 15
    → v < 2 ^ 32
    → drop pos frame ≡ enc_ctx_uint ctx v ++ rest
    → read_tag_hdr frame pos
      ≡ ok (record {
        tag_num = ctx;
        is_ctx = true;
        is_open = false;
        is_close = false;
        vlen = length (enc_ctx_uint ctx v) - 1;
        new_pos = pos + 1;
      })
read_tag_hdr-enc_ctx_uint frame rest pos ctx v c l h =
    let t = enc_ctx_uint-Tagged v l ctx (omega arith) in
    let size : length (enc_ctx_uint ctx v) - 1 ≡ length t.payload =
      omega (arith, ap length t.layout) in
    rw size (
      read_ctx_tag frame pos ctx (length t.payload) (t.payload ++ rest) c (omega (arith, t))
        (h ∙ ap (λ bs. bs ++ rest) t.layout))

-- Where encCtxOpen has written the opening tag of a context number below 15, anywhere in a
-- frame, readTagHdr reads that opening and returns the position behind it.
pub read_tag_hdr-enc_ctx_open :
    (frame rest : List ℕ) (pos ctx : ℕ)
    → ctx < 15
    → drop pos frame ≡ enc_ctx_open ctx ++ rest
    → read_tag_hdr frame pos ≡ ok (opening ctx (pos + 1))
unfolding read_tag_hdr enc_ctx_open
read_tag_hdr-enc_ctx_open frame rest pos ctx c h =
    let tag : byte (bit_or (ctx * 16) 14) ≡ ctx * 16 + 14 =
      omega (arith, bit_or-disjoint 4 ctx 14 (omega arith)) in
    let here : drop pos frame ≡ (ctx * 16 + 14) ∷ rest = rw tag at h in
    let num : low_bits (shr (ctx * 16 + 14) 4) 4 ≡ ctx = omega arith in
    let flag : bit_set (ctx * 16 + 14) 3 ≡ true = (==_iff _ 1).1 (omega arith) in
    let low : low_bits (ctx * 16 + 14) 3 ≡ 6 = omega arith in
    rw (lt→leb _ _ (lt_here frame pos here), index_here frame pos here, num, flag, low)
      (ground arith)

-- Where encCtxClose has written the closing tag of a context number below 15, anywhere in a
-- frame, readTagHdr reads that closing and returns the position behind it.
pub read_tag_hdr-enc_ctx_close :
    (frame rest : List ℕ) (pos ctx : ℕ)
    → ctx < 15
    → drop pos frame ≡ enc_ctx_close ctx ++ rest
    → read_tag_hdr frame pos ≡ ok (closing ctx (pos + 1))
unfolding read_tag_hdr enc_ctx_close
read_tag_hdr-enc_ctx_close frame rest pos ctx c h =
    let tag : byte (bit_or (ctx * 16) 15) ≡ ctx * 16 + 15 =
      omega (arith, bit_or-disjoint 4 ctx 15 (omega arith)) in
    let here : drop pos frame ≡ (ctx * 16 + 15) ∷ rest = rw tag at h in
    let num : low_bits (shr (ctx * 16 + 15) 4) 4 ≡ ctx = omega arith in
    let flag : bit_set (ctx * 16 + 15) 3 ≡ true = (==_iff _ 1).1 (omega arith) in
    let low : low_bits (ctx * 16 + 15) 3 ≡ 7 = omega arith in
    rw (lt→leb _ _ (lt_here frame pos here), index_here frame pos here, num, flag, low)
      (ground arith)
