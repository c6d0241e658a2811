-- ===== src/Bacnet/Tag.antt =====
-- The tag decoders of fwEDR/internal/bacnet/codec.go: decodeOID, readTagHdr, decodeAppValue and
-- skipToClose.
pub mod Safe
pub mod RoundTrip
use dcim_data_reader.Prelude.{
  ℕ, zero, suc, ◌+◌, ◌-◌, ◌*◌, ◌^◌, Bool, true, false, not, ◌&&◌, ◌||◌, Option, none, some, List,
  [], ◌∷◌, ltb, leb, ◌==◌, if◌then◌else◌, length, shr, low_bits, shl32, bit_set, bit_or, Run, ok,
  err, panic, hang, Round, again, leave, loop, ◌>>=◌, index, slice, attempt,
}
use dcim_data_reader.Bacnet.Frame.{Error, short}

-- binary.BigEndian.Uint32
unfoldable pub uint32_be : List ℕ → Run Error ℕ
uint32_be b = do
  b3 ← index b 3
  b0 ← index b 0
  b1 ← index b 1
  b2 ← index b 2
  ok (bit_or (bit_or (bit_or (b0 * 2 ^ 24) (b1 * 2 ^ 16)) (b2 * 2 ^ 8)) b3)

pub record Oid : Type 0 where
  pub obj_type : ℕ
  pub inst : ℕ

unfoldable pub decode_oid : List ℕ → Run Error Oid
unfolding uint32_be
decode_oid b = do
  v ← uint32_be b
  ok (record { obj_type = low_bits (shr v 22) 10; inst = low_bits v 22 })

-- What readTagHdr returns beside its error.
pub record TagHdr : Type 0 where
  pub tag_num : ℕ
  pub is_ctx : Bool
  pub is_open : Bool
  pub is_close : Bool
  pub vlen : ℕ
  pub new_pos : ℕ

-- The tag number and the position after it, from the high nibble `raw`.
read_tag_num : List ℕ → ℕ → ℕ → Run Error (ℕ × ℕ)
read_tag_num frame raw pos =
    if raw == 0x0f
    then (if leb (length frame) pos then err short else do b ← index frame pos; ok (b, pos + 1))
    else ok (raw, pos)

-- The value's length and the position after it, from the low bits `len_enc`.
read_vlen : List ℕ → ℕ → ℕ → Run Error (ℕ × ℕ)
unfolding uint32_be
read_vlen frame len_enc pos =
    if len_enc == 5
    then (if leb (length frame) pos then err short else do
      ext ← index frame pos
      let pos1 = pos + 1
      if ext == 254
          then (if ltb (length frame) (pos1 + 2) then err short else do
            hi ← index frame pos1
            lo ← index frame (pos1 + 1)
            ok (bit_or (hi * 2 ^ 8) lo, pos1 + 2))
          else (if ext == 255
              then (if ltb (length frame) (pos1 + 4) then err short else do
                window ← slice frame pos1 (pos1 + 4)
                v ← uint32_be window
                ok (v, pos1 + 4))
              else ok (ext, pos1)))
    else ok (len_enc, pos)

-- Opening and closing context tags have no length.
abbrev pub opening : ℕ → ℕ → TagHdr
opening tag_num pos = record {
  tag_num = tag_num;
  is_ctx = true;
  is_open = true;
  is_close = false;
  vlen = 0;
  new_pos = pos;
}

abbrev pub closing : ℕ → ℕ → TagHdr
closing tag_num pos = record {
  tag_num = tag_num;
  is_ctx = true;
  is_open = false;
  is_close = true;
  vlen = 0;
  new_pos = pos;
}

-- From the tag number on.
read_tag_rest : List ℕ → Bool → ℕ → ℕ → ℕ → Run Error TagHdr
unfolding read_vlen
read_tag_rest frame is_ctx len_enc tag_num pos =
    if is_ctx && len_enc == 6
    then ok (opening tag_num pos)
    else if is_ctx && len_enc == 7
    then ok (closing tag_num pos)
    else do
      (vlen, new_pos) ← read_vlen frame len_enc pos
      ok (record {
        tag_num = tag_num;
        is_ctx = is_ctx;
        is_open = false;
        is_close = false;
        vlen = vlen;
        new_pos = new_pos;
      })

unfoldable pub read_tag_hdr : List ℕ → ℕ → Run Error TagHdr
unfolding read_tag_num read_tag_rest
read_tag_hdr frame pos = if leb (length frame) pos then err short else do
  b ← index frame pos
  (tag_num, pos1) ← read_tag_num frame (low_bits (shr b 4) 4) (pos + 1)
  read_tag_rest frame (bit_set b 3) (low_bits b 3) tag_num pos1

-- decodeAppValue makes a float64 of a whole number, exactly, or of the bits of a float32.
pub data Scalar : Type 0 where
  whole : ℕ → Scalar
  float32 : ℕ → Scalar

-- `for i := 0; i < n; i++ { v = v<<8 | uint32(data[p+i]) }`
unfoldable pub read_uint32 : List ℕ → ℕ → ℕ → ℕ → Run Error ℕ
read_uint32 frame p zero v = ok v
read_uint32 frame p (suc n) v = do
  b ← index frame p
  read_uint32 frame (p + 1) n (bit_or (shl32 v 8) b)

-- Case 8: the first byte counts unused bits, the next one's high nibble is the value.
decode_bit_string : List ℕ → ℕ → ℕ → Run Error (Option (Scalar × ℕ))
decode_bit_string frame p len_enc =
    if ltb len_enc 1 || ltb (length frame) (p + len_enc)
    then ok none
    else if leb 2 len_enc
    then (do b ← index frame (p + 1); ok (some (whole (shr b 4), p + len_enc)))
    else ok (some (whole 0, p + len_enc))

-- Cases 2 and 9.
decode_unsigned : List ℕ → ℕ → ℕ → Run Error (Option (Scalar × ℕ))
unfolding read_uint32
decode_unsigned frame p len_enc =
    if ltb (length frame) (p + len_enc)
    then ok none
    else do v ← read_uint32 frame p len_enc 0; ok (some (whole v, p + len_enc))

-- Case 4.
decode_real : List ℕ → ℕ → Run Error (Option (Scalar × ℕ))
unfolding uint32_be
decode_real frame p =
    if ltb (length frame) (p + 4)
    then ok none
    else do bits ← slice frame p (p + 4) >>= uint32_be; ok (some (float32 bits, p + 4))

unfoldable pub decode_app_value : List ℕ → ℕ → Run Error (Option (Scalar × ℕ))
unfolding decode_unsigned decode_real decode_bit_string
decode_app_value frame pos = if leb (length frame) pos then ok none else do
  tag ← index frame pos
  let app_tag = low_bits (shr tag 4) 4
  let len_enc = low_bits tag 3
  if app_tag == 1
      then ok (some (whole (low_bits len_enc 1), pos + 1))
      else if app_tag == 2 || app_tag == 9
      then decode_unsigned frame (pos + 1) len_enc
      else if app_tag == 4
      then decode_real frame (pos + 1)
      else if app_tag == 8
      then decode_bit_string frame (pos + 1) len_enc
      else ok none

-- One round of the `for` of skipToClose.
unfoldable pub skip_round : List ℕ → ℕ → ℕ → Run Error (Round ℕ ℕ)
skip_round frame ctx pos = if leb (length frame) pos then ok (leave pos) else do
  found ← attempt (read_tag_hdr frame pos)
  ok (elim found [
    | none ↦ leave (length frame)
    | some h ↦
        if h.is_ctx && h.tag_num == ctx && h.is_close
        then leave h.new_pos
        else again (if h.is_open then h.new_pos else h.new_pos + h.vlen)
  ])

-- Each round goes on by a byte at least, so the frame's length is fuel enough.
unfoldable pub skip_to_close : List ℕ → ℕ → ℕ → Run Error ℕ
unfolding loop skip_round
skip_to_close frame pos ctx = loop (suc (length frame)) (skip_round frame ctx) pos
