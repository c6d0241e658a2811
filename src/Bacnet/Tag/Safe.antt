-- ===== src/Bacnet/Tag/Safe.antt =====
-- How the tag decoders end (fwEDR/internal/bacnet/codec.go).
use dcim_data_reader.Prelude.{
  ℕ, zero, suc, ◌+◌, ◌-◌, ◌≤◌, ◌<◌, ◌≡◌, List, length, arith, index, leb, Ends, Total, Ends-bind,
  Ends-index, Ends-slice, IfSome, Keeps, Total-loop, Total-attempt, low_bits, shr, bit_set,
  Bool-cases, leb-false, Bool, attempt, inl, inr, slice, ◌>>=◌,
}
use dcim_data_reader.Bacnet.Frame.{Error, short}
use dcim_data_reader.Bacnet.Tag.{
  uint32_be, decode_oid, TagHdr, read_tag_num, read_vlen, read_tag_rest, read_tag_hdr, read_uint32,
  decode_bit_string, decode_unsigned, decode_real, decode_app_value, skip_round, skip_to_close,
}

abbrev pub After : List ℕ → ℕ → TagHdr → Type 0
After frame pos h = (pos < h.new_pos) × (h.new_pos ≤ length frame)

-- A position that a read reaches from `pos`.
abbrev Reaches : List ℕ → ℕ → ℕ × ℕ → Type 0
Reaches frame pos (v, q) = (pos ≤ q) × (q ≤ length frame)

module _ (F : Error → Type 0) where
  pub Ends-uint32_be : (b : List ℕ) → length b ≡ 4 → Ends F (uint32_be b) (λ _. Unit {0})
  unfolding uint32_be
  Ends-uint32_be b h =
      ground (arith, Ends-index F b 0, Ends-index F b 1, Ends-index F b 2, Ends-index F b 3)

  pub Ends-decode_oid : (b : List ℕ) → length b ≡ 4 → Ends F (decode_oid b) (λ _. Unit {0})
  unfolding decode_oid
  Ends-decode_oid b h = ground (arith, Ends-uint32_be b)

  Ends-read_tag_num :
      (frame : List ℕ) (raw pos : ℕ)
      → F short
      → pos ≤ length frame
      → Ends F (read_tag_num frame raw pos) (Reaches frame pos)
  unfolding read_tag_num
  Ends-read_tag_num frame raw pos s h = ground (arith, Ends-index F frame pos)

  -- The four bytes of an extended length.
  Ends-window :
      (frame : List ℕ) (p : ℕ)
      → p + 4 ≤ length frame
      → Ends F (slice frame p (p + 4) >>= uint32_be) (λ _. Unit {0})
  Ends-window frame p h =
      Ends-bind F _ _ (slice frame p (p + 4)) uint32_be
        (Ends-slice F frame p (p + 4) (omega arith) h) (λ b e. Ends-uint32_be b (omega arith))

  Ends-read_vlen :
      (frame : List ℕ) (len_enc pos : ℕ)
      → F short
      → pos ≤ length frame
      → Ends F (read_vlen frame len_enc pos) (Reaches frame pos)
  unfolding read_vlen
  Ends-read_vlen frame len_enc pos s h = ground (
    arith,
    Ends-index F frame pos,
    Ends-index F frame (pos + 1),
    Ends-index F frame (pos + 1 + 1),
    Ends-window frame (pos + 1),
  )

  Ends-read_tag_rest :
      (frame : List ℕ) (is_ctx : Bool) (len_enc tag_num pos : ℕ)
      → F short
      → pos ≤ length frame
      → Ends F
          (read_tag_rest frame is_ctx len_enc tag_num pos)
          (λ h. (pos ≤ h.new_pos) × (h.new_pos ≤ length frame))
  unfolding read_tag_rest
  Ends-read_tag_rest frame is_ctx len_enc tag_num pos s h =
      ground (arith, Ends-read_vlen frame len_enc pos s h)

  -- The two steps after the first byte.
  After-first :
      (frame : List ℕ) (pos b : ℕ)
      → pos + 1 ≤ length frame
      → F short
      → Ends F
          (read_tag_num frame (low_bits (shr b 4) 4) (pos + 1) >>= λ (tag_num, q).
            read_tag_rest frame (bit_set b 3) (low_bits b 3) tag_num q)
          (After frame pos)
  After-first frame pos b h s =
      Ends-bind F (Reaches frame (pos + 1)) (After frame pos) (read_tag_num frame _ (pos + 1))
        (λ (tag_num, q). read_tag_rest frame (bit_set b 3) (low_bits b 3) tag_num q)
        (Ends-read_tag_num frame (low_bits (shr b 4) 4) (pos + 1) s h)
        (λ r reach. ground (arith, Ends-read_tag_rest frame (bit_set b 3) (low_bits b 3) r.0 r.1 s))

  -- A header that is read starts in the frame and ends after its first byte.
  pub Ends-read_tag_hdr :
      (frame : List ℕ) (pos : ℕ)
      → F short
      → Ends F (read_tag_hdr frame pos) (λ h. (pos < h.new_pos) × (h.new_pos ≤ length frame))
  unfolding read_tag_hdr
  Ends-read_tag_hdr frame pos s = elim (Bool-cases (leb (length frame) pos)) [
    | inl e ↦ rw e s
    | inr e ↦
        let below = leb-false (length frame) pos e in
        rw e (
          Ends-bind F _ (After frame pos) (index frame pos) _ (Ends-index F frame pos below)
            (λ b _. After-first frame pos b (omega arith) s))
  ]

-- No error is returned.
abbrev pub Never : Error → Type 0
Never _ = ⊥

pub Total-read_tag_hdr :
    (frame : List ℕ) (pos : ℕ) → Total (attempt (read_tag_hdr frame pos)) (IfSome (After frame pos))
Total-read_tag_hdr frame pos =
    Total-attempt (λ _. Unit {0}) _ (read_tag_hdr frame pos)
      (Ends-read_tag_hdr (λ _. Unit {0}) frame pos tt)

Total-skip_round :
    (frame : List ℕ) (ctx start pos : ℕ)
    → start ≤ pos
    → Total
        (skip_round frame ctx pos)
        (Keeps (λ q. start ≤ q) (λ q. length frame - q) (λ q. (start ≤ q)) pos)
unfolding skip_round
Total-skip_round frame ctx start pos h = ground (arith, Total-read_tag_hdr frame pos)

-- skipToClose always returns a position, and never one before the position that it is given.
pub Total-skip_to_close :
    (frame : List ℕ) (pos ctx : ℕ) → Total (skip_to_close frame pos ctx) (λ q. pos ≤ q)
unfolding skip_to_close
Total-skip_to_close frame pos ctx =
    Total-loop (λ q. pos ≤ q) (λ q. length frame - q) (λ q. pos ≤ q) (skip_round frame ctx)
      (Total-skip_round frame ctx pos) (suc (length frame)) pos (omega arith) (omega arith)

Total-read_uint32 :
    (frame : List ℕ) (p n v : ℕ)
    → p + n ≤ length frame
    → Total (read_uint32 frame p n v) (λ _. Unit {0})
unfolding read_uint32
Total-read_uint32 frame p zero v h = tt
Total-read_uint32 frame p (suc n) v h =
    Ends-bind Never _ _ (index frame p) _ (Ends-index Never frame p (omega arith))
      (λ b _. Total-read_uint32 frame (p + 1) n _ (omega arith))

Total-decode_unsigned :
    (frame : List ℕ) (p n : ℕ) → Total (decode_unsigned frame p n) (λ _. Unit {0})
unfolding decode_unsigned
Total-decode_unsigned frame p n = ground (arith, Total-read_uint32 frame p n 0)

Total-decode_real : (frame : List ℕ) (p : ℕ) → Total (decode_real frame p) (λ _. Unit {0})
unfolding decode_real
Total-decode_real frame p = ground (arith, Ends-window Never frame p)

Total-decode_bit_string :
    (frame : List ℕ) (p n : ℕ) → Total (decode_bit_string frame p n) (λ _. Unit {0})
unfolding decode_bit_string
Total-decode_bit_string frame p n = ground (arith, Ends-index Never frame (p + 1))

-- decodeAppValue always returns, whatever it is given.
pub Total-decode_app_value :
    (frame : List ℕ) (pos : ℕ) → Total (decode_app_value frame pos) (λ _. Unit {0})
unfolding decode_app_value
Total-decode_app_value frame pos = elim (Bool-cases (leb (length frame) pos)) [
  | inl e ↦ rw e tt
  | inr e ↦ rw e (
      Ends-bind Never _ _ (index frame pos) _
        (Ends-index Never frame pos (leb-false (length frame) pos e))
        (λ tag _. ground (
          arith,
          Total-decode_unsigned frame (pos + 1) (low_bits tag 3),
          Total-decode_real frame (pos + 1),
          Total-decode_bit_string frame (pos + 1) (low_bits tag 3),
        )))
]
