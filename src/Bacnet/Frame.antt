-- ===== src/Bacnet/Frame.antt =====
-- The BVLL, NPDU and APDU layers of fwEDR/internal/bacnet/codec.go: buildNPDU, buildBVLL, parseBVLL,
-- parseNPDU and parseAPDU, with every index and slice that the source takes.
pub mod Laws
use dcim_data_reader.Prelude.{
  ℕ, ◌+◌, ◌*◌, ◌^◌, Bool, true, false, not, ◌&&◌, ◌||◌, List, [], ◌∷◌, ◌++◌, ltb, leb, ◌==◌,
  if◌then◌else◌, length, shr, low_bits, bit_set, bit_or, Run, ok, err, panic, ◌>>=◌, index, slice,
}
use dcim_data_reader.Bacnet.Encode.{byte}

-- ErrShort, and the two errors that parseNPDU and parseAPDU make.
pub data Error : Type 0 where
  short network_layer_message unhandled_apdu : Error

abbrev pub bvll_type : ℕ
bvll_type = 0x81

abbrev pub bvlc_original_unicast : ℕ
bvlc_original_unicast = 0x0a

abbrev pub bvlc_original_broadcast : ℕ
bvlc_original_broadcast = 0x0b

abbrev pub bvlc_forwarded_npdu : ℕ
bvlc_forwarded_npdu = 0x04

unfoldable pub build_npdu : List ℕ → Bool → List ℕ
build_npdu apdu expects_reply = 0x01 ∷ (if expects_reply then 0x04 else 0x00) ∷ apdu

unfoldable pub build_bvll : List ℕ → Bool → List ℕ
build_bvll npdu broadcast =
    let len : ℕ = 4 + length npdu in
    bvll_type
    ∷ (if broadcast then bvlc_original_broadcast else bvlc_original_unicast)
    ∷ byte (shr len 8)
    ∷ low_bits len 8
    ∷ npdu

unfoldable pub parse_bvll : List ℕ → Run Error (List ℕ)
parse_bvll frame = if ltb (length frame) 4 then err short else do
  kind ← index frame 0
  if not (kind == bvll_type) then err short else do
    hi ← index frame 2
    lo ← index frame 3
    let len = bit_or (hi * 2 ^ 8) lo
    fn ← index frame 1
    if ltb (length frame) len
        then err short
        else if fn == bvlc_forwarded_npdu
        then (if ltb len 10 then err short else slice frame 10 len)
        else slice frame 4 len

-- `if ctrl&0x20 != 0 { … }`: the position after the destination, if the frame has one.
skip_dnet : List ℕ → ℕ → ℕ → Run Error ℕ
skip_dnet frame ctrl pos =
    if bit_set ctrl 5
    then (if leb (length frame) (pos + 2)
        then err short
        else do dlen ← index frame (pos + 2); ok (pos + 3 + dlen + 1))
    else ok pos

-- `if ctrl&0x08 != 0 { … }`: the position after the source, if the frame has one.
skip_snet : List ℕ → ℕ → ℕ → Run Error ℕ
skip_snet frame ctrl pos =
    if bit_set ctrl 3
    then (if leb (length frame) (pos + 2)
        then err short
        else do slen ← index frame (pos + 2); ok (pos + 3 + slen))
    else ok pos

unfoldable pub parse_npdu : List ℕ → Run Error (List ℕ)
unfolding skip_dnet skip_snet
parse_npdu frame = if ltb (length frame) 2 then err short else do
  version ← index frame 0
  if not (version == 0x01) then err short else do
    ctrl ← index frame 1
    if bit_set ctrl 7 then err network_layer_message else do
      after_dnet ← skip_dnet frame ctrl 2
      pos ← skip_snet frame ctrl after_dnet
      if ltb (length frame) pos then err short else slice frame pos (length frame)

pub record Apdu : Type 0 where
  pub kind : ℕ
  pub service : ℕ
  pub invoke_id : ℕ
  pub payload : List ℕ

abbrev pub pdu_confirmed_request : ℕ
pdu_confirmed_request = 0

abbrev pub pdu_unconfirmed_request : ℕ
pdu_unconfirmed_request = 1

abbrev pub pdu_complex_ack : ℕ
pdu_complex_ack = 3

abbrev pub pdu_error : ℕ
pdu_error = 5

unfoldable pub parse_apdu : List ℕ → Run Error Apdu
parse_apdu frame = if length frame == 0 then err short else do
  first ← index frame 0
  let t = low_bits (shr first 4) 4
  if t == pdu_unconfirmed_request
      then (if ltb (length frame) 2 then err short else do
        service ← index frame 1
        payload ← slice frame 2 (length frame)
        ok (record { kind = t; service = service; invoke_id = 0; payload = payload }))
      else (if t == pdu_complex_ack || t == pdu_error
          then (if ltb (length frame) 3 then err short else do
            invoke_id ← index frame 1
            service ← index frame 2
            payload ← slice frame 3 (length frame)
            ok (record { kind = t; service = service; invoke_id = invoke_id; payload = payload }))
          else err unhandled_apdu)
