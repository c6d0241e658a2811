-- ===== src/Tests/Bacnet.antt =====
-- The codec's theorems at concrete frames (fwEDR/internal/bacnet/codec.go).
use dcim_data_reader.Prelude.{
  ℕ, ◌+◌, ◌≡◌, ◌≢◌, ◌↔◌, arith, List, [], ◌∷◌, Bool, true, ◌*◌, ◌<◌, ok, panic,
}
use dcim_data_reader.Bacnet.Frame.{
  bvlc_original_unicast, bvlc_forwarded_npdu, build_bvll, parse_bvll,
}
use dcim_data_reader.Bacnet.Frame.Laws.{parse_bvll-build_bvll, parse_bvll_panics_iff}
use dcim_data_reader.Bacnet.Response.{PropResult, decode_read_property_multiple_ack}
use dcim_data_reader.Bacnet.Response.Safe.{decode_read_property_multiple_ack_total}
use dcim_data_reader.Bacnet.Notify.{CovNotification, decode_cov_notification}
use dcim_data_reader.Bacnet.Notify.Safe.{decode_cov_notification_total}

abbrev an_apdu : List ℕ
an_apdu = 0x10 ∷ 0x08 ∷ []

-- A ReadPropertyMultiple acknowledgement of one analog value.
abbrev rpm_ack : List ℕ
rpm_ack =
    0x0c ∷ 0x00 ∷ 0x00 ∷ 0x00 ∷ 0x01 ∷ 0x1e ∷ 0x29 ∷ 0x55 ∷ 0x4e ∷ 0x21 ∷ 0x07 ∷ 0x4f ∷ 0x1f ∷ []

-- A ReadProperty acknowledgement.
abbrev read_ack : List ℕ
read_ack = 0x0c ∷ 0x00 ∷ 0x00 ∷ 0x00 ∷ 0x01 ∷ 0x19 ∷ 0x55 ∷ 0x3e ∷ 0x21 ∷ 0x07 ∷ 0x3f ∷ []

-- An I-Am of device 5.
abbrev i_am : List ℕ
i_am = 0xc4 ∷ 0x02 ∷ 0x00 ∷ 0x00 ∷ 0x05 ∷ 0x22 ∷ 0x05 ∷ 0xc4 ∷ []

abbrev cov_payload : List ℕ
cov_payload =
    0x09 ∷ 0x01 ∷ 0x1c ∷ 0x02 ∷ 0x00 ∷ 0x00 ∷ 0x05 ∷ 0x2c ∷ 0x00 ∷ 0x00 ∷ 0x00 ∷ 0x01 ∷ 0x39 ∷ 0x00
    ∷ 0x4e ∷ 0x09 ∷ 0x55 ∷ 0x2e ∷ 0x21 ∷ 0x07 ∷ 0x2f ∷ 0x4f ∷ []

parse_bvll-build_bvll_example : parse_bvll (build_bvll an_apdu true) ≡ ok an_apdu
parse_bvll-build_bvll_example = parse_bvll-build_bvll an_apdu true (omega arith)

parse_bvll_panics_iff_example :
    (parse_bvll (0x81 ∷ 0x0a ∷ 0 ∷ 3 ∷ []) ≡ panic)
    ↔ ((bvlc_original_unicast ≢ bvlc_forwarded_npdu) × (0 * 256 + 3 < 4))
parse_bvll_panics_iff_example = parse_bvll_panics_iff 0x0a 0 3 [] (omega arith)

decode_read_property_multiple_ack_total_example :
    (results : List PropResult) × (decode_read_property_multiple_ack rpm_ack ≡ ok results)
decode_read_property_multiple_ack_total_example = decode_read_property_multiple_ack_total rpm_ack

decode_cov_notification_total_example :
    (r : CovNotification × Bool) × (decode_cov_notification cov_payload ≡ ok r)
decode_cov_notification_total_example = decode_cov_notification_total cov_payload
