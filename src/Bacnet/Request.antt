-- ===== src/Bacnet/Request.antt =====
-- The request builders of fwEDR/internal/bacnet/codec.go.
use dcim_data_reader.Prelude.{ℕ, ◌*◌, true, false, List, [], ◌∷◌, ◌++◌, low_bits}
use dcim_data_reader.Bacnet.Encode.{
  u32, byte, enc_ctx_uint, enc_ctx_oid, enc_ctx_open, enc_ctx_close,
}
use dcim_data_reader.Bacnet.Frame.{
  pdu_confirmed_request, pdu_unconfirmed_request, build_npdu, build_bvll,
}

abbrev pub svc_who_is : ℕ
svc_who_is = 8

abbrev pub svc_subscribe_cov : ℕ
svc_subscribe_cov = 5

abbrev pub svc_read_property : ℕ
svc_read_property = 12

abbrev pub svc_read_property_multiple : ℕ
svc_read_property_multiple = 14

-- An object and the properties to read from it.
pub record ObjSpec : Type 0 where
  pub obj_type : ℕ
  pub inst : ℕ
  pub props : List ℕ

-- The two loops of buildReadPropertyMultiple.
props_apdu : List ℕ → List ℕ
props_apdu [] = []
props_apdu (p ∷ ps) = enc_ctx_uint 0 (u32 p) ++ props_apdu ps

unfoldable pub specs_apdu : List ObjSpec → List ℕ
unfolding props_apdu
specs_apdu [] = []
specs_apdu (s ∷ ss) =
    enc_ctx_oid 0 s.obj_type s.inst
    ++ (enc_ctx_open 1 ++ (props_apdu s.props ++ (enc_ctx_close 1 ++ specs_apdu ss)))

abbrev pub confirmed : ℕ → ℕ → List ℕ → List ℕ
confirmed invoke_id service params =
    byte (pdu_confirmed_request * 16) ∷ 0x05 ∷ low_bits invoke_id 8 ∷ service ∷ params

unfoldable pub build_read_property_multiple : ℕ → List ObjSpec → List ℕ
unfolding specs_apdu
build_read_property_multiple invoke_id specs =
    build_bvll (build_npdu (confirmed invoke_id svc_read_property_multiple (specs_apdu specs)) true)
      false

unfoldable pub build_read_property : ℕ → ℕ → ℕ → ℕ → List ℕ
build_read_property invoke_id obj_type inst prop =
    build_bvll
      (build_npdu
        (confirmed invoke_id svc_read_property
          (enc_ctx_oid 0 obj_type inst ++ enc_ctx_uint 1 (u32 prop)))
        true)
      false

unfoldable pub build_who_is : List ℕ
build_who_is =
    build_bvll (build_npdu (byte (pdu_unconfirmed_request * 16) ∷ svc_who_is ∷ []) false) true

unfoldable pub build_subscribe_cov : ℕ → ℕ → ℕ → ℕ → ℕ → List ℕ
build_subscribe_cov invoke_id process_id obj_type inst lifetime_sec =
    build_bvll
      (build_npdu
        (confirmed invoke_id svc_subscribe_cov (
          enc_ctx_uint 0 (u32 process_id)
          ++ (enc_ctx_oid 1 obj_type inst
              ++ (enc_ctx_uint 2 0 ++ enc_ctx_uint 3 (u32 lifetime_sec)))))
        true)
      false
