-- ===== src/Bacnet/Frame/Laws.antt =====
-- The frame builders and the frame parsers together (fwEDR/internal/bacnet/codec.go).
use dcim_data_reader.Prelude.{
  ℕ, suc, ◌+◌, ◌-◌, ◌*◌, ◌^◌, ◌≤◌, ◌<◌, ◌≡◌, ◌≢◌, ◌↔◌, List, ◌∷◌, Bool, true, false, ◌==◌, ltb,
  length, take, take-all, shr, low_bits, bit_set, arith, bit_or, bit_or-disjoint, ok, panic, index,
  Ends, Ends-bind, Ends-index, Ends-slice, Ends-if, Ends-no_panic, not,
}
use dcim_data_reader.Bacnet.Encode.{byte}
use dcim_data_reader.Bacnet.Frame.{
  Error, bvlc_forwarded_npdu, build_npdu, build_bvll, parse_bvll, skip_dnet, skip_snet, parse_npdu,
  parse_apdu,
}

take-exactly : (k : ℕ) (xs : List ℕ) → k ≡ length xs → take k xs ≡ xs
take-exactly k xs e = rw e (take-all xs)

-- parseBVLL gives back the NPDU that buildBVLL frames, unicast or broadcast, if the NPDU has at
-- most 65531 bytes.
pub parse_bvll-build_bvll :
    (npdu : List ℕ) (broadcast : Bool)
    → length npdu ≤ 65531
    → parse_bvll (build_bvll npdu broadcast) ≡ ok npdu
unfolding parse_bvll build_bvll
parse_bvll-build_bvll npdu broadcast h =
    let n = 4 + length npdu in
    let len : bit_or (byte (shr n 8) * 2 ^ 8) (low_bits n 8) ≡ n =
      omega (arith, bit_or-disjoint 8 (byte (shr n 8)) (low_bits n 8) (omega arith)) in
    rw len (ground (arith, take-exactly (n - 4) npdu (omega arith)))

-- parseNPDU gives back the APDU that buildNPDU wraps, whether or not a reply is expected.
pub parse_npdu-build_npdu :
    (apdu : List ℕ) (expects_reply : Bool) → parse_npdu (build_npdu apdu expects_reply) ≡ ok apdu
unfolding parse_npdu build_npdu
parse_npdu-build_npdu apdu true =
    ground (arith, take-exactly (suc (suc (length apdu)) - 2) apdu (omega arith))
parse_npdu-build_npdu apdu false =
    ground (arith, take-exactly (suc (suc (length apdu)) - 2) apdu (omega arith))

-- parseBVLL panics on a frame of four bytes or more that starts with the BVLL type exactly when
-- the frame is no forwarded NPDU and its length field is below 4.
pub parse_bvll_panics_iff :
    (fn hi lo : ℕ) (rest : List ℕ)
    → lo < 256
    → (parse_bvll (0x81 ∷ fn ∷ hi ∷ lo ∷ rest) ≡ panic)
      ↔ ((fn ≢ bvlc_forwarded_npdu) × (hi * 256 + lo < 4))
unfolding parse_bvll
parse_bvll_panics_iff fn hi lo rest h = ground (arith, bit_or-disjoint 8 hi lo h)

-- An error other than a panic.
abbrev Any : Error → Type 0
Any _ = Unit {0}

Ends-skip_dnet :
    (frame : List ℕ) (ctrl pos : ℕ) → Ends Any (skip_dnet frame ctrl pos) (λ _. Unit {0})
unfolding skip_dnet
Ends-skip_dnet frame ctrl pos = ground (arith, Ends-index Any frame (pos + 2))

Ends-skip_snet :
    (frame : List ℕ) (ctrl pos : ℕ) → Ends Any (skip_snet frame ctrl pos) (λ _. Unit {0})
unfolding skip_snet
Ends-skip_snet frame ctrl pos = ground (arith, Ends-index Any frame (pos + 2))

module _ (frame : List ℕ) where
  Ends-parse_npdu : Ends Any (parse_npdu frame) (λ _. Unit {0})
  unfolding parse_npdu
  Ends-parse_npdu =
      Ends-if Any (λ _. Unit {0}) (ltb (length frame) 2) _ _ (λ _. tt)
        λ l.
          Ends-bind Any (λ _. Unit {0}) (λ _. Unit {0}) (index frame 0) _
            (Ends-index Any frame 0 (ground arith))
            λ version _.
              Ends-if Any (λ _. Unit {0}) (not (version == 0x01)) _ _ (λ _. tt)
                λ _.
                  Ends-bind Any (λ _. Unit {0}) (λ _. Unit {0}) (index frame 1) _
                    (Ends-index Any frame 1 (ground arith))
                    λ ctrl _.
                      Ends-if Any (λ _. Unit {0}) (bit_set ctrl 7) _ _ (λ _. tt)
                        λ _.
                          Ends-bind Any (λ _. Unit {0}) (λ _. Unit {0}) (skip_dnet frame ctrl 2) _
                            (Ends-skip_dnet frame ctrl 2)
                            λ p _.
                              Ends-bind Any (λ _. Unit {0}) (λ _. Unit {0}) (skip_snet frame ctrl p)
                                _ (Ends-skip_snet frame ctrl p)
                                λ q _.
                                  Ends-if Any (λ _. Unit {0}) (ltb (length frame) q) _ _ (λ _. tt)
                                    λ m. ground (arith, Ends-slice Any frame q (length frame))

  Ends-parse_apdu : Ends Any (parse_apdu frame) (λ _. Unit {0})
  unfolding parse_apdu
  Ends-parse_apdu =
      Ends-if Any (λ _. Unit {0}) (length frame == 0) _ _ (λ _. tt)
        λ l.
          Ends-bind Any (λ _. Unit {0}) (λ _. Unit {0}) (index frame 0) _
            (Ends-index Any frame 0 (ground arith))
            λ first _. ground (
              arith,
              Ends-index Any frame 1,
              Ends-index Any frame 2,
              Ends-slice Any frame 2 (length frame),
              Ends-slice Any frame 3 (length frame),
            )

-- Neither parseNPDU nor parseAPDU panics, whatever bytes it is given.
pub parse_npdu-parse_apdu_no_panic :
    (frame : List ℕ) → (parse_npdu frame ≢ panic) × (parse_apdu frame ≢ panic)
parse_npdu-parse_apdu_no_panic frame = (
  (Ends-no_panic Any _ (parse_npdu frame) (Ends-parse_npdu frame)).0,
  (Ends-no_panic Any _ (parse_apdu frame) (Ends-parse_apdu frame)).0,
)
