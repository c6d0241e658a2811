-- ===== src/Bacnet/Response/Safe.antt =====
-- How the decoders of acknowledgements end (fwEDR/internal/bacnet/codec.go).
use dcim_data_reader.Prelude.{
  ℕ, zero, suc, ◌+◌, ◌-◌, ◌≤◌, ◌<◌, ◌≡◌, Option, none, some, List, length, arith, Run, ok, index,
  leb, Total-bind_some, Total-mono, Total-if, Total, Ends-bind, Ends-index, Ends-slice, IfSome,
  Keeps, Total-loop, Total-Returns, Bool, true, attempt, slice, if◌then◌else◌, ◌>>=◌, [], Round,
  again, leave, loop,
}
use dcim_data_reader.Bacnet.Frame.{Error}
use dcim_data_reader.Bacnet.Tag.{Oid, decode_oid, TagHdr, read_tag_hdr, Scalar, decode_app_value}
use dcim_data_reader.Bacnet.Tag.Safe.{
  Never, After, Total-read_tag_hdr, Total-skip_to_close, Total-decode_app_value, Ends-decode_oid,
}
use dcim_data_reader.Bacnet.Response.{
  PropResult, is_object, is_property, is_wrapper, opens, closes, expect, read_prop, after_closing,
  rpm_value, rpm_property, rpm_result, rpm_list, rpm_object, Exit, goes_on, returns,
  decode_read_property_multiple_ack, read_property_round, decode_read_property_ack,
}

-- A header that `expect` hands on passes the test, and lies in the frame.
pub Total-expect :
    (frame : List ℕ) (pos : ℕ) (test : TagHdr → Bool)
    → Total (expect frame pos test) (IfSome (λ h. After frame pos h × (test h ≡ true)))
unfolding expect
Total-expect frame pos test =
    Ends-bind Never (IfSome (After frame pos)) (IfSome (λ h. After frame pos h × (test h ≡ true)))
      (attempt (read_tag_hdr frame pos)) _ (Total-read_tag_hdr frame pos) checked
  where
    checked :
        (found : Option TagHdr)
        → IfSome (After frame pos) found
        → Total {E = Error}
            (elim found [ none ↦ ok none | some h ↦ ok (if test h then some h else none) ])
            (IfSome (λ h. After frame pos h × (test h ≡ true)))
    checked none a = tt
    checked (some h) a = ground arith

-- `expect`, and what follows in either case.
pub Total-bind_expect :
    {B : Type 0} (frame : List ℕ) (pos : ℕ) (test : TagHdr → Bool) (Q : B → Type 0)
    (k : Run Error B) (f : TagHdr → Run Error B)
    → Total k Q
    → ((h : TagHdr) → After frame pos h → test h ≡ true → Total (f h) Q)
    → Total (expect frame pos test >>= λ o. elim o [ none ↦ k | some h ↦ f h ]) Q
Total-bind_expect frame pos test Q k f hk hf =
    Total-bind_some (λ h. After frame pos h × (test h ≡ true)) Q (expect frame pos test) k f
      (Total-expect frame pos test) hk (λ h p. hf h p.0 p.1)

pub Total-read_prop :
    (frame : List ℕ) (p n v : ℕ)
    → p + n ≤ length frame
    → Total (read_prop frame p n v) (λ _. Unit {0})
unfolding read_prop
Total-read_prop frame p zero v h = tt
Total-read_prop frame p (suc n) v h =
    Ends-bind Never _ _ (index frame p) _ (Ends-index Never frame p (omega arith))
      (λ b _. Total-read_prop frame (p + 1) n _ (omega arith))

pub Total-after_closing :
    (frame : List ℕ) (pos : ℕ) → Total (after_closing frame pos) (λ q. pos ≤ q)
unfolding after_closing
Total-after_closing frame pos =
    Total-bind_expect frame pos (closes 2) (λ q. pos ≤ q) _ _ (omega arith) (λ h a t. omega arith)

Total-rpm_value :
    (frame : List ℕ) (oid : Oid) (prop tag_num pos : ℕ) (out : List PropResult)
    → Total (rpm_value frame oid prop tag_num pos out) (λ r. pos ≤ r.1)
unfolding rpm_value
Total-rpm_value frame oid prop tag_num pos out = ground (
  arith,
  Total-skip_to_close frame pos 4,
  Total-skip_to_close frame pos 5,
  Total-decode_app_value frame pos,
)

abbrev Result : Type 0
Result = ℕ × List PropResult

-- What is left of the frame, and what a round of the inner loop does with it: it starts at `start` or
-- later, and a round that goes on has passed a byte at least.
abbrev left : List ℕ → Result → ℕ
left frame (pos, out) = length frame - pos

abbrev Forward : List ℕ → ℕ → Round Result Exit → Type 0
Forward frame pos (again (next, out)) = pos < next
Forward frame pos (leave (goes_on next out)) = pos ≤ next
Forward frame pos (leave (returns out)) = Unit {0}

abbrev FromStart : ℕ → Exit → Type 0
FromStart start (goes_on next out) = start ≤ next
FromStart start (returns out) = Unit {0}

Total-rpm_property :
    (frame : List ℕ) (oid : Oid) (pos : ℕ) (out : List PropResult)
    → Total (rpm_property frame oid pos out) (Forward frame pos)
unfolding rpm_property
Total-rpm_property frame oid pos out =
    Total-bind_expect frame pos (is_property frame) (Forward frame pos) _ _ tt λ id i t.
      Ends-bind Never _ (Forward frame pos) (read_prop frame id.new_pos id.vlen 0) _
        (Total-read_prop frame id.new_pos id.vlen 0 (ground arith))
        λ prop _.
          Total-bind_expect frame (id.new_pos + id.vlen) is_wrapper (Forward frame pos) _ _ tt
            λ w a u.
              Ends-bind Never (λ r. w.new_pos ≤ r.1) (Forward frame pos)
                (rpm_value frame oid prop w.tag_num w.new_pos out) _
                (Total-rpm_value frame oid prop w.tag_num w.new_pos out)
                λ r p.
                  Ends-bind Never (λ q. r.1 ≤ q) (Forward frame pos) (after_closing frame r.1) _
                    (Total-after_closing frame r.1) λ next q. omega arith

-- What a round of the inner loop keeps, from `start` on.
abbrev InnerKeeps : List ℕ → ℕ → Result → Round Result Exit → Type 0
InnerKeeps frame start = Keeps (λ (r : Result). start ≤ r.0) (left frame) (FromStart start)

Forward-InnerKeeps :
    (frame : List ℕ) (start pos q : ℕ) (out : List PropResult)
    → start ≤ pos
    → pos < q
    → q ≤ length frame
    → (r : Round Result Exit) → Forward frame q r
    → InnerKeeps frame start (pos, out) r
Forward-InnerKeeps frame start pos q out h l m (again (next, out')) f = omega arith
Forward-InnerKeeps frame start pos q out h l m (leave (goes_on next out')) f = omega arith
Forward-InnerKeeps frame start pos q out h l m (leave (returns out')) f = tt

Total-rpm_result :
    (frame : List ℕ) (oid : Oid) (start : ℕ) (s : Result)
    → start ≤ s.0
    → Total (rpm_result frame oid s) (InnerKeeps frame start s)
unfolding rpm_result
Total-rpm_result frame oid start (pos, out) h =
    Total-if (InnerKeeps frame start (pos, out)) (leb (length frame) pos) _ _ (λ _. h)
      λ _.
        Total-bind_some (After frame pos) (InnerKeeps frame start (pos, out))
          (attempt (read_tag_hdr frame pos)) _ _ (Total-read_tag_hdr frame pos) tt
          λ hdr a.
            Total-if (InnerKeeps frame start (pos, out)) (closes 1 hdr) _ _ (λ _. omega arith)
              λ _.
                Total-if (InnerKeeps frame start (pos, out)) (opens 2 hdr) _ _
                  (λ _.
                    Total-mono (Forward frame hdr.new_pos) (InnerKeeps frame start (pos, out))
                      (rpm_property frame oid hdr.new_pos out)
                      (Total-rpm_property frame oid hdr.new_pos out)
                      (Forward-InnerKeeps frame start pos hdr.new_pos out h a.0 a.1))
                  (λ _. tt)

-- What a round of the outer loop keeps.
abbrev OuterKeeps : List ℕ → Result → Round Result (List PropResult) → Type 0
OuterKeeps frame = Keeps (λ (r : Result). Unit {0}) (left frame) (λ _. Unit {0})

Total-rpm_list :
    (frame : List ℕ) (pos np : ℕ) (out : List PropResult)
    → pos < np
    → np + 4 ≤ length frame
    → Total (rpm_list frame np out) (OuterKeeps frame (pos, out))
unfolding rpm_list
Total-rpm_list frame pos np out h m =
    Ends-bind Never _ (OuterKeeps frame (pos, out)) (slice frame np (np + 4)) _
      (Ends-slice Never frame np (np + 4) (omega arith) m)
      λ window e.
        Ends-bind Never _ (OuterKeeps frame (pos, out)) (decode_oid window) _
          (Ends-decode_oid Never window (omega arith))
          λ oid _.
            Total-bind_expect frame (np + 4) (opens 1) (OuterKeeps frame (pos, out)) _ _ tt λ l a t.
              Ends-bind Never (FromStart l.new_pos) (OuterKeeps frame (pos, out))
                (loop (suc (length frame)) (rpm_result frame oid) (l.new_pos, out)) _
                (Total-loop (λ (r : Result). l.new_pos ≤ r.0) (left frame) (FromStart l.new_pos)
                  (rpm_result frame oid) (Total-rpm_result frame oid l.new_pos) (suc (length frame))
                  (l.new_pos, out) (omega arith) (omega arith))
                (resume l.new_pos (omega arith) (omega arith))
  where
    resume :
        (start : ℕ)
        → pos < start
        → pos < length frame
        → (exit : Exit) → FromStart start exit
        → Total {E = Error}
            (ok (elim exit [ goes_on next out' ↦ again (next, out') | returns out' ↦ leave out' ]))
            (OuterKeeps frame (pos, out))
    resume start p q (goes_on next out') f = (tt, omega arith)
    resume start p q (returns out') f = tt

Total-rpm_object :
    (frame : List ℕ) (s : Result) → Unit {0} → Total (rpm_object frame s) (OuterKeeps frame s)
unfolding rpm_object
Total-rpm_object frame (pos, out) _ =
    Total-if (OuterKeeps frame (pos, out)) (leb (length frame) pos) _ _ (λ _. tt)
      λ _.
        Total-bind_expect frame pos (is_object frame) (OuterKeeps frame (pos, out)) _ _ tt
          λ h a t. Total-rpm_list frame pos h.new_pos out a.0 (ground arith)

-- decodeReadPropertyMultipleAck returns a list of results for every payload: it never indexes
-- or slices out of range, and its nested loops end.
pub decode_read_property_multiple_ack_total :
    (payload : List ℕ)
    → (results : List PropResult) × (decode_read_property_multiple_ack payload ≡ ok results)
unfolding decode_read_property_multiple_ack
decode_read_property_multiple_ack_total payload =
    let (results, e, _) = Total-Returns (loop (suc (length payload)) (rpm_object payload) (0, [])) (
      Total-loop (λ (r : Result). Unit {0}) (left payload) (λ _. Unit {0}) (rpm_object payload)
        (Total-rpm_object payload) (suc (length payload)) (0, []) tt (omega arith)) in
    (results, e)

Total-read_property_round :
    (frame : List ℕ) (pos : ℕ)
    → Unit {0}
    → Total
        (read_property_round frame pos)
        (Keeps (λ _. Unit {0}) (λ q. length frame - q) (λ _. Unit {0}) pos)
unfolding read_property_round
Total-read_property_round frame pos _ =
    Total-if PropertyKeeps (leb (length frame) pos) _ _ (λ _. tt)
      λ _.
        Total-bind_some (After frame pos) PropertyKeeps (attempt (read_tag_hdr frame pos)) _ _
          (Total-read_tag_hdr frame pos) tt
          λ h a.
            Total-if PropertyKeeps (opens 3 h) _ _
              (λ _.
                Ends-bind Never (λ _. Unit {0}) PropertyKeeps (decode_app_value frame h.new_pos) _
                  (Total-decode_app_value frame h.new_pos) (λ v _. tt))
              (λ _. ground arith)
  where
    PropertyKeeps : Round ℕ (Option Scalar) → Type 0
    PropertyKeeps = Keeps (λ _. Unit {0}) (λ q. length frame - q) (λ _. Unit {0}) pos

-- decodeReadPropertyAck returns for every payload: it never indexes or slices out of range, and
-- its loop ends.
pub decode_read_property_ack_total :
    (payload : List ℕ) → (value : Option Scalar) × (decode_read_property_ack payload ≡ ok value)
unfolding decode_read_property_ack
decode_read_property_ack_total payload =
    let (value, e, _) =
      Total-Returns (loop (suc (length payload)) (read_property_round payload) 0) (
        Total-loop (λ _. Unit {0}) (λ q. length payload - q) (λ _. Unit {0})
          (read_property_round payload) (Total-read_property_round payload) (suc (length payload)) 0
          tt (omega arith)) in
    (value, e)
