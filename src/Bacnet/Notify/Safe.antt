-- ===== src/Bacnet/Notify/Safe.antt =====
-- How decodeIAm and decodeCOVNotification end (fwEDR/internal/bacnet/codec.go).
use dcim_data_reader.Prelude.{
  ℕ, suc, ◌+◌, ◌-◌, ◌≤◌, ◌<◌, ◌≡◌, Option, none, some, List, length, arith, Run, ok, index, leb,
  ltb, Total, Ends-bind, Ends-index, Ends-slice, IfSome, Keeps, Total-loop, Total-Returns, Bool,
  attempt, slice, Round, again, leave, loop, Total-bind_some, Total-if, Total-mono, ◌>>=◌, ◌==◌,
}
use dcim_data_reader.Bacnet.Frame.{Error}
use dcim_data_reader.Bacnet.Tag.{decode_oid, read_tag_hdr, decode_app_value, skip_to_close}
use dcim_data_reader.Bacnet.Tag.Safe.{
  Never, After, Total-read_tag_hdr, Total-skip_to_close, Total-decode_app_value, Ends-decode_oid,
}
use dcim_data_reader.Bacnet.Response.{is_property, opens, closes, read_prop, after_closing}
use dcim_data_reader.Bacnet.Response.Safe.{Total-bind_expect, Total-read_prop, Total-after_closing}
use dcim_data_reader.Bacnet.Notify.{
  decode_i_am, CovNotification, cov_value, cov_property, cov_round, read_oid, skip_value,
  cov_values, cov_objects, decode_cov_notification, no_notification,
}

-- decodeIAm returns for every payload: it never indexes or slices out of range.
pub decode_i_am_total : (payload : List ℕ) → (r : Option ℕ) × (decode_i_am payload ≡ ok r)
unfolding decode_i_am
decode_i_am_total payload =
    let (r, e, _) = Total-Returns (decode_i_am payload) (
      Total-if (λ _. Unit {0}) (ltb (length payload) 5) _ _ (λ _. tt)
        λ h.
          Ends-bind Never (λ _. Unit {0}) (λ _. Unit {0}) (index payload 0) _
            (Ends-index Never payload 0 (ground arith))
            λ first _.
              Total-if (λ _. Unit {0}) (first == 0xc4) _ _
                (λ _.
                  Ends-bind Never (λ ys. length ys ≡ 5 - 1) (λ _. Unit {0}) (slice payload 1 5) _
                    (Ends-slice Never payload 1 5 (omega arith) (ground arith))
                    λ window l.
                      Ends-bind Never (λ _. Unit {0}) (λ _. Unit {0}) (decode_oid window) _
                        (Ends-decode_oid Never window (omega arith)) (λ _ _. tt))
                (λ _. tt)) in
    (r, e)

Total-cov_value :
    (frame : List ℕ) (prop pos : ℕ) (n : CovNotification)
    → Total (cov_value frame prop pos n) (λ r. pos ≤ r.1)
unfolding cov_value
Total-cov_value frame prop pos n =
    Total-bind_expect frame pos (opens 4) (λ r. pos ≤ r.1) _ _ (omega arith)
      λ h a t.
        Ends-bind Never (λ _. Unit {0}) (λ r. pos ≤ r.1) (decode_app_value frame h.new_pos) _
          (Total-decode_app_value frame h.new_pos)
          λ v _.
            Ends-bind Never (λ q. h.new_pos ≤ q) (λ r. pos ≤ r.1) (skip_to_close frame h.new_pos 4)
              _ (Total-skip_to_close frame h.new_pos 4) λ q m. omega arith

-- What a round over the list of values keeps.
abbrev CovKeeps : List ℕ → ℕ → Round (ℕ × CovNotification) CovNotification → Type 0
CovKeeps frame pos (again (next, n)) = Unit {0} × (length frame - next < length frame - pos)
CovKeeps frame pos (leave n) = Unit {0}

Total-cov_property :
    (frame : List ℕ) (start pos : ℕ) (n : CovNotification)
    → start < pos
    → pos ≤ length frame
    → Total (cov_property frame pos n) (CovKeeps frame start)
unfolding cov_property
Total-cov_property frame start pos n h m =
    Total-bind_expect frame pos (is_property frame) (CovKeeps frame start) _ _ tt λ id i t.
      Ends-bind Never _ (CovKeeps frame start) (read_prop frame id.new_pos id.vlen 0) _
        (Total-read_prop frame id.new_pos id.vlen 0 (ground arith))
        λ prop _.
          Ends-bind Never (λ r. id.new_pos + id.vlen ≤ r.1) (CovKeeps frame start)
            (cov_value frame prop (id.new_pos + id.vlen) n) _
            (Total-cov_value frame prop (id.new_pos + id.vlen) n)
            λ r p.
              Ends-bind Never (λ q. r.1 ≤ q) (CovKeeps frame start) (after_closing frame r.1) _
                (Total-after_closing frame r.1) λ next q. (tt, omega arith)

Total-cov_round :
    (frame : List ℕ) (s : ℕ × CovNotification) → Total (cov_round frame s) (CovKeeps frame s.0)
unfolding cov_round
Total-cov_round frame (pos, n) =
    Total-if (CovKeeps frame pos) (leb (length frame) pos) _ _ (λ _. tt)
      λ _.
        Total-bind_some (After frame pos) (CovKeeps frame pos) (attempt (read_tag_hdr frame pos)) _
          _ (Total-read_tag_hdr frame pos) tt
          λ h a.
            Total-if (CovKeeps frame pos) (closes 4 h) _ _ (λ _. tt)
              λ _.
                Total-if (CovKeeps frame pos) (opens 2 h) _ _
                  (λ _. Total-cov_property frame pos h.new_pos n a.0 a.1) (λ _. tt)

Total-read_oid : (frame : List ℕ) (pos : ℕ) → Total (read_oid frame pos) (λ _. Unit {0})
unfolding read_oid
Total-read_oid frame pos =
    Total-bind_some (After frame pos) (λ _. Unit {0}) (attempt (read_tag_hdr frame pos)) _ _
      (Total-read_tag_hdr frame pos) tt
      λ h a.
        Total-if (λ _. Unit {0}) (ltb (length frame) (h.new_pos + 4)) _ _ (λ _. tt)
          λ e.
            Ends-bind Never (λ ys. length ys ≡ h.new_pos + 4 - h.new_pos) (λ _. Unit {0})
              (slice frame h.new_pos (h.new_pos + 4)) _
              (Ends-slice Never frame h.new_pos (h.new_pos + 4) (omega arith) (ground arith))
              λ window l.
                Ends-bind Never (λ _. Unit {0}) (λ _. Unit {0}) (decode_oid window) _
                  (Ends-decode_oid Never window (omega arith)) (λ _ _. tt)

Total-skip_value : (frame : List ℕ) (pos : ℕ) → Total (skip_value frame pos) (λ _. Unit {0})
unfolding skip_value
Total-skip_value frame pos =
    Ends-bind Never (IfSome (After frame pos)) (λ _. Unit {0}) (attempt (read_tag_hdr frame pos)) _
      (Total-read_tag_hdr frame pos) (λ _ _. tt)

-- One value after another, each passed on if it is there.
Total-then :
    {A B : Type 0} (m : Run Error (Option A)) (k : Run Error B) (f : A → Run Error B)
    → Total m (λ _. Unit {0})
    → Total k (λ _. Unit {0})
    → ((a : A) → Total (f a) (λ _. Unit {0}))
    → Total (m >>= λ o. elim o [ none ↦ k | some a ↦ f a ]) (λ _. Unit {0})
Total-then m k f hm hk hf =
    Total-bind_some (λ _. Unit {0}) (λ _. Unit {0}) m k f
      (Total-mono (λ _. Unit {0}) (IfSome (λ _. Unit {0})) m hm IfSome-any) hk (λ a _. hf a)
  where
    IfSome-any : {A : Type 0} (o : Option A) → Unit {0} → IfSome (λ (_ : A). Unit {0}) o
    IfSome-any none _ = tt
    IfSome-any (some a) _ = tt

Total-cov_values :
    (frame : List ℕ) (pos : ℕ) (n : CovNotification)
    → Total (cov_values frame pos n) (λ _. Unit {0})
unfolding cov_values
Total-cov_values frame pos n =
    Total-then (skip_value frame pos) _ _ (Total-skip_value frame pos) tt λ p.
      Total-bind_expect frame p (opens 4) (λ _. Unit {0}) _ _ tt
        λ h a t.
          Ends-bind Never (λ _. Unit {0}) (λ _. Unit {0})
            (loop (suc (length frame)) (cov_round frame) (h.new_pos, n)) _
            (Total-loop (λ _. Unit {0}) (λ (s : ℕ × CovNotification). length frame - s.0)
              (λ _. Unit {0}) (cov_round frame) (λ s _. cov_keeps s) (suc (length frame))
              (h.new_pos, n) tt (omega arith))
            (λ _ _. tt)
  where
    cov_keeps :
        (s : ℕ × CovNotification)
        → Total (cov_round frame s) (
            Keeps
              (λ _. Unit {0})
              (λ (t : ℕ × CovNotification). length frame - t.0)
              (λ _. Unit {0})
              s)
    cov_keeps s =
        Total-mono (CovKeeps frame s.0) _ (cov_round frame s) (Total-cov_round frame s) as_keeps
      where
        as_keeps :
            (r : Round (ℕ × CovNotification) CovNotification)
            → CovKeeps frame s.0 r
            → Keeps
                (λ _. Unit {0})
                (λ (t : ℕ × CovNotification). length frame - t.0)
                (λ _. Unit {0})
                s
                r
        as_keeps (again t) k = k
        as_keeps (leave n) k = k

Total-cov_objects :
    (frame : List ℕ) (pos : ℕ) (n : CovNotification)
    → Total (cov_objects frame pos n) (λ _. Unit {0})
unfolding cov_objects
Total-cov_objects frame pos n =
    Total-then (read_oid frame pos) _ _ (Total-read_oid frame pos) tt λ d.
      Total-then (read_oid frame d.1) _ _ (Total-read_oid frame d.1) tt
        λ o. Total-cov_values frame o.1 _

-- decodeCOVNotification returns for every payload: it never indexes or slices out of range, and
-- its loop ends.
pub decode_cov_notification_total :
    (payload : List ℕ) → (r : CovNotification × Bool) × (decode_cov_notification payload ≡ ok r)
unfolding decode_cov_notification
decode_cov_notification_total payload =
    let (r, e, _) = Total-Returns (decode_cov_notification payload) (
      Total-then (skip_value payload 0) _ _ (Total-skip_value payload 0) tt
        (λ p. Total-cov_objects payload p no_notification)) in
    (r, e)
