-- ===== src/Bacnet/Notify.antt =====
-- decodeIAm and decodeCOVNotification of fwEDR/internal/bacnet/codec.go.
pub mod Safe
use dcim_data_reader.Prelude.{
  ℕ, zero, suc, ◌+◌, ◌*◌, ◌^◌, ◌%◌, Bool, true, false, not, ◌&&◌, ◌||◌, Option, none, some, List,
  [], ◌∷◌, ◌++◌, ltb, leb, ◌==◌, if◌then◌else◌, length, bit_or, Run, ok, err, panic, hang, Round,
  again, leave, loop, ◌>>=◌, index, slice, attempt,
}
use mathlib.Core.Option
use dcim_data_reader.Bacnet.Frame.{Error}
use dcim_data_reader.Bacnet.Tag.{
  Oid, decode_oid, TagHdr, read_tag_hdr, Scalar, decode_app_value, skip_to_close,
}
use dcim_data_reader.Bacnet.Response.{is_property, expect, opens, closes, read_prop, after_closing}

unfoldable pub decode_i_am : List ℕ → Run Error (Option ℕ)
decode_i_am payload = if ltb (length payload) 5 then ok none else do
  first ← index payload 0
  if first == 0xc4
      then (do window ← slice payload 1 5; oid ← decode_oid window; ok (some oid.inst))
      else ok none

-- `present_value` is `none` where hasValue is false.
pub record CovNotification : Type 0 where
  pub device_instance : ℕ
  pub obj_type : ℕ
  pub inst : ℕ
  pub present_value : Option Scalar

abbrev pub prop_present_value : ℕ
prop_present_value = 85

-- Context[4] and the value in it, if they are there: the notification and the position after it.
cov_value : List ℕ → ℕ → ℕ → CovNotification → Run Error (CovNotification × ℕ)
cov_value frame prop pos n = do
  found ← expect frame pos (opens 4)
  elim found [
    | none ↦ ok (n, pos)
    | some h ↦ do
      value ← decode_app_value frame h.new_pos
      after ← skip_to_close frame h.new_pos 4
      ok (
        elim value [
          | none ↦ n
          | some (v, _) ↦
              if prop == prop_present_value then record n { present_value = some v } else n
        ],
        after,
      )
  ]

abbrev is_some {ℓ} : {A : Type ℓ} → Option A → Bool
is_some none = false
is_some (some a) = true

abbrev pub CovRound : Type 0
CovRound = Round (ℕ × CovNotification) CovNotification

-- From the property identifier on.
cov_property : List ℕ → ℕ → CovNotification → Run Error CovRound
unfolding cov_value
cov_property frame pos n = do
  found ← expect frame pos (is_property frame)
  elim found [
    | none ↦ ok (leave n)
    | some id ↦ do
      prop ← read_prop frame id.new_pos id.vlen 0
      (n', after) ← cov_value frame prop (id.new_pos + id.vlen) n
      next ← after_closing frame after
      ok (again (next, n'))
  ]

-- One round over the list of values.
cov_round : List ℕ → ℕ × CovNotification → Run Error CovRound
unfolding cov_property
cov_round frame (pos, n) = if leb (length frame) pos then ok (leave n) else do
  found ← attempt (read_tag_hdr frame pos)
  elim found [
    | none ↦ ok (leave n)
    | some h ↦
        if closes 4 h
        then ok (leave n)
        else if opens 2 h
        then cov_property frame h.new_pos n
        else ok (leave n)
  ]

-- A tag whose value is an object identifier, and the position after it.
read_oid : List ℕ → ℕ → Run Error (Option (Oid × ℕ))
read_oid frame pos = do
  found ← attempt (read_tag_hdr frame pos)
  elim found [
    | none ↦ ok none
    | some h ↦ if ltb (length frame) (h.new_pos + 4) then ok none else do
      window ← slice frame h.new_pos (h.new_pos + 4)
      oid ← decode_oid window
      ok (some (oid, h.new_pos + 4))
  ]

-- A tag whose value is passed over: the position after it.
skip_value : List ℕ → ℕ → Run Error (Option ℕ)
skip_value frame pos = do
  found ← attempt (read_tag_hdr frame pos)
  ok (Option.map (λ h. h.new_pos + h.vlen) found)

-- From context[3] on.
cov_values : List ℕ → ℕ → CovNotification → Run Error (CovNotification × Bool)
unfolding skip_value cov_round loop
cov_values frame pos n = do
  after_time ← skip_value frame pos
  elim after_time [
    | none ↦ ok (n, false)
    | some p ↦ do
      found ← expect frame p (opens 4)
      elim found [
        | none ↦ ok (n, false)
        | some h ↦ do
          n' ← loop (suc (length frame)) (cov_round frame) (h.new_pos, n)
          ok (n', is_some n'.present_value)
      ]
  ]

-- From context[1] on.
cov_objects : List ℕ → ℕ → CovNotification → Run Error (CovNotification × Bool)
unfolding read_oid cov_values
cov_objects frame pos n = do
  device ← read_oid frame pos
  elim device [
    | none ↦ ok (n, false)
    | some (d, p) ↦ do
      object ← read_oid frame p
      let n1 = record n { device_instance = d.inst }
      elim object [
        | none ↦ ok (n1, false)
        | some (o, q) ↦ cov_values frame q (record n1 { obj_type = o.obj_type; inst = o.inst })
      ]
  ]

abbrev pub no_notification : CovNotification
no_notification = record { device_instance = 0; obj_type = 0; inst = 0; present_value = none }

unfoldable pub decode_cov_notification : List ℕ → Run Error (CovNotification × Bool)
unfolding skip_value cov_objects
decode_cov_notification frame = do
  after_process ← skip_value frame 0
  elim after_process [
    | none ↦ ok (no_notification, false)
    | some p ↦ cov_objects frame p no_notification
  ]
