-- ===== src/Bacnet/Response.antt =====
-- The response decoders of fwEDR/internal/bacnet/codec.go that walk a ReadPropertyMultiple or a
-- ReadProperty acknowledgement. The variables of a round are its arguments, `out` among them.
pub mod Safe
use dcim_data_reader.Prelude.{
  ℕ, zero, suc, ◌+◌, ◌*◌, ◌^◌, ◌%◌, Bool, true, false, not, ◌&&◌, ◌||◌, Option, none, some, List,
  [], ◌∷◌, ◌++◌, ltb, leb, ◌==◌, if◌then◌else◌, length, bit_or, Run, ok, err, panic, hang, Round,
  again, leave, loop, ◌>>=◌, index, slice, attempt,
}
use mathlib.Core.Option
use dcim_data_reader.Bacnet.Frame.{Error}
use dcim_data_reader.Bacnet.Tag.{
  Oid, decode_oid, TagHdr, read_tag_hdr, Scalar, decode_app_value, skip_to_close,
}

-- `value` is `none` where the device returned a property error, `OK: false`.
pub record PropResult : Type 0 where
  pub obj_type : ℕ
  pub inst : ℕ
  pub prop : ℕ
  pub value : Option Scalar

-- `tn, … , err = readTagHdr(data, pos)`, with the test that the source makes of the header: the
-- header if there is no error and the test passes.
unfoldable pub expect : List ℕ → ℕ → (TagHdr → Bool) → Run Error (Option TagHdr)
expect frame pos test = attempt (read_tag_hdr frame pos) >>= λ found. elim found [
  | none ↦ ok none
  | some h ↦ ok (if test h then some h else none)
]

abbrev pub opens : ℕ → TagHdr → Bool
opens n h = h.is_ctx && h.tag_num == n && h.is_open

abbrev pub closes : ℕ → TagHdr → Bool
closes n h = h.is_ctx && h.tag_num == n && h.is_close

-- `for i := 0; i < vlen; i++ { prop = prop<<8 | int(data[np+i]) }`; an int is its 64-bit pattern.
unfoldable pub read_prop : List ℕ → ℕ → ℕ → ℕ → Run Error ℕ
read_prop frame np zero prop = ok prop
read_prop frame np (suc n) prop = do
  b ← index frame np
  read_prop frame (np + 1) n (bit_or ((prop * 2 ^ 8) % 2 ^ 64) b)

-- The tests of the tags that hold an object identifier, a property identifier and a value.
abbrev pub is_object : List ℕ → TagHdr → Bool
is_object frame h = h.is_ctx && h.tag_num == 0 && leb 4 h.vlen && leb (h.new_pos + 4) (length frame)

abbrev pub is_property : List ℕ → TagHdr → Bool
is_property frame h = h.is_ctx && h.tag_num == 0 && leb (h.new_pos + h.vlen) (length frame)

abbrev is_wrapper : TagHdr → Bool
is_wrapper h = h.is_ctx && h.is_open

-- How an inner loop is left: the outer loop goes on at a position, or the function returns.
pub data Exit : Type 0 where
  goes_on : ℕ → List PropResult → Exit
  returns : List PropResult → Exit

abbrev pub InnerRound : Type 0
InnerRound = Round (ℕ × List PropResult) Exit

-- "consume context[2] closing": the position after it, if it is there.
unfoldable pub after_closing : List ℕ → ℕ → Run Error ℕ
unfolding expect
after_closing frame pos = do
  found ← expect frame pos (closes 2)
  elim found [ none ↦ ok pos | some h ↦ ok h.new_pos ]

-- The value or the error that stands at `pos`, in context[4] or in another opening tag.
rpm_value : List ℕ → Oid → ℕ → ℕ → ℕ → List PropResult → Run Error (List PropResult × ℕ)
rpm_value frame oid prop tag_num pos out =
    if tag_num == 5
    then (do after ← skip_to_close frame pos 5; ok (out ++ result none ∷ [], after))
    else (do
      value ← decode_app_value frame pos
      after ← skip_to_close frame pos 4
      ok (elim value [ none ↦ out | some (v, _) ↦ out ++ result (some v) ∷ [] ], after))
  where
    result : Option Scalar → PropResult
    result v = record { obj_type = oid.obj_type; inst = oid.inst; prop = prop; value = v }

-- From the property identifier on.
rpm_property : List ℕ → Oid → ℕ → List PropResult → Run Error InnerRound
unfolding rpm_value
rpm_property frame oid pos out = do
  found ← expect frame pos (is_property frame)
  elim found [
    | none ↦ ok (leave (returns out))
    | some id ↦ do
      prop ← read_prop frame id.new_pos id.vlen 0
      wrapper ← expect frame (id.new_pos + id.vlen) is_wrapper
      elim wrapper [
        | none ↦ ok (leave (returns out))
        | some w ↦ do
          (out', after) ← rpm_value frame oid prop w.tag_num w.new_pos out
          next ← after_closing frame after
          ok (again (next, out'))
      ]
  ]

-- One round of "each result".
rpm_result : List ℕ → Oid → ℕ × List PropResult → Run Error InnerRound
unfolding rpm_property
rpm_result frame oid (pos, out) =
    if leb (length frame) pos then ok (leave (goes_on pos out)) else do
      found ← attempt (read_tag_hdr frame pos)
      elim found [
        | none ↦ ok (leave (returns out))
        | some h ↦
            if closes 1 h
            then ok (leave (goes_on h.new_pos out))
            else if opens 2 h
            then rpm_property frame oid h.new_pos out
            else ok (leave (returns out))
      ]

-- The object identifier at `np`, the opening of its list of results, and the inner loop.
rpm_list : List ℕ → ℕ → List PropResult → Run Error (Round (ℕ × List PropResult) (List PropResult))
unfolding rpm_result loop
rpm_list frame np out = do
  window ← slice frame np (np + 4)
  oid ← decode_oid window
  list ← expect frame (np + 4) (opens 1)
  elim list [
    | none ↦ ok (leave out)
    | some l ↦ do
      exit ← loop (suc (length frame)) (rpm_result frame oid) (l.new_pos, out)
      ok (elim exit [ goes_on next out' ↦ again (next, out') | returns out' ↦ leave out' ])
  ]

-- One round of the outer loop: an object identifier and its list of results.
rpm_object :
    List ℕ → ℕ × List PropResult → Run Error (Round (ℕ × List PropResult) (List PropResult))
unfolding rpm_list
rpm_object frame (pos, out) = if leb (length frame) pos then ok (leave out) else do
  found ← expect frame pos (is_object frame)
  elim found [ none ↦ ok (leave out) | some h ↦ rpm_list frame h.new_pos out ]

unfoldable pub decode_read_property_multiple_ack : List ℕ → Run Error (List PropResult)
unfolding rpm_object loop
decode_read_property_multiple_ack frame = loop (suc (length frame)) (rpm_object frame) (0, [])

-- One round of the loop of decodeReadPropertyAck.
read_property_round : List ℕ → ℕ → Run Error (Round ℕ (Option Scalar))
read_property_round frame pos = if leb (length frame) pos then ok (leave none) else do
  found ← attempt (read_tag_hdr frame pos)
  elim found [
    | none ↦ ok (leave none)
    | some h ↦
        if opens 3 h
        then (do value ← decode_app_value frame h.new_pos; ok (leave (Option.map (λ x. x.0) value)))
        else ok (again (if h.is_open then h.new_pos else h.new_pos + h.vlen))
  ]

unfoldable pub decode_read_property_ack : List ℕ → Run Error (Option Scalar)
unfolding read_property_round loop
decode_read_property_ack frame = loop (suc (length frame)) (read_property_round frame) 0
