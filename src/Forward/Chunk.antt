-- ===== src/Forward/Chunk.antt =====
-- chunkPayload of fwDCS/internal/forwarder/forwarder.go: a payload cut into POST bodies that are not
-- too long. The lengths of the JSON that encoding/json makes are parameters.
pub mod Split
pub mod Devices
pub mod Shape
pub mod Tail
pub mod Order
pub mod Laws
use dcim_data_reader.Prelude.{
  ℕ, ◌+◌, ◌-◌, Bool, true, ◌&&◌, ◌||◌, Option, none, some, List, [], ◌∷◌, ◌++◌, map, ltb, length,
  if◌then◌else◌, total_of, last, on_last, ◌==◌,
}
use dcim_data_reader.Forward.Payload.{
  AggDevice, AggMetric, AggEnergyMetric, AggTopoLink, AggEvent, AggPayload,
}
use dcim_data_reader.Forward.Chunk.Split.{JsonLen, split_device}

-- maxPostBytes and envelope.
abbrev pub max_post_bytes : ℕ
max_post_bytes = 524288

abbrev pub envelope : ℕ
envelope = 512

module _ (V : Type 0) (len : JsonLen V) where
  -- The closure `base`: the payload's scope, with no rows.
  unfoldable pub base : AggPayload V → AggPayload V
  base p = record p { devices = []; topology_links = []; events = [] }

  -- The variables of the loop over the devices.
  pub record Packing : Type 0 where
    pub chunks : List (AggPayload V)
    pub cur : AggPayload V
    pub cur_bytes : ℕ

  unfoldable pub has_devices : AggPayload V → Bool
  has_devices c = ltb 0 (length c.devices)

  -- The chunk is complete: the next one starts.
  unfoldable pub close_chunk : AggPayload V → Packing → Packing
  unfolding base
  close_chunk p s = record { chunks = s.chunks ++ s.cur ∷ []; cur = base p; cur_bytes = envelope }

  unfoldable pub one_device : AggPayload V → AggDevice V → AggPayload V
  unfolding base
  one_device p frag = record (base p) { devices = frag ∷ [] }

  unfoldable pub put_device : AggDevice V → ℕ → Packing → Packing
  put_device d bytes s = record s {
    cur = record s.cur { devices = s.cur.devices ++ d ∷ [] };
    cur_bytes = s.cur_bytes + bytes;
  }

  unfoldable pub open_chunk : AggPayload V → Packing → Packing
  unfolding close_chunk has_devices
  open_chunk p s = if has_devices s.cur then close_chunk p s else s

  -- A new chunk where the device does not fit.
  unfoldable pub device_room : AggPayload V → ℕ → Packing → Packing
  unfolding close_chunk has_devices
  device_room p bytes s =
      if has_devices s.cur && ltb max_post_bytes (s.cur_bytes + bytes) then close_chunk p s else s

  -- A round of the loop over the devices.
  unfoldable pub pack_device : AggPayload V → AggDevice V → Packing → Packing
  unfolding open_chunk device_room one_device put_device
  pack_device p d s =
      let bytes = len.device d in
      let frags = map (one_device p) (split_device V len d (max_post_bytes - envelope)) in
      if ltb max_post_bytes bytes
      then record (open_chunk p s) { chunks = (open_chunk p s).chunks ++ frags }
      else put_device d bytes (device_room p bytes s)

  unfoldable pub pack_devices : AggPayload V → List (AggDevice V) → Packing → Packing
  unfolding pack_device
  pack_devices p [] s = s
  pack_devices p (d ∷ ds) s = pack_devices p ds (pack_device p d s)

  -- The chunks of devices.
  unfoldable pub device_chunks : AggPayload V → List (AggPayload V)
  unfolding pack_devices base has_devices
  device_chunks p =
      let s =
        pack_devices p p.devices (record { chunks = []; cur = base p; cur_bytes = envelope }) in
      if has_devices s.cur then s.chunks ++ s.cur ∷ [] else s.chunks

  -- What lastTailFull measures.
  unfoldable pub tail_bytes : AggPayload V → ℕ
  tail_bytes c = envelope + total_of len.link c.topology_links + total_of len.event c.events

  unfoldable pub last_tail_full : AggPayload V → ℕ → Bool
  unfolding has_devices tail_bytes
  last_tail_full c add_bytes =
      if has_devices c
      then true
      else (ltb 0 (length c.topology_links) || ltb 0 (length c.events))
        && ltb max_post_bytes (tail_bytes c + add_bytes)

  -- `len(chunks) == 0 || lastTailFull(...)`
  unfoldable pub needs_tail : Option (AggPayload V) → ℕ → Bool
  unfolding last_tail_full
  needs_tail none add_bytes = true
  needs_tail (some c) add_bytes = last_tail_full c add_bytes

  -- The chunks with a last one that takes so many bytes more.
  unfoldable pub with_room : AggPayload V → ℕ → List (AggPayload V) → List (AggPayload V)
  unfolding needs_tail base
  with_room p add_bytes chunks =
      if needs_tail (last chunks) add_bytes then chunks ++ base p ∷ [] else chunks

  -- The last chunk with room for so many bytes, changed in place.
  unfoldable pub on_tail :
      AggPayload V → ℕ → (AggPayload V → AggPayload V) → List (AggPayload V) → List (AggPayload V)
  unfolding with_room
  on_tail p add_bytes put chunks = on_last put (with_room p add_bytes chunks)

  unfoldable pub put_link : AggTopoLink → AggPayload V → AggPayload V
  put_link l c = record c { topology_links = c.topology_links ++ l ∷ [] }

  unfoldable pub put_event : AggEvent → AggPayload V → AggPayload V
  put_event e c = record c { events = c.events ++ e ∷ [] }

  unfoldable pub pack_links :
      AggPayload V → List AggTopoLink → List (AggPayload V) → List (AggPayload V)
  unfolding on_tail put_link
  pack_links p [] chunks = chunks
  pack_links p (l ∷ ls) chunks = pack_links p ls (on_tail p (len.link l) (put_link l) chunks)

  unfoldable pub pack_events :
      AggPayload V → List AggEvent → List (AggPayload V) → List (AggPayload V)
  unfolding on_tail put_event
  pack_events p [] chunks = chunks
  pack_events p (e ∷ es) chunks = pack_events p es (on_tail p (len.event e) (put_event e) chunks)

  unfoldable pub chunk_payload : AggPayload V → List (AggPayload V)
  unfolding device_chunks pack_links pack_events
  chunk_payload p = pack_events p p.events (pack_links p p.topology_links (device_chunks p))
