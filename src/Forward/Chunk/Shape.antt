-- ===== src/Forward/Chunk/Shape.antt =====
-- The shape of the chunks of devices (chunkPayload of fwDCS/internal/forwarder/forwarder.go): their
-- scope, their length, and that they carry nothing but devices.
use dcim_data_reader.Prelude.{
  ℕ, ◌+◌, ◌-◌, ◌≤◌, ◌<◌, ◌≡◌, refl, ap, true, List, [], ◌∷◌, map, ltb, length, arith, ◌⊎◌, inl, inr,
  total_of, total_of-append, All, All-append, length-append, Bool-cases,
}
use dcim_data_reader.Forward.Payload.{AggDevice, AggPayload}
use dcim_data_reader.Forward.Chunk.Split.{JsonLen, split_device}
use dcim_data_reader.Forward.Chunk.{
  Packing, base, has_devices, close_chunk, open_chunk, device_room, one_device, put_device,
  pack_device, pack_devices, device_chunks, max_post_bytes, envelope,
}

module _ (V : Type 0) (len : JsonLen V) where
  -- The envelope and the rows of a chunk, as chunkPayload counts them.
  unfoldable pub measured : AggPayload V → ℕ
  measured c =
      envelope
      + (total_of len.device c.devices
          + (total_of len.link c.topology_links + total_of len.event c.events))

  unfoldable pub rows : AggPayload V → ℕ
  rows c = length c.devices + (length c.topology_links + length c.events)

  -- The rows fit a POST, or there is only one.
  unfoldable pub IsBounded : AggPayload V → Type 0
  unfolding measured rows
  IsBounded c = (rows c ≤ 1) ⊎ (measured c ≤ max_post_bytes)

  -- A chunk of devices of `p` alone, maybe with none yet.
  abbrev IsOpen : AggPayload V → AggPayload V → Type 0
  IsOpen p c =
      (base V len c ≡ base V len p) × ((c.topology_links ≡ []) × ((c.events ≡ []) × IsBounded c))

  abbrev pub IsDeviceChunk : AggPayload V → AggPayload V → Type 0
  IsDeviceChunk p c = (0 < length c.devices) × IsOpen p c

  abbrev IsPacking : AggPayload V → Packing V len → Type 0
  IsPacking p s = (s.cur_bytes ≡ measured s.cur) × (IsOpen p s.cur × All (IsDeviceChunk p) s.chunks)

  base-IsOpen : (p : AggPayload V) → IsOpen p (base V len p)
  unfolding base IsBounded measured rows
  base-IsOpen p = (refl, (refl, (refl, inl (omega arith))))

  close_chunk-IsPacking :
      (p : AggPayload V) (s : Packing V len)
      → IsPacking p s
      → ltb 0 (length s.cur.devices) ≡ true
      → IsPacking p (close_chunk V len p s)
  unfolding close_chunk base measured
  close_chunk-IsPacking p s (e, (opened, all)) some_device = (
    omega arith,
    (
      base-IsOpen p,
      All-append (IsDeviceChunk p) s.chunks (s.cur ∷ []) all ((ground arith, opened), tt),
    ),
  )

  open_chunk-IsPacking :
      (p : AggPayload V) (s : Packing V len) → IsPacking p s → IsPacking p (open_chunk V len p s)
  unfolding open_chunk has_devices
  open_chunk-IsPacking p s h = elim (Bool-cases (ltb 0 (length s.cur.devices))) [
    | inl e ↦ rw e (close_chunk-IsPacking p s h e)
    | inr e ↦ rw e h
  ]

  device_room-IsPacking :
      (p : AggPayload V) (bytes : ℕ) (s : Packing V len)
      → IsPacking p s
      → IsPacking p (device_room V len p bytes s)
  unfolding device_room has_devices
  device_room-IsPacking p bytes s h = ground (arith, close_chunk-IsPacking p s h)

  -- A device more fits.
  HasRoom : ℕ → Packing V len → Type 0
  HasRoom bytes s = (length s.cur.devices ≤ 0) ⊎ (s.cur_bytes + bytes ≤ max_post_bytes)

  device_room-HasRoom :
      (p : AggPayload V) (bytes : ℕ) (s : Packing V len)
      → HasRoom bytes (device_room V len p bytes s)
  unfolding device_room close_chunk has_devices base HasRoom
  device_room-HasRoom p bytes s = ground arith

  put_device-IsPacking :
      (p : AggPayload V) (d : AggDevice V) (s : Packing V len)
      → IsPacking p s
      → HasRoom (len.device d) s
      → IsPacking p (put_device V len d (len.device d) s)
  unfolding put_device HasRoom IsBounded measured rows base
  put_device-IsPacking p d s (e, ((scope, (links, (events, small))), all)) room =
      let total = total_of-append len.device s.cur.devices (d ∷ []) in
      let count = length-append s.cur.devices (d ∷ []) in
      let no_links = ap length links in
      let no_events = ap length events in
      (
        omega (arith, total),
        (
          (
            scope,
            (
              links,
              (
                events,
                elim room [
                  | inl none_yet ↦ inl (omega (arith, count, no_links, no_events))
                  | inr fits ↦ inr (omega (arith, total))
                ],
              ),
            ),
          ),
          all,
        ),
      )

  one_device-IsDeviceChunk :
      (p : AggPayload V) (frags : List (AggDevice V))
      → All (IsDeviceChunk p) (map (one_device V len p) frags)
  unfolding one_device base IsBounded rows
  one_device-IsDeviceChunk p [] = tt
  one_device-IsDeviceChunk p (d ∷ ds) =
      ((omega arith, (refl, (refl, (refl, inl (omega arith))))), one_device-IsDeviceChunk p ds)

  pack_device-IsPacking :
      (p : AggPayload V) (d : AggDevice V) (s : Packing V len)
      → IsPacking p s
      → IsPacking p (pack_device V len p d s)
  unfolding pack_device
  pack_device-IsPacking p d s h = elim (Bool-cases (ltb max_post_bytes (len.device d))) [
    | inl e ↦
        let frags = split_device V len d (max_post_bytes - envelope) in
        let (bytes, (cur, all)) = open_chunk-IsPacking p s h in
        rw e (
          bytes,
          (
            cur,
            All-append (IsDeviceChunk p) (open_chunk V len p s).chunks
                (map (one_device V len p) frags) all (one_device-IsDeviceChunk p frags),
          ),
        )
    | inr e ↦
        let bytes = len.device d in
        rw e (
          put_device-IsPacking p d (device_room V len p bytes s) (device_room-IsPacking p bytes s h)
            (device_room-HasRoom p bytes s))
  ]

  pack_devices-IsPacking :
      (p : AggPayload V) (ds : List (AggDevice V)) (s : Packing V len)
      → IsPacking p s
      → IsPacking p (pack_devices V len p ds s)
  unfolding pack_devices
  pack_devices-IsPacking p [] s h = h
  pack_devices-IsPacking p (d ∷ ds) s h =
      pack_devices-IsPacking p ds (pack_device V len p d s) (pack_device-IsPacking p d s h)

  pub device_chunks-IsDeviceChunk :
      (p : AggPayload V) → All (IsDeviceChunk p) (device_chunks V len p)
  unfolding device_chunks has_devices base measured
  device_chunks-IsDeviceChunk p =
      let start : Packing V len = record {
        chunks = [];
        cur = base V len p;
        cur_bytes = envelope;
      } in
      let s = pack_devices V len p p.devices start in
      let h = pack_devices-IsPacking p p.devices start (omega arith, (base-IsOpen p, tt)) in
      elim (Bool-cases (ltb 0 (length s.cur.devices))) [
        | inl e ↦ rw e (
            All-append (IsDeviceChunk p) s.chunks (s.cur ∷ []) h.1.1
              ((ground (arith, e), h.1.0), tt))
        | inr e ↦ rw e h.1.1
      ]
