-- ===== src/Forward/Chunk/Devices.antt =====
-- The chunks of devices (chunkPayload of fwDCS/internal/forwarder/forwarder.go).
use dcim_data_reader.Prelude.{
  ℕ, ◌-◌, ◌≡◌, ◌∙◌, refl, sym, ap, false, List, [], ◌∷◌, ◌++◌, map, ltb, length, if◌then◌else◌,
  arith, inl, inr, concat_map, concat_map-append, append_assoc, append-nil, Bool-cases,
}
use dcim_data_reader.Forward.Payload.{AggDevice, AggPayload}
use dcim_data_reader.Forward.Chunk.Split.{JsonLen, split_device}
use dcim_data_reader.Forward.Chunk.{
  Packing, base, has_devices, close_chunk, open_chunk, device_room, one_device, put_device,
  pack_device, pack_devices, device_chunks, max_post_bytes, envelope,
}

pub nil-length {ℓ} : {A : Type ℓ} (xs : List A) → ltb 0 (length xs) ≡ false → xs ≡ []
nil-length [] e = refl
nil-length (x ∷ xs) e = ground arith

module _ (V : Type 0) (len : JsonLen V) where
  -- What a device is sent as.
  unfoldable pub pieces : AggDevice V → List (AggDevice V)
  pieces d =
      if ltb max_post_bytes (len.device d)
      then split_device V len d (max_post_bytes - envelope)
      else d ∷ []

  abbrev packed : Packing V len → List (AggDevice V)
  packed s = concat_map (λ c. c.devices) s.chunks ++ s.cur.devices

  concat_map-last :
      (cs : List (AggPayload V)) (c : AggPayload V)
      → concat_map (λ c. c.devices) (cs ++ c ∷ []) ≡ concat_map (λ c. c.devices) cs ++ c.devices
  concat_map-last cs c =
      concat_map-append (λ c. c.devices) cs (c ∷ [])
      ∙ ap (λ rest. concat_map (λ c. c.devices) cs ++ rest) (append-nil c.devices)

  close_chunk-packed :
      (p : AggPayload V) (s : Packing V len) → packed (close_chunk V len p s) ≡ packed s
  unfolding close_chunk base
  close_chunk-packed p s = append-nil _ ∙ concat_map-last s.chunks s.cur

  open_chunk-packed :
      (p : AggPayload V) (s : Packing V len) → packed (open_chunk V len p s) ≡ packed s
  unfolding open_chunk
  open_chunk-packed p s = ground (arith, close_chunk-packed p s)

  open_chunk-cur : (p : AggPayload V) (s : Packing V len) → (open_chunk V len p s).cur.devices ≡ []
  unfolding open_chunk close_chunk base has_devices
  open_chunk-cur p s = elim (Bool-cases (ltb 0 (length s.cur.devices))) [
    | inl e ↦ rw e refl
    | inr e ↦ rw e (nil-length s.cur.devices e)
  ]

  one_device-devices :
      (p : AggPayload V) (frags : List (AggDevice V))
      → concat_map (λ c. c.devices) (map (one_device V len p) frags) ≡ frags
  unfolding one_device
  one_device-devices p [] = refl
  one_device-devices p (d ∷ ds) = ap (λ rest. d ∷ rest) (one_device-devices p ds)

  put_frags-packed :
      (p : AggPayload V) (frags : List (AggDevice V)) (s : Packing V len)
      → s.cur.devices ≡ []
      → packed (record s { chunks = s.chunks ++ map (one_device V len p) frags })
        ≡ packed s ++ frags
  put_frags-packed p frags s e =
      rw
        (
          e,
          concat_map-append (λ c. c.devices) s.chunks (map (one_device V len p) frags),
          one_device-devices p frags,
          append-nil (concat_map (λ c. c.devices) s.chunks ++ frags),
          append-nil (concat_map (λ c. c.devices) s.chunks),
        )
        refl

  device_room-packed :
      (p : AggPayload V) (bytes : ℕ) (s : Packing V len)
      → packed (device_room V len p bytes s) ≡ packed s
  unfolding device_room
  device_room-packed p bytes s = ground (arith, close_chunk-packed p s)

  pack_device-packed :
      (p : AggPayload V) (d : AggDevice V) (s : Packing V len)
      → packed (pack_device V len p d s) ≡ packed s ++ pieces d
  unfolding pack_device pieces put_device
  pack_device-packed p d s = elim (Bool-cases (ltb max_post_bytes (len.device d))) [
    | inl e ↦
        let frags = split_device V len d (max_post_bytes - envelope) in
        rw e (
          put_frags-packed p frags (open_chunk V len p s) (open_chunk-cur p s)
          ∙ ap (λ front. front ++ frags) (open_chunk-packed p s))
    | inr e ↦ rw e (
        sym (
          append_assoc (concat_map (λ c. c.devices) (device_room V len p (len.device d) s).chunks)
            (device_room V len p (len.device d) s).cur.devices (d ∷ []))
        ∙ ap (λ front. front ++ d ∷ []) (device_room-packed p (len.device d) s))
  ]

  pack_devices-packed :
      (p : AggPayload V) (ds : List (AggDevice V)) (s : Packing V len)
      → packed (pack_devices V len p ds s) ≡ packed s ++ concat_map pieces ds
  unfolding pack_devices
  pack_devices-packed p [] s = sym (append-nil (packed s))
  pack_devices-packed p (d ∷ ds) s =
      pack_devices-packed p ds (pack_device V len p d s)
      ∙ ap (λ front. front ++ concat_map pieces ds) (pack_device-packed p d s)
      ∙ append_assoc (packed s) (pieces d) (concat_map pieces ds)

  pub device_chunks-devices :
      (p : AggPayload V)
      → concat_map (λ c. c.devices) (device_chunks V len p) ≡ concat_map pieces p.devices
  unfolding device_chunks has_devices base
  device_chunks-devices p =
      let start : Packing V len = record {
        chunks = [];
        cur = base V len p;
        cur_bytes = envelope;
      } in
      let s = pack_devices V len p p.devices start in
      elim (Bool-cases (ltb 0 (length s.cur.devices))) [
        | inl e ↦ rw e (concat_map-last s.chunks s.cur ∙ pack_devices-packed p p.devices start)
        | inr e ↦ rw e (
            sym (append-nil (concat_map (λ c. c.devices) s.chunks))
            ∙ ap (λ rest. concat_map (λ c. c.devices) s.chunks ++ rest)
                (sym (nil-length s.cur.devices e))
            ∙ pack_devices-packed p p.devices start)
      ]
