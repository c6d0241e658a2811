-- ===== src/Forward/Chunk/Order.antt =====
-- The order of the chunks (chunkPayload and lastTailFull of fwDCS/internal/forwarder/forwarder.go):
-- those of devices, then those of links and events.
use dcim_data_reader.Prelude.{
  ℕ, ◌+◌, ◌≤◌, ◌≡◌, ◌∙◌, refl, sym, ap, subst, true, false, List, [], ◌∷◌, ◌++◌, ltb, length, arith,
  ◌⊎◌, inl, inr, total_of, total_of-append, on_last, last-append, on_last-append, last-cases, All,
  All-append, All-append-left, All-append-right, append_assoc, append-nil, length-append,
  Bool-cases,
}
use dcim_data_reader.Forward.Payload.{AggTopoLink, AggEvent, AggPayload}
use dcim_data_reader.Forward.Chunk.Split.{JsonLen}
use dcim_data_reader.Forward.Chunk.{
  base, has_devices, tail_bytes, last_tail_full, needs_tail, with_room, on_tail, put_link,
  put_event, pack_links, pack_events, device_chunks, chunk_payload, max_post_bytes,
}
use dcim_data_reader.Forward.Chunk.Shape.{
  IsBounded, measured, rows, IsDeviceChunk, device_chunks-IsDeviceChunk,
}

module _ (V : Type 0) (len : JsonLen V) where
  -- A chunk of `p` without devices.
  abbrev pub IsTailChunk : AggPayload V → AggPayload V → Type 0
  IsTailChunk p c = (c.devices ≡ []) × ((base V len c ≡ base V len p) × IsBounded V len c)

  -- The chunks are those of `front`, and then chunks without devices.
  abbrev pub IsTailed : AggPayload V → List (AggPayload V) → List (AggPayload V) → Type 0
  IsTailed p front chunks =
      (tails : List (AggPayload V)) × ((chunks ≡ front ++ tails) × All (IsTailChunk p) tails)

  -- What putting a row of so many bytes into a chunk does.
  abbrev Puts : ℕ → (AggPayload V → AggPayload V) → Type 0
  Puts bytes put =
      (c : AggPayload V)
      → ((put c).devices ≡ c.devices)
        × ((base V len (put c) ≡ base V len c)
            × ((measured V len (put c) ≡ measured V len c + bytes)
                × (rows V len (put c) ≡ rows V len c + 1)))

  put_link-Puts : (l : AggTopoLink) → Puts (len.link l) (put_link V len l)
  unfolding put_link measured rows base
  put_link-Puts l c =
      let total = total_of-append len.link c.topology_links (l ∷ []) in
      let count = length-append c.topology_links (l ∷ []) in
      (refl, (refl, (omega (arith, total), omega (arith, count))))

  put_event-Puts : (e : AggEvent) → Puts (len.event e) (put_event V len e)
  unfolding put_event measured rows base
  put_event-Puts e c =
      let total = total_of-append len.event c.events (e ∷ []) in
      let count = length-append c.events (e ∷ []) in
      (refl, (refl, (omega (arith, total), omega (arith, count))))

  not_full :
      (c : AggPayload V) (bytes : ℕ)
      → c.devices ≡ []
      → last_tail_full V len c bytes ≡ false
      → (rows V len c ≤ 0) ⊎ (measured V len c + bytes ≤ max_post_bytes)
  unfolding last_tail_full has_devices tail_bytes rows measured
  not_full c bytes e room =
      let no_devices = ap length e in
      let no_bytes = ap (total_of len.device) e in ground (arith, no_devices, no_bytes)

  -- The last chunk of devices takes no link and no event.
  sealed :
      (p : AggPayload V) (front : List (AggPayload V)) (bytes : ℕ)
      → All (IsDeviceChunk V len p) front
      → with_room V len p bytes front ≡ front ++ base V len p ∷ []
  unfolding with_room needs_tail last_tail_full has_devices
  sealed p front bytes all = elim (last-cases front) [
    | inl e ↦ rw e refl
    | inr (init, (c, e)) ↦
        let (some_device, rest) =
          (All-append-right (IsDeviceChunk V len p) init (c ∷ [])
            (subst (All (IsDeviceChunk V len p)) e all)).0 in
        let has : ltb 0 (length c.devices) ≡ true = ground (arith, some_device) in
        rw (e, last-append init c, has) refl
  ]

  base-rows : (p : AggPayload V) → rows V len (base V len p) ≡ 0
  unfolding base rows
  base-rows p = refl

  module _ (p : AggPayload V) (bytes : ℕ) (put : AggPayload V → AggPayload V)
      (puts : Puts bytes put) where
    put-base-IsTailChunk : IsTailChunk p (put (base V len p))
    unfolding base IsBounded
    put-base-IsTailChunk =
        let (devices, (scope, (total, count))) = puts (base V len p) in
        let none_yet = base-rows p in (devices, (scope, inl (omega (arith, count, none_yet))))

    put-IsTailChunk :
        (c : AggPayload V)
        → IsTailChunk p c
        → last_tail_full V len c bytes ≡ false
        → IsTailChunk p (put c)
    unfolding IsBounded
    put-IsTailChunk c (devices, (scope, small)) room =
        let (devices', (scope', (total, count))) = puts c in
        (
          devices' ∙ devices,
          (
            scope' ∙ scope,
            elim (not_full c bytes devices room) [
              | inl none_yet ↦ inl (omega (arith, count, none_yet))
              | inr fits ↦ inr (omega (arith, total, fits))
            ],
          ),
        )

    extend_last :
        (front init : List (AggPayload V)) (c : AggPayload V)
        → All (IsTailChunk p) init
        → IsTailChunk p c
        → (chunks : List (AggPayload V)) → chunks ≡ (front ++ init) ++ c ∷ []
        → IsTailed p front (on_tail V len p bytes put chunks)
    unfolding on_tail with_room needs_tail
    extend_last front init c all tail chunks whole =
        elim (Bool-cases (last_tail_full V len c bytes)) [
          | inl full ↦ (
            (init ++ c ∷ []) ++ put (base V len p) ∷ [],
            (
              rw (whole, last-append (front ++ init) c, full, append_assoc front init (c ∷ []))
                  (on_last-append put (front ++ (init ++ c ∷ [])) (base V len p)
                    ∙ append_assoc front (init ++ c ∷ []) (put (base V len p) ∷ [])),
              All-append (IsTailChunk p) (init ++ c ∷ []) (put (base V len p) ∷ [])
                  (All-append (IsTailChunk p) init (c ∷ []) all (tail, tt))
                  (put-base-IsTailChunk, tt),
            ),
          )
          | inr room ↦ (
            init ++ put c ∷ [],
            (
              rw (whole, last-append (front ++ init) c, room)
                  (on_last-append put (front ++ init) c ∙ append_assoc front init (put c ∷ [])),
              All-append (IsTailChunk p) init (put c ∷ []) all (put-IsTailChunk c tail room, tt),
            ),
          )
        ]

    on_tail-IsTailed :
        (front : List (AggPayload V)) (chunks : List (AggPayload V))
        → All (IsDeviceChunk V len p) front
        → IsTailed p front chunks
        → IsTailed p front (on_tail V len p bytes put chunks)
    unfolding on_tail
    on_tail-IsTailed front chunks devices (tails, (e, all)) = elim (last-cases tails) [
      | inl none_yet ↦ (
        put (base V len p) ∷ [],
        (
          ap (on_tail V len p bytes put)
                (e ∙ ap (λ rest. front ++ rest) none_yet ∙ append-nil front)
              ∙ ap (on_last put) (sealed p front bytes devices)
              ∙ on_last-append put front (base V len p),
          (put-base-IsTailChunk, tt),
        ),
      )
      | inr (init, (c, e')) ↦
          let whole : chunks ≡ (front ++ init) ++ c ∷ [] =
            e ∙ ap (λ rest. front ++ rest) e' ∙ sym (append_assoc front init (c ∷ [])) in
          let parts = subst (All (IsTailChunk p)) e' all in
          extend_last front init c (All-append-left (IsTailChunk p) init (c ∷ []) parts)
            (All-append-right (IsTailChunk p) init (c ∷ []) parts).0 chunks whole
    ]

  pack_links-IsTailed :
      (p : AggPayload V) (ls : List AggTopoLink) (front chunks : List (AggPayload V))
      → All (IsDeviceChunk V len p) front
      → IsTailed p front chunks
      → IsTailed p front (pack_links V len p ls chunks)
  unfolding pack_links
  pack_links-IsTailed p [] front chunks devices h = h
  pack_links-IsTailed p (l ∷ ls) front chunks devices h =
      pack_links-IsTailed p ls front (on_tail V len p (len.link l) (put_link V len l) chunks)
        devices
        (on_tail-IsTailed p (len.link l) (put_link V len l) (put_link-Puts l) front chunks devices
          h)

  pack_events-IsTailed :
      (p : AggPayload V) (es : List AggEvent) (front chunks : List (AggPayload V))
      → All (IsDeviceChunk V len p) front
      → IsTailed p front chunks
      → IsTailed p front (pack_events V len p es chunks)
  unfolding pack_events
  pack_events-IsTailed p [] front chunks devices h = h
  pack_events-IsTailed p (e ∷ es) front chunks devices h =
      pack_events-IsTailed p es front (on_tail V len p (len.event e) (put_event V len e) chunks)
        devices
        (on_tail-IsTailed p (len.event e) (put_event V len e) (put_event-Puts e) front chunks
          devices h)

  -- The chunks of a payload are chunks of devices alone, each with a device, followed by chunks
  -- without devices: no link and no event is posted with a device or before one.
  pub chunk_payload-IsTailed :
      (p : AggPayload V)
      → All (IsDeviceChunk V len p) (device_chunks V len p)
        × IsTailed p (device_chunks V len p) (chunk_payload V len p)
  unfolding chunk_payload
  chunk_payload-IsTailed p =
      let front = device_chunks V len p in
      let devices = device_chunks-IsDeviceChunk V len p in
      (
        devices,
        pack_events-IsTailed p p.events front (pack_links V len p p.topology_links front) devices (
            pack_links-IsTailed p p.topology_links front front devices
              ([], (sym (append-nil front), tt))),
      )
