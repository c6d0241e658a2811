-- ===== src/Forward/Chunk/Laws.antt =====
-- What chunkPayload promises (fwDCS/internal/forwarder/forwarder.go).
use dcim_data_reader.Prelude.{
  ◌≡◌, ◌∙◌, refl, sym, ap, List, [], ◌∷◌, ◌++◌, inl, inr, All, All-append, All-weaken, concat_map,
  concat_map-append, concat_map-single, concat_map-nothing, append-nil, ltb, Bool-cases, ◌-◌,
}
use dcim_data_reader.Forward.Payload.{AggDevice, AggTopoLink, AggEvent, AggPayload}
use dcim_data_reader.Forward.Chunk.Split.{JsonLen}
use dcim_data_reader.Forward.Chunk.Split.Laws.{split_device-contents}
use dcim_data_reader.Forward.Chunk.{
  base, put_link, put_event, pack_links, device_chunks, chunk_payload, max_post_bytes, envelope,
}
use dcim_data_reader.Forward.Chunk.Shape.{IsBounded, IsDeviceChunk, device_chunks-IsDeviceChunk}
use dcim_data_reader.Forward.Chunk.Devices.{pieces, device_chunks-devices}
use dcim_data_reader.Forward.Chunk.Tail.{pack_links-carried, pack_events-carried}
use dcim_data_reader.Forward.Chunk.Order.{IsTailChunk, chunk_payload-IsTailed}

module _ (V : Type 0) (len : JsonLen V) where
  -- A list that the chunks carry besides that of the devices.
  tail-carried :
      {B : Type 0} (f : AggPayload V → List B) (g : AggTopoLink → List B) (h : AggEvent → List B)
      → ((p : AggPayload V) → f (base V len p) ≡ [])
      → ((l : AggTopoLink) (c : AggPayload V) → f (put_link V len l c) ≡ f c ++ g l)
      → ((e : AggEvent) (c : AggPayload V) → f (put_event V len e c) ≡ f c ++ h e)
      → (p : AggPayload V)
      → concat_map f (chunk_payload V len p)
        ≡ (concat_map f (device_chunks V len p) ++ concat_map g p.topology_links)
          ++ concat_map h p.events
  unfolding chunk_payload
  tail-carried f g h f-base f-link f-event p =
      pack_events-carried V len f f-base p h f-event p.events
        (pack_links V len p p.topology_links (device_chunks V len p))
      ∙ ap (λ front. front ++ concat_map h p.events)
          (pack_links-carried V len f f-base p g f-link p.topology_links (device_chunks V len p))

  nothing_yet :
      {B : Type 0} (f : AggPayload V → List B) (p : AggPayload V)
      → ((c : AggPayload V) → IsDeviceChunk V len p c → f c ≡ [])
      → (cs : List (AggPayload V)) → All (IsDeviceChunk V len p) cs
      → concat_map f cs ≡ []
  nothing_yet f p none_in [] h = refl
  nothing_yet f p none_in (c ∷ cs) (k, h) = rw (none_in c k) (nothing_yet f p none_in cs h)

  pub chunk_payload-devices :
      (p : AggPayload V)
      → concat_map (λ c. c.devices) (chunk_payload V len p) ≡ concat_map (pieces V len) p.devices
  unfolding put_link put_event base
  chunk_payload-devices p =
      tail-carried (λ c. c.devices) (λ l. []) (λ e. []) (λ c. refl)
        (λ l c. sym (append-nil c.devices)) (λ e c. sym (append-nil c.devices)) p
      ∙ rw
          (
            concat_map-nothing {B = AggDevice V} p.topology_links,
            concat_map-nothing {B = AggDevice V} p.events,
          )
          (append-nil _ ∙ append-nil _ ∙ device_chunks-devices V len p)

  pieces-contents :
      (d : AggDevice V)
      → (concat_map (λ x. x.metrics) (pieces V len d) ≡ d.metrics)
        × (concat_map (λ x. x.energy_metrics) (pieces V len d) ≡ d.energy_metrics)
        × (concat_map (λ x. x.interfaces) (pieces V len d) ≡ d.interfaces)
  unfolding pieces
  pieces-contents d = elim (Bool-cases (ltb max_post_bytes (len.device d))) [
    | inl e ↦ rw e (split_device-contents V len d (max_post_bytes - envelope))
    | inr e ↦ rw e (append-nil d.metrics, append-nil d.energy_metrics, append-nil d.interfaces)
  ]

  through_pieces :
      {B : Type 0} (f : AggDevice V → List B)
      → ((d : AggDevice V) → concat_map f (pieces V len d) ≡ f d)
      → (ds : List (AggDevice V)) → concat_map f (concat_map (pieces V len) ds) ≡ concat_map f ds
  through_pieces f whole [] = refl
  through_pieces f whole (d ∷ ds) =
      rw
        (
          concat_map-append f (pieces V len d) (concat_map (pieces V len) ds),
          whole d,
          through_pieces f whole ds,
        )
        refl

  -- The chunks of a payload carry, one after the other, the metrics, the energy readings and
  -- the interfaces of its devices, its links and its events: all of them, once, in order.
  pub chunk_payload-contents :
      (p : AggPayload V)
      → let chunks = chunk_payload V len p in
        let devices = concat_map (λ c. c.devices) chunks in
        (concat_map (λ d. d.metrics) devices ≡ concat_map (λ d. d.metrics) p.devices)
        × (concat_map (λ d. d.energy_metrics) devices
            ≡ concat_map (λ d. d.energy_metrics) p.devices)
        × (concat_map (λ d. d.interfaces) devices ≡ concat_map (λ d. d.interfaces) p.devices)
        × (concat_map (λ c. c.topology_links) chunks ≡ p.topology_links)
        × (concat_map (λ c. c.events) chunks ≡ p.events)
  unfolding put_link put_event base
  chunk_payload-contents p =
      let all = device_chunks-IsDeviceChunk V len p in
      (
        ap (concat_map (λ d. d.metrics)) (chunk_payload-devices p)
            ∙ through_pieces (λ d. d.metrics) (λ d. (pieces-contents d).0) p.devices,
        ap (concat_map (λ d. d.energy_metrics)) (chunk_payload-devices p)
            ∙ through_pieces (λ d. d.energy_metrics) (λ d. (pieces-contents d).1) p.devices,
        ap (concat_map (λ d. d.interfaces)) (chunk_payload-devices p)
            ∙ through_pieces (λ d. d.interfaces) (λ d. (pieces-contents d).2) p.devices,
        tail-carried (λ c. c.topology_links) (λ l. l ∷ []) (λ e. []) (λ c. refl) (λ l c. refl)
              (λ e c. sym (append-nil c.topology_links)) p
            ∙ rw
                (
                  concat_map-single p.topology_links,
                  concat_map-nothing {B = AggTopoLink} p.events,
                  nothing_yet (λ c. c.topology_links) p (λ c k. k.1.1.0) (device_chunks V len p)
                      all,
                )
                (append-nil p.topology_links),
        tail-carried (λ c. c.events) (λ l. []) (λ e. e ∷ []) (λ c. refl)
              (λ l c. sym (append-nil c.events)) (λ e c. refl) p
            ∙ rw
                (
                  concat_map-single p.events,
                  concat_map-nothing {B = AggEvent} p.topology_links,
                  nothing_yet (λ c. c.events) p (λ c k. k.1.1.1.0) (device_chunks V len p) all,
                )
                refl,
      )

  -- Every chunk of a payload has the scope of the payload, and either its rows, as chunkPayload
  -- counts them, fit in maxPostBytes with the envelope, or it has at most one row.
  pub chunk_payload-IsBounded :
      (p : AggPayload V)
      → All (λ c. (base V len c ≡ base V len p) × IsBounded V len c) (chunk_payload V len p)
  chunk_payload-IsBounded p =
      let (devices, (tails, (e, all))) = chunk_payload-IsTailed V len p in
      rw e (
        All-append (λ c. (base V len c ≡ base V len p) × IsBounded V len c) (device_chunks V len p)
          tails
          (All-weaken (IsDeviceChunk V len p) _ (device_chunks V len p) (λ c k. (k.1.0, k.1.1.1.1))
            devices)
          (All-weaken (IsTailChunk V len p) _ tails (λ c k. k.1) all))
