-- ===== src/Forward/Chunk/Tail.antt =====
-- The chunks of links and events (chunkPayload and lastTailFull of
-- fwDCS/internal/forwarder/forwarder.go).
use dcim_data_reader.Prelude.{
  ℕ, ◌≡◌, ◌∙◌, refl, sym, ap, false, List, [], ◌∷◌, ◌++◌, ◌⊎◌, inl, inr, on_last, last-append,
  on_last-append, last-cases, concat_map, concat_map-append, append_assoc, append-nil, Bool-cases,
}
use dcim_data_reader.Forward.Payload.{AggTopoLink, AggEvent, AggPayload}
use dcim_data_reader.Forward.Chunk.Split.{JsonLen}
use dcim_data_reader.Forward.Chunk.{
  base, last_tail_full, needs_tail, with_room, on_tail, put_link, put_event, pack_links,
  pack_events,
}

module _ (V : Type 0) (len : JsonLen V) where
  -- The chunk that takes the next row: a new one, or the last one, which is not full.
  Takes : AggPayload V → ℕ → List (AggPayload V) → List (AggPayload V) → AggPayload V → Type 0
  Takes p bytes chunks init c =
      (with_room V len p bytes chunks ≡ init ++ c ∷ [])
      × (((init ≡ chunks) × (c ≡ base V len p))
          ⊎ ((chunks ≡ init ++ c ∷ []) × (last_tail_full V len c bytes ≡ false)))

  with_room-Takes :
      (p : AggPayload V) (bytes : ℕ) (chunks : List (AggPayload V))
      → (init : List (AggPayload V)) × ((c : AggPayload V) × Takes p bytes chunks init c)
  unfolding with_room needs_tail Takes
  with_room-Takes p bytes chunks = elim (last-cases chunks) [
    | inl e ↦ rw e ([], (base V len p, (refl, inl (refl, refl))))
    | inr (init, (c, e)) ↦ elim (Bool-cases (last_tail_full V len c bytes)) [
      | inl full ↦
          (chunks, (base V len p, (rw (e, last-append init c, full) refl, inl (refl, refl))))
      | inr room ↦ (init, (c, (rw (e, last-append init c, room) refl, inr (e, room))))
    ]
  ]

  on_tail-eq :
      (p : AggPayload V) (bytes : ℕ) (put : AggPayload V → AggPayload V)
      (chunks init : List (AggPayload V)) (c : AggPayload V)
      → Takes p bytes chunks init c
      → on_tail V len p bytes put chunks ≡ init ++ put c ∷ []
  unfolding on_tail Takes
  on_tail-eq p bytes put chunks init c (e, how) = ap (on_last put) e ∙ on_last-append put init c

  -- A list that the chunks carry, to which a row put into a chunk adds `more`.
  module _ {B : Type 0} (f : AggPayload V → List B)
      (f-base : (p : AggPayload V) → f (base V len p) ≡ []) where
    concat_map-last :
        (cs : List (AggPayload V)) (c : AggPayload V)
        → concat_map f (cs ++ c ∷ []) ≡ concat_map f cs ++ f c
    concat_map-last cs c =
        concat_map-append f cs (c ∷ []) ∙ ap (λ rest. concat_map f cs ++ rest) (append-nil (f c))

    concat_map-put :
        (init : List (AggPayload V)) (c c' : AggPayload V) (more : List B)
        → f c' ≡ f c ++ more
        → concat_map f (init ++ c' ∷ []) ≡ concat_map f (init ++ c ∷ []) ++ more
    concat_map-put init c c' more e =
        concat_map-last init c'
        ∙ ap (λ rest. concat_map f init ++ rest) e
        ∙ sym (append_assoc (concat_map f init) (f c) more)
        ∙ ap (λ front. front ++ more) (sym (concat_map-last init c))

    on_tail-carried :
        (p : AggPayload V) (bytes : ℕ) (put : AggPayload V → AggPayload V) (more : List B)
        → ((c : AggPayload V) → f (put c) ≡ f c ++ more)
        → (chunks : List (AggPayload V))
        → concat_map f (on_tail V len p bytes put chunks) ≡ concat_map f chunks ++ more
    unfolding Takes
    on_tail-carried p bytes put more adds chunks =
        let (init, (c, takes)) = with_room-Takes p bytes chunks in
        ap (concat_map f) (on_tail-eq p bytes put chunks init c takes)
        ∙ concat_map-put init c (put c) more (adds c)
        ∙ ap (λ front. front ++ more)
            (elim takes.1 [
              | inl (e, fresh) ↦
                  concat_map-last init c
                  ∙ ap (λ rest. concat_map f init ++ rest) (ap f fresh ∙ f-base p)
                  ∙ append-nil (concat_map f init)
                  ∙ ap (concat_map f) e
              | inr (e, room) ↦ ap (concat_map f) (sym e)
            ])

    pub pack_links-carried :
        (p : AggPayload V) (g : AggTopoLink → List B)
        → ((l : AggTopoLink) (c : AggPayload V) → f (put_link V len l c) ≡ f c ++ g l)
        → (ls : List AggTopoLink) (chunks : List (AggPayload V))
        → concat_map f (pack_links V len p ls chunks) ≡ concat_map f chunks ++ concat_map g ls
    unfolding pack_links
    pack_links-carried p g adds [] chunks = sym (append-nil (concat_map f chunks))
    pack_links-carried p g adds (l ∷ ls) chunks =
        pack_links-carried p g adds ls (on_tail V len p (len.link l) (put_link V len l) chunks)
        ∙ ap (λ front. front ++ concat_map g ls)
            (on_tail-carried p (len.link l) (put_link V len l) (g l) (adds l) chunks)
        ∙ append_assoc (concat_map f chunks) (g l) (concat_map g ls)

    pub pack_events-carried :
        (p : AggPayload V) (g : AggEvent → List B)
        → ((e : AggEvent) (c : AggPayload V) → f (put_event V len e c) ≡ f c ++ g e)
        → (es : List AggEvent) (chunks : List (AggPayload V))
        → concat_map f (pack_events V len p es chunks) ≡ concat_map f chunks ++ concat_map g es
    unfolding pack_events
    pack_events-carried p g adds [] chunks = sym (append-nil (concat_map f chunks))
    pack_events-carried p g adds (e ∷ es) chunks =
        pack_events-carried p g adds es (on_tail V len p (len.event e) (put_event V len e) chunks)
        ∙ ap (λ front. front ++ concat_map g es)
            (on_tail-carried p (len.event e) (put_event V len e) (g e) (adds e) chunks)
        ∙ append_assoc (concat_map f chunks) (g e) (concat_map g es)
