-- ===== src/Queue/Laws/Severity.antt =====
-- Which packet an urgent one evicts from a full queue (fwEDR/internal/queue/queue.go).
use mathlib.Core.Option
use dcim_data_reader.Prelude.{
  ℕ, ◌-◌, ◌≤◌, ◌≡◌, ◌∙◌, refl, sym, ap, subst, arith, some, List, [], ◌∷◌, ◌++◌, length, Bool-cases,
  Option-cases, inl, inr,
}
use dcim_data_reader.Queue.{
  ok, marshal_failed, Codec, Queue, Entry, or_err, push, push_entry, push_entries, push_batch,
  marshal_all, make_room, evict_from, evict_oldest_non_critical, is_urgent, store_failed,
}
use dcim_data_reader.Queue.Bbolt.{Bolt, without}
use dcim_data_reader.Queue.Bbolt.Keys.{Ascending, without-AllAbove}
use dcim_data_reader.Queue.Laws.{IsSound, >>=-eq-ok, or_err-eq-ok, put-IsSound, delete-IsSound}

module _ (c : Codec) (db : Bolt) where
  open c use {Packet, json_severity}
  open db use {Bucket, entries, put, delete, next_sequence}

  -- The eviction, at the first entry.
  evict_first :
      (key : ℕ) (value : List ℕ) (rest : List (ℕ × List ℕ)) (b : Bucket)
      → entries b ≡ (key, value) ∷ rest
      → json_severity value ≡ ""
      → evict_oldest_non_critical c db b ≡ Option.map (λ b'. (length value, b')) (delete key b)
  unfolding evict_oldest_non_critical evict_from
  evict_first key value rest b first j = rw (first, j) refl

  -- In a full queue, make_room deletes the first entry if json.Unmarshal finds no severity in it.
  make_room_full :
      (max_bytes used used' key : ℕ) (value : List ℕ) (rest : List (ℕ × List ℕ)) (e : Entry c db)
      (b b' : Bucket)
      → max_bytes ≤ used
      → entries b ≡ (key, value) ∷ rest
      → json_severity value ≡ ""
      → make_room c db max_bytes e b used ≡ ok (b', used')
      → (delete key b ≡ some b') × (used' ≡ used - length value)
  unfolding make_room
  make_room_full max_bytes used used' key value rest e b b' l first j r =
      elim (Bool-cases (is_urgent e.level)) [
        | inr n ↦ absurd (ground arith)
        | inl u ↦ elim (Option-cases (delete key b)) [
          | inl n ↦ absurd (ground (arith, evict_first key value rest b first j))
          | inr (b'', d) ↦
              let found : evict_oldest_non_critical c db b ≡ some (length value, b'') =
                evict_first key value rest b first j
                ∙ ap (Option.map (λ b'. (length value, b'))) d in
              (ground arith, ground arith)
        ]
      ]

  push_entry_full :
      (max_bytes used used' key : ℕ) (value : List ℕ) (rest : List (ℕ × List ℕ)) (e : Entry c db)
      (b b' : Bucket)
      → IsSound c db b used
      → max_bytes ≤ used
      → entries b ≡ (key, value) ∷ rest
      → json_severity value ≡ ""
      → push_entry c db max_bytes e b used ≡ ok (b', used')
      → (seq : ℕ) × (entries b' ≡ rest ++ (seq, e.payload) ∷ [])
  unfolding push_entry
  push_entry_full max_bytes used used' key value rest e b b' h l first j r =
      let ((roomy, u), m, r1) = >>=-eq-ok (make_room c db max_bytes e b used) _ r in
      let (d, count) = make_room_full max_bytes used u key value rest e b roomy l first j m in
      let ((seq, b1), n, r2) = >>=-eq-ok (or_err store_failed (next_sequence roomy)) _ r1 in
      let (b2, put_ok, r3) = >>=-eq-ok (or_err store_failed (put seq e.payload b1)) _ r2 in
      let sound = delete-IsSound c db b roomy key used value h (rw first (inl (refl, refl))) d in
      let (_, appended) =
        put-IsSound c db roomy b1 b2 seq (used - length value) e.payload sound
          (or_err-eq-ok store_failed (next_sequence roomy) n)
          (or_err-eq-ok store_failed (put seq e.payload b1) put_ok) in
      let same : b2 ≡ b' = cc r3 in
      (
        seq,
        ap entries (sym same) ∙ appended ∙ ap (λ es. es ++ (seq, e.payload) ∷ []) (left roomy d),
      )
    where
      above : Ascending ((key, value) ∷ rest)
      above = subst Ascending first h.ascending

      left : (roomy : Bucket) → delete key b ≡ some roomy → entries roomy ≡ rest
      left roomy d =
          let (_, gone) = db.delete_removes b roomy key d in
          gone ∙ ap (without key) first ∙ ground (arith, without-AllAbove key rest above.0)

  marshal_one :
      (p : Packet) (es : List (Entry c db))
      → marshal_all c db (p ∷ []) ≡ ok es
      → (bytes : List ℕ) × (c.marshal p ≡ some bytes)
        × (record { payload = bytes; level = c.severity p } ∷ [] ≡ es)
  unfolding marshal_all
  marshal_one p es r =
      let (bytes, m, r1) = >>=-eq-ok (or_err marshal_failed (c.marshal p)) _ r in
      (bytes, or_err-eq-ok marshal_failed (c.marshal p) m, cc r1)

  -- Where json.Unmarshal finds no severity in the stored bytes of the oldest packet, a Push
  -- that succeeds on a sound queue that is at its bound or above has taken that packet out,
  -- whatever its severity is, and has put the new one behind the others.
  pub push_evicts_oldest :
      (p : Packet) (key : ℕ) (value : List ℕ) (rest : List (ℕ × List ℕ)) (q q' : Queue c db)
      → IsSound c db q.bucket q.used_bytes
      → q.max_bytes ≤ q.used_bytes
      → entries q.bucket ≡ (key, value) ∷ rest
      → json_severity value ≡ ""
      → push c db p q ≡ ok q'
      → (seq : ℕ) × (bytes : List ℕ) × (c.marshal p ≡ some bytes)
        × (entries q'.bucket ≡ rest ++ (seq, bytes) ∷ [])
  unfolding push push_batch push_entries push_entry marshal_all
  push_evicts_oldest p key value rest q q' h l first j r =
      let (es, m, r1) = >>=-eq-ok (marshal_all c db (p ∷ [])) _ r in
      let (bytes, written, one) = marshal_one p es m in
      let ((b, u), n, r2) =
        >>=-eq-ok (push_entries c db q.max_bytes es q.bucket q.used_bytes) _ r1 in
      let e : Entry c db = record { payload = bytes; level = c.severity p } in
      let n1 : push_entries c db q.max_bytes (e ∷ []) q.bucket q.used_bytes ≡ ok (b, u) =
        ap (λ es. push_entries c db q.max_bytes es q.bucket q.used_bytes) one ∙ n in
      let ((b1, u1), n2, r3) =
        >>=-eq-ok (push_entry c db q.max_bytes e q.bucket q.used_bytes) _ n1 in
      let same : b1 ≡ b = cc r3 in
      let kept : b ≡ q'.bucket = cc r2 in
      let (seq, behind) =
        push_entry_full q.max_bytes q.used_bytes u1 key value rest e q.bucket b1 h l first j n2 in
      (seq, bytes, written, ap entries (sym (same ∙ kept)) ∙ behind)
