-- ===== src/Publisher/Requeue.antt =====
-- A batch that is popped and cannot be sent (fwEDR/internal/publisher/publisher.go).
use dcim_data_reader.Prelude.{
  ℕ, suc, ◌+◌, ◌<◌, ◌≡◌, ◌∙◌, sym, ap, arith, Bool, false, some, List, ◌++◌,
}
use dcim_data_reader.Queue.{Codec, Queue, ok, err, Error, push_batch, pop_batch}
use dcim_data_reader.Queue.Bbolt.{Bolt}
use dcim_data_reader.Queue.Laws.{IsSound}
use dcim_data_reader.Queue.Laws.Order.{
  contents, marshalled_size, push_batch-contents, pop_batch-contents,
}
use dcim_data_reader.Queue.Laws.Pop.{pop_batch-IsSound}
use dcim_data_reader.Publisher.{Publisher, send_batch, requeue, record_result}

module _ (c : Codec) (db : Bolt) where
  record_result-queue :
      (success : Bool) (p : Publisher c db) → (record_result c db success p).queue ≡ p.queue
  unfolding record_result
  record_result-queue success p = ground arith

  requeue-ok :
      (pkts : List c.Packet) (p : Publisher c db) (q : Queue c db)
      → push_batch c db pkts p.queue ≡ ok q
      → (requeue c db pkts p).queue ≡ q
  unfolding requeue
  requeue-ok pkts p q e = rw (requeue, e)

  requeue-err :
      (pkts : List c.Packet) (p : Publisher c db) (why : Error)
      → push_batch c db pkts p.queue ≡ err why
      → (requeue c db pkts p).queue ≡ p.queue
  unfolding requeue
  requeue-err pkts p why e = rw (requeue, e)

  -- Where every marshalled packet unmarshals to itself, a batch popped from a sound queue that
  -- then cannot be sent is not lost if its packets fit below the bound of the queue and their
  -- PushBatch succeeds: the queue held the batch and then the other packets, and holds
  -- afterwards the others and then the batch.
  pub send_batch-pop_batch :
      (n : ℕ) (p : Publisher c db) (q q' : Queue c db) (pkts : List c.Packet)
      → ((pkt : c.Packet) (bytes : List ℕ)
          → c.marshal pkt ≡ some bytes
          → c.unmarshal bytes ≡ some pkt)
      → IsSound c db p.queue.bucket p.queue.used_bytes
      → pop_batch c db (suc n) p.queue ≡ ok (pkts, q)
      → q.used_bytes + marshalled_size c db pkts < q.max_bytes
      → push_batch c db pkts q ≡ ok q'
      → (contents c db p.queue ≡ pkts ++ contents c db q)
        × (contents c db (send_batch c db false pkts (record p { queue = q })).queue
            ≡ contents c db q ++ pkts)
  unfolding send_batch
  send_batch-pop_batch n p q q' pkts law h popped room pushed =
      let p' : Publisher c db = record p { queue = q } in
      let kept = record_result-queue false p' in
      (
        (pop_batch-contents c db n p.queue q pkts h popped).0,
        ap (contents c db) (
              requeue-ok pkts (record_result c db false p') q'
                (ap (push_batch c db pkts) kept ∙ pushed))
            ∙ push_batch-contents c db pkts q q' law
                (pop_batch-IsSound c db (suc n) p.queue q pkts h popped) room pushed,
      )

  -- A batch popped from a sound queue that then cannot be sent is lost if its PushBatch fails:
  -- the packets that were in the queue are the batch followed by those that are in the queue
  -- afterwards.
  pub send_batch_full :
      (n : ℕ) (p : Publisher c db) (q : Queue c db) (pkts : List c.Packet) (why : Error)
      → IsSound c db p.queue.bucket p.queue.used_bytes
      → pop_batch c db (suc n) p.queue ≡ ok (pkts, q)
      → push_batch c db pkts q ≡ err why
      → contents c db p.queue
        ≡ pkts ++ contents c db (send_batch c db false pkts (record p { queue = q })).queue
  unfolding send_batch
  send_batch_full n p q pkts why h popped refused =
      let p' : Publisher c db = record p { queue = q } in
      let kept = record_result-queue false p' in
      let lost =
        requeue-err pkts (record_result c db false p') why
          (ap (push_batch c db pkts) kept ∙ refused)
        ∙ kept in
      (pop_batch-contents c db n p.queue q pkts h popped).0
      ∙ ap (λ l. pkts ++ l) (ap (contents c db) (sym lost))
