-- ===== src/Ingest/Worker/LinkTraps.antt =====
-- Link traps (handleLinkTrap of fwDCS/internal/ingest/worker.go) that come in from both ends of a link.
use dcim_data_reader.Prelude.{
  ◌≡◌, ◌∙◌, refl, sym, ap, subst, arith, true, false, some, String, str_eq,
}
use dcim_data_reader.Ingest.Packet.{Texts, Packet, meta_at}
use dcim_data_reader.Ingest.Links.{LinkRow, set_link_active, IsSameLink, set_link_active-again}
use dcim_data_reader.Ingest.Worker.{Store, Pipeline, handle_link_trap, link_trap_at, trap_index}

module _ (V : Type 0) (texts : Texts) (store : Store V) where
  open store use {correlate_link, reachable}

  -- CorrelateLinkByPort finds the row for the interface in the trap.
  abbrev pub Correlates : String → Packet V → Pipeline V texts store → LinkRow → Type 0
  Correlates device_id pkt p row =
      correlate_link device_id (trap_index V texts store pkt)
        (meta_at V "vb.1.3.6.1.2.1.2.2.1.2.1" pkt) p.db
      ≡ some (some row)

  link_trap_at-links :
      (row : LinkRow) (host : String) (pkt : Packet V) (p : Pipeline V texts store)
      → reachable p.db ≡ true
      → (link_trap_at V texts store row host pkt p).1.links
        ≡ (set_link_active row (str_eq pkt.name "linkDown") p.links).1
  unfolding link_trap_at
  link_trap_at-links row host pkt p r = ground arith

  link_trap_at-unchanged :
      (row : LinkRow) (host : String) (pkt : Packet V) (p : Pipeline V texts store)
      → reachable p.db ≡ true
      → set_link_active row (str_eq pkt.name "linkDown") p.links ≡ (false, p.links)
      → link_trap_at V texts store row host pkt p ≡ (true, p)
  unfolding link_trap_at
  link_trap_at-unchanged row host pkt p r e = rw (link_trap_at, e, r) refl

  -- A trap of a row, and then one of the same direction for the same link.
  link_trap_at-again :
      (row row' : LinkRow) (host host' : String) (pkt pkt' : Packet V) (p : Pipeline V texts store)
      → IsSameLink row row'
      → str_eq pkt'.name "linkDown" ≡ str_eq pkt.name "linkDown"
      → reachable p.db ≡ true
      → reachable (link_trap_at V texts store row host pkt p).1.db ≡ true
      → link_trap_at V texts store row' host' pkt' (link_trap_at V texts store row host pkt p).1
        ≡ (true, (link_trap_at V texts store row host pkt p).1)
  link_trap_at-again row row' host host' pkt pkt' p same direction first second =
      let down = str_eq pkt.name "linkDown" in
      let after = (link_trap_at V texts store row host pkt p).1 in
      let left : after.links ≡ (set_link_active row down p.links).1 =
        link_trap_at-links row host pkt p first in
      let again = set_link_active-again row row' down p.links same in
      link_trap_at-unchanged row' host' pkt' after second
        (rw direction (subst (λ ls. set_link_active row' down ls ≡ (false, ls)) (sym left) again))

  handle_link_trap-row :
      (device_id host : String) (pkt : Packet V) (p : Pipeline V texts store) (row : LinkRow)
      → Correlates device_id pkt p row
      → handle_link_trap V texts store device_id host pkt p
        ≡ link_trap_at V texts store row host pkt p
  unfolding handle_link_trap
  handle_link_trap-row device_id host pkt p row e = rw (handle_link_trap, e) refl

  -- After a link trap that handleLinkTrap has correlated with a row, a trap of the same
  -- direction that it correlates with a row of the same link, in the same direction or in the
  -- opposite one, is taken and changes nothing: no second event is written, and no cache and no
  -- row is touched. The database answers at both traps.
  pub handle_link_trap-again :
      (device_id device_id' host host' : String) (pkt pkt' : Packet V) (p : Pipeline V texts store)
      (row row' : LinkRow)
      → let p' = (handle_link_trap V texts store device_id host pkt p).1 in
        Correlates device_id pkt p row
        → Correlates device_id' pkt' p' row'
        → IsSameLink row row'
        → str_eq pkt'.name "linkDown" ≡ str_eq pkt.name "linkDown"
        → reachable p.db ≡ true
        → reachable p'.db ≡ true
        → handle_link_trap V texts store device_id' host' pkt' p' ≡ (true, p')
  handle_link_trap-again device_id device_id' host host' pkt pkt' p row row' c c' same direction r
        r' =
      let first = handle_link_trap-row device_id host pkt p row c in
      let p' = (handle_link_trap V texts store device_id host pkt p).1 in
      let at_row : p' ≡ (link_trap_at V texts store row host pkt p).1 = ap (λ x. x.1) first in
      let reached : reachable (link_trap_at V texts store row host pkt p).1.db ≡ true =
        subst (λ q. reachable q.db ≡ true) at_row r' in
      handle_link_trap-row device_id' host' pkt' p' row' c'
      ∙ subst (λ q. link_trap_at V texts store row' host' pkt' q ≡ (true, q)) (sym at_row)
          (link_trap_at-again row row' host host' pkt pkt' p same direction r reached)
