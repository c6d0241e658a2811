-- ===== src/Ingest/Worker/Interfaces.antt =====
-- The interfaces of a device and their addresses: lookupOrUpsertInterface and writeInterfaceAddress of
-- fwDCS/internal/ingest/worker.go.
use dcim_data_reader.Prelude.{
  ℕ, not, ◌||◌, none, some, String, str_eq, str_append, if◌then◌else◌, ◌==◌, decimal,
}
use dcim_data_reader.Ingest.Cache.{get, put}
use dcim_data_reader.Ingest.Packet.{Texts, Packet, meta_at}
use dcim_data_reader.Ingest.Worker.{Store, Pipeline, lookup_or_register}
use dcim_data_reader.Ingest.Worker.Rows.{or_text}

module _ (V : Type 0) (texts : Texts) (store : Store V) where
  open store use {upsert_interface, interface_by_index, upsert_interface_address, int_of}

  column : String → Packet V → ℕ
  column name pkt = if str_eq pkt.name name then int_of pkt.value else 0

  interface_index : Packet V → ℕ
  interface_index pkt = elim (texts.atoi (meta_at V "interface_index" pkt)) [
    | none ↦ 0
    | some n ↦ n
  ]

  -- UpsertInterface with the columns that the packet carries.
  upsert_columns :
      String → String → Packet V → Pipeline V texts store → String × Pipeline V texts store
  unfolding column interface_index
  upsert_columns device_id if_name pkt p =
      let (id, db') =
        upsert_interface device_id if_name (interface_index pkt) (column "interface.speed_mbps" pkt)
          (column "interface.operational_status" pkt) (column "interface.admin_status" pkt) p.db in
      (id, record p { db = db' })

  -- lookupOrUpsertInterface.
  unfoldable pub lookup_or_upsert_interface :
      ℕ → String → Packet V → Pipeline V texts store → String × Pipeline V texts store
  unfolding upsert_columns
  lookup_or_upsert_interface now device_id pkt p =
      let if_name = or_text pkt.tag (meta_at V "interface_name" pkt) in
      let key = str_append device_id (str_append "|" if_name) in
      let (hit, if_cache') = get now key p.if_cache in
      let looked : Pipeline V texts store = record p { if_cache = if_cache' } in
      let (id, upserted) = upsert_columns device_id if_name pkt looked in
      let has_column =
        str_eq pkt.name "interface.speed_mbps"
        || str_eq pkt.name "interface.operational_status"
        || str_eq pkt.name "interface.admin_status" in
      elim hit [
        | some cached ↦ if has_column then (cached, upserted) else (cached, looked)
        | none ↦
            if str_eq id ""
            then ("", upserted)
            else (id, record upserted { if_cache = put now key id upserted.if_cache })
      ]

  -- writeInterfaceAddress.
  unfoldable pub write_interface_address :
      ℕ → Packet V → Pipeline V texts store → Pipeline V texts store
  unfolding interface_index decimal
  write_interface_address now pkt p =
      let (device_id, p') = lookup_or_register V texts store now pkt p in
      let idx = interface_index pkt in
      let known = interface_by_index device_id idx p'.db in
      let (made, db') =
        upsert_interface device_id (str_append "if" (decimal 20 idx)) idx 0 0 0 p'.db in
      let address = meta_at V "address" pkt in
      let family = or_text "ipv4" (meta_at V "address_family" pkt) in
      if str_eq device_id "" || idx == 0
      then p'
      else if not (str_eq known "")
      then record p' { db = upsert_interface_address known address family p'.db }
      else if str_eq made ""
      then record p' { db = db' }
      else record p' { db = upsert_interface_address made address family db' }
