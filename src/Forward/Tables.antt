-- ===== src/Forward/Tables.antt =====
-- The queries of the forwarder on tables (fwDCS/internal/store/forward.go). A table is the list of the
-- rows that the joins of a statement give for the tenant, each with its network, in the order of the
-- statement's ORDER BY.
use dcim_data_reader.Prelude.{
  ℕ, Bool, true, false, ◌||◌, Option, some, List, [], ◌∷◌, ◌++◌, map, String, str_eq, select,
  if◌then◌else◌,
}
use dcim_data_reader.Forward.Rows.{
  FwdDevice, FwdInterface, FwdAddress, FwdMetric, FwdEnergy, FwdTopologyLink, FwdEvent,
}
use dcim_data_reader.Forward.Cursor.{rows_since}
use dcim_data_reader.Forward.Action.{Db}

pub record Tables (V : Type 0) : Type 0 where
  pub devices : List (String × FwdDevice V)
  pub interfaces : List FwdInterface
  pub addresses : List FwdAddress
  pub metrics : List (String × FwdMetric V)
  pub energy : List (String × FwdEnergy V)
  pub links : List (String × FwdTopologyLink)
  pub events : List (String × FwdEvent)

-- `x = ANY(keys)`
any_of : List String → String → Bool
any_of [] x = false
any_of (key ∷ keys) x = str_eq x key || any_of keys x

-- The rows of a network.
unfoldable pub of_network : {A : Type 0} → String → List (String × A) → List A
of_network net_id rows = map (λ row. row.1) (select (λ row. str_eq row.0 net_id) rows)

-- The networks, each once.
unfoldable pub distinct : {A : Type 0} → List (String × A) → List String → List String
unfolding any_of
distinct [] seen = seen
distinct (row ∷ rows) seen = distinct rows (if any_of seen row.0 then seen else seen ++ row.0 ∷ [])

module _ (V : Type 0) (t : Tables V) where
  unfoldable pub devices_updated_since : String → ℕ → ℕ → Option (List (FwdDevice V))
  unfolding of_network rows_since
  devices_updated_since net_id since limit =
      some (rows_since (λ d. d.updated_at) since limit (of_network net_id t.devices))

  unfoldable pub metrics_since : String → ℕ → ℕ → Option (List (FwdMetric V))
  unfolding of_network rows_since
  metrics_since net_id since limit =
      some (rows_since (λ m. m.ts) since limit (of_network net_id t.metrics))

  unfoldable pub energy_since : String → ℕ → ℕ → Option (List (FwdEnergy V))
  unfolding of_network rows_since
  energy_since net_id since limit =
      some (rows_since (λ e. e.ts) since limit (of_network net_id t.energy))

  unfoldable pub topology_links_since : String → ℕ → ℕ → Option (List FwdTopologyLink)
  unfolding of_network rows_since
  topology_links_since net_id since limit =
      some (rows_since (λ l. l.updated_at) since limit (of_network net_id t.links))

  unfoldable pub events_since : String → ℕ → ℕ → Option (List FwdEvent)
  unfolding of_network rows_since
  events_since net_id since limit =
      some (rows_since (λ e. e.ts) since limit (of_network net_id t.events))

  unfoldable pub devices_by_ids : List String → Option (List (FwdDevice V))
  unfolding any_of
  devices_by_ids [] = some []
  devices_by_ids (id ∷ ids) =
      some (select (λ d. any_of (id ∷ ids) d.id) (map (λ row. row.1) t.devices))

  unfoldable pub devices_by_hostnames : String → List String → Option (List (FwdDevice V))
  unfolding any_of of_network
  devices_by_hostnames net_id [] = some []
  devices_by_hostnames net_id (host ∷ hosts) =
      some (select (λ d. any_of (host ∷ hosts) d.hostname) (of_network net_id t.devices))

  unfoldable pub interfaces_by_device_ids : List String → Option (List FwdInterface)
  unfolding any_of
  interfaces_by_device_ids [] = some []
  interfaces_by_device_ids (id ∷ ids) =
      some (select (λ i. any_of (id ∷ ids) i.device_id) t.interfaces)

  unfoldable pub addresses_by_interface_ids : List String → Option (List FwdAddress)
  unfolding any_of
  addresses_by_interface_ids [] = some []
  addresses_by_interface_ids (id ∷ ids) =
      some (select (λ a. any_of (id ∷ ids) a.interface_id) t.addresses)

  unfoldable pub distinct_networks : Option (List String)
  unfolding distinct
  distinct_networks = some (distinct t.devices [])

  -- The methods of store.DB on the tables, where no statement fails.
  unfoldable pub db_of : Db V
  unfolding devices_updated_since metrics_since energy_since topology_links_since events_since
      devices_by_ids devices_by_hostnames interfaces_by_device_ids addresses_by_interface_ids
      distinct_networks
  db_of = record {
    distinct_networks = distinct_networks;
    devices_updated_since = devices_updated_since;
    metrics_since = metrics_since;
    energy_since = energy_since;
    topology_links_since = topology_links_since;
    events_since = events_since;
    devices_by_ids = devices_by_ids;
    devices_by_hostnames = devices_by_hostnames;
    interfaces_by_device_ids = interfaces_by_device_ids;
    addresses_by_interface_ids = addresses_by_interface_ids;
    reads_cursor = λ name net_id. true;
    writes_cursor = λ name net_id. true;
  }
