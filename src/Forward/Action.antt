-- ===== src/Forward/Action.antt =====
-- The state that a push changes, what it reads, and its steps, which change the state and can fail
-- (fwDCS/internal/forwarder/forwarder.go).
pub mod Laws
use dcim_data_reader.Prelude.{ℕ, Bool, Option, none, some, List, String, Run, ok, err, panic, hang}
use dcim_data_reader.Forward.Rows.{
  FwdDevice, FwdInterface, FwdAddress, FwdMetric, FwdEnergy, FwdTopologyLink, FwdEvent,
}
use dcim_data_reader.Forward.Payload.{AggPayload}
use dcim_data_reader.Forward.Cursor.{CursorRow}
use dcim_data_reader.Forward.Gate.{Gates}
use dcim_data_reader.Forward.Post.{PostError}

-- The methods of store.DB that a push reads with: `none` is an error. A query after a cursor takes
-- the network, the cursor and the limit.
pub record Db (V : Type 0) : Type 0 where
  pub distinct_networks : Option (List String)
  pub devices_updated_since : String → ℕ → ℕ → Option (List (FwdDevice V))
  pub metrics_since : String → ℕ → ℕ → Option (List (FwdMetric V))
  pub energy_since : String → ℕ → ℕ → Option (List (FwdEnergy V))
  pub topology_links_since : String → ℕ → ℕ → Option (List FwdTopologyLink)
  pub events_since : String → ℕ → ℕ → Option (List FwdEvent)
  pub devices_by_ids : List String → Option (List (FwdDevice V))
  pub devices_by_hostnames : String → List String → Option (List (FwdDevice V))
  pub interfaces_by_device_ids : List String → Option (List FwdInterface)
  pub addresses_by_interface_ids : List String → Option (List FwdAddress)
  -- Whether the SELECT and the INSERT for a cursor succeed.
  pub reads_cursor : String → String → Bool
  pub writes_cursor : String → String → Bool

-- store.DeviceCommand, as the forwarder fills it in (fwDCS/internal/store/commands.go).
pub record DeviceCommand : Type 0 where
  pub org_id : String
  pub network_id : String
  pub device_ip : String
  pub field : String
  pub value : String

-- The gates of the forwarder, the cursors of the database, what the Aggregator has accepted, and the
-- commands that wait in the database.
pub record World (V : Type 0) : Type 0 where
  pub gates : Gates
  pub cursors : List CursorRow
  pub sent : List (AggPayload V)
  pub commands : List DeviceCommand

pub data PushError : Type 0 where
  query_failed : String → PushError
  post_failed : PostError → PushError

abbrev pub Action : Type 0 → Type 0 → Type 0
Action V A = World V → Run PushError A × World V

unfoldable pub return : {V A : Type 0} → A → Action V A
return a w = (ok a, w)

unfoldable pub after :
    {V A B : Type 0} → Run PushError A × World V → (A → Action V B) → Run PushError B × World V
after (ok a, w) f = f a w
after (err e, w) f = (err e, w)
after (panic, w) f = (panic, w)
after (hang, w) f = (hang, w)

infixl 5 ◌>>=◌
unfoldable pub ◌>>=◌ : {V A B : Type 0} → Action V A → (A → Action V B) → Action V B
unfolding after
(m >>= f) w = after (m w) f

-- A query that changes nothing, under the name that its error has.
unfoldable pub ask : {V A : Type 0} → String → Option A → Action V A
ask what none w = (err (query_failed what), w)
ask what (some a) w = (ok a, w)
