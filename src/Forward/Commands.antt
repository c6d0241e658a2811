-- ===== src/Forward/Commands.antt =====
-- pullUICommands of fwDCS/internal/forwarder/uicommands.go: one exchange with the Aggregator for a
-- network, which reports results and thresholds and queues the edits that come back. What the
-- exchange meets is a parameter, as are time.Parse and the format of a time.
pub mod Laws
use dcim_data_reader.Prelude.{
  ℕ, Bool, true, false, ◌&&◌, ◌||◌, Option, none, some, List, [], ◌∷◌, ◌++◌, map, String, str_eq,
  ltb, leb, if◌then◌else◌, ◌==◌,
}
use dcim_data_reader.Forward.Cursor.{get_cursor, set_cursor}
use dcim_data_reader.Forward.Scope.{AggregatorConfig}
use dcim_data_reader.Forward.Action.{World, DeviceCommand}

abbrev pub ui_cursor_name : String
ui_cursor_name = "ui_devices"

abbrev pub ui_cmd_status_cursor : String
ui_cmd_status_cursor = "ui_cmd_status"

abbrev pub ui_thresholds_cursor : String
ui_thresholds_cursor = "ui_thresholds"

-- uiCommandStatus, with the time of the row that it is made from.
pub record CommandStatus : Type 0 where
  pub device_ip : String
  pub field : String
  pub status : String
  pub last_error : String
  pub updated_at : ℕ

-- uiThresholdChange, with the time of the row that it is made from.
pub record ThresholdChange : Type 0 where
  pub device_ip : String
  pub hostname : String
  pub rule : String
  pub value : ℕ
  pub updated_at : ℕ

-- uiPullRequest
pub record PullRequest : Type 0 where
  pub org_id : String
  pub datacenter_id : String
  pub floor_id : String
  pub network_id : String
  pub group_id : String
  pub ui_changes_since : String
  pub command_status : List CommandStatus
  pub threshold_changes : List ThresholdChange

-- uiDeviceChange
pub record DeviceChange : Type 0 where
  pub mgmt_ip : String
  pub field : String
  pub new_value : String

-- uiPullResponse, without the flag, which is not read.
pub record PullResponse : Type 0 where
  pub ui_changes : List DeviceChange
  pub ui_changes_cursor : String

-- What an exchange meets: a failure before an answer, or a status and the body as it decodes.
pub data Exchange : Type 0 where
  no_answer : Exchange
  answered : ℕ → Option PullResponse → Exchange

-- The rows that a read gives are none where it fails, as its error is dropped.
pub record Control : Type 0 where
  pub commands_updated_since : ℕ → ℕ → List CommandStatus
  pub thresholds_updated_since : String → ℕ → ℕ → List ThresholdChange
  pub post : PullRequest → Exchange
  pub parse_time : String → Option ℕ
  pub format_time : ℕ → String
  -- Whether GetForwarderCursor and SetForwarderCursor succeed for a name.
  pub reads_cursor : String → Bool
  pub writes_cursor : String → Bool
  -- Whether InsertCommands stores the commands.
  pub inserts : List DeviceCommand → Bool

-- The latest of the times; 0 is the zero time.
unfoldable pub latest : {A : Type 0} → (A → ℕ) → List A → ℕ → ℕ
latest ts [] t = t
latest ts (row ∷ rows) t = latest ts rows (if ltb t (ts row) then ts row else t)

unfoldable pub or_unknown : String → String
or_unknown text = if str_eq text "" then "unknown" else text

-- The commands for the changes that name an address and a field.
unfoldable pub commands_of : AggregatorConfig → String → List DeviceChange → List DeviceCommand
commands_of cfg net_id [] = []
commands_of cfg net_id (ch ∷ changes) =
    let rest = commands_of cfg net_id changes in
    let c : DeviceCommand = record {
      org_id = cfg.org_id;
      network_id = net_id;
      device_ip = ch.mgmt_ip;
      field = ch.field;
      value = ch.new_value;
    } in
    if str_eq ch.mgmt_ip "" || str_eq ch.field "" then rest else c ∷ rest

-- An upsert of a command that waits: a new value for the same device and field takes the place of the
-- old one.
unfoldable pub upsert_command : DeviceCommand → List DeviceCommand → List DeviceCommand
upsert_command c [] = c ∷ []
upsert_command c (d ∷ ds) =
    let later = d ∷ upsert_command c ds in
    if str_eq c.device_ip d.device_ip && str_eq c.field d.field
    then record d { value = c.value } ∷ ds
    else later

unfoldable pub upsert_commands : List DeviceCommand → List DeviceCommand → List DeviceCommand
unfolding upsert_command
upsert_commands [] waiting = waiting
upsert_commands (c ∷ cs) waiting = upsert_commands cs (upsert_command c waiting)

module _ (V : Type 0) (cfg : AggregatorConfig) (control : Control) (net_id : String) where
  -- GetForwarderCursor, whose error is dropped: the zero time.
  unfoldable pub read_ui_cursor : String → World V → ℕ
  unfolding get_cursor
  read_ui_cursor name w = if control.reads_cursor name then get_cursor name net_id w.cursors else 0

  unfoldable pub pull_request : World V → PullRequest
  unfolding or_unknown read_ui_cursor
  pull_request w =
      let cursor = read_ui_cursor ui_cursor_name w in
      let cmd_cursor = read_ui_cursor ui_cmd_status_cursor w in
      let thr_cursor = read_ui_cursor ui_thresholds_cursor w in
      record {
        org_id = cfg.org_id;
        datacenter_id = or_unknown cfg.default_datacenter_id;
        floor_id = or_unknown cfg.default_floor_id;
        network_id = net_id;
        group_id = cfg.group_id;
        ui_changes_since =
            if cursor == 0 then "1970-01-01T00:00:00Z" else control.format_time cursor;
        command_status = control.commands_updated_since cmd_cursor 200;
        threshold_changes = control.thresholds_updated_since net_id thr_cursor 500;
      }

  -- SetForwarderCursor, whose error is dropped.
  unfoldable pub write_ui_cursor : String → ℕ → World V → World V
  unfolding set_cursor
  write_ui_cursor name t w =
      if control.writes_cursor name
      then record w { cursors = set_cursor name net_id t w.cursors }
      else w

  -- A cursor that is to move to a time other than the zero time.
  unfoldable pub move_cursor : String → ℕ → World V → World V
  unfolding write_ui_cursor
  move_cursor name t w = if ltb 0 t then write_ui_cursor name t w else w

  unfoldable pub move_to : Option ℕ → World V → World V
  unfolding write_ui_cursor
  move_to none w = w
  move_to (some t) w = write_ui_cursor ui_cursor_name t w

  -- The cursors after an exchange that succeeds.
  unfoldable pub advance_ui : PullRequest → PullResponse → World V → World V
  unfolding move_cursor move_to latest
  advance_ui req pr w = move_to (control.parse_time pr.ui_changes_cursor) (
      move_cursor ui_thresholds_cursor (latest (λ t. t.updated_at) req.threshold_changes 0)
        (move_cursor ui_cmd_status_cursor (latest (λ c. c.updated_at) req.command_status 0) w))

  -- InsertCommands, whose error is only logged.
  unfoldable pub queue_commands : List DeviceCommand → World V → World V
  unfolding upsert_commands
  queue_commands cmds w =
      if control.inserts cmds then record w { commands = upsert_commands cmds w.commands } else w

  unfoldable pub after_exchange : PullRequest → Exchange → World V → World V
  unfolding advance_ui queue_commands commands_of
  after_exchange req no_answer w = w
  after_exchange req (answered status none) w = w
  after_exchange req (answered status (some pr)) w =
      if leb 200 status && ltb status 300
      then queue_commands (commands_of cfg net_id pr.ui_changes) (advance_ui req pr w)
      else w

  unfoldable pub pull_ui_commands : World V → World V
  unfolding pull_request after_exchange
  pull_ui_commands w = let req = pull_request w in after_exchange req (control.post req) w
