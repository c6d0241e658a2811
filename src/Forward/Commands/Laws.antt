-- ===== src/Forward/Commands/Laws.antt =====
-- What a pull of commands changes (fwDCS/internal/forwarder/uicommands.go).
use dcim_data_reader.Prelude.{
  ℕ, ◌≡◌, ◌∙◌, refl, ap, true, false, Option, none, some, List, String, str_eq, eq_iff, arith, leb,
  ltb, ◌&&◌,
}
use dcim_data_reader.Forward.Cursor.{get_cursor, get_cursor-set_cursor}
use dcim_data_reader.Forward.Scope.{AggregatorConfig}
use dcim_data_reader.Forward.Action.{World, DeviceCommand}
use dcim_data_reader.Forward.Commands.{
  ui_cursor_name, ui_cmd_status_cursor, ui_thresholds_cursor, latest, PullRequest, PullResponse,
  answered, Control, commands_of, pull_request, write_ui_cursor, move_cursor, move_to, advance_ui,
  queue_commands, after_exchange, pull_ui_commands,
}

module _ (V : Type 0) (cfg : AggregatorConfig) (control : Control) (net_id : String) where
  queue_commands-fails :
      (cmds : List DeviceCommand) (w : World V)
      → control.inserts cmds ≡ false
      → queue_commands V cfg control net_id cmds w ≡ w
  unfolding queue_commands
  queue_commands-fails cmds w e = rw e refl

  write_ui_cursor-commands :
      (name : String) (t : ℕ) (w : World V)
      → (write_ui_cursor V cfg control net_id name t w).commands ≡ w.commands
  unfolding write_ui_cursor
  write_ui_cursor-commands name t w = ground arith

  move_cursor-commands :
      (name : String) (t : ℕ) (w : World V)
      → (move_cursor V cfg control net_id name t w).commands ≡ w.commands
  unfolding move_cursor
  move_cursor-commands name t w = ground (arith, write_ui_cursor-commands name t w)

  move_to-commands :
      (o : Option ℕ) (w : World V) → (move_to V cfg control net_id o w).commands ≡ w.commands
  unfolding move_to
  move_to-commands none w = refl
  move_to-commands (some t) w = write_ui_cursor-commands ui_cursor_name t w

  move_to-cursor :
      (o : Option ℕ) (t : ℕ) (w : World V)
      → o ≡ some t
      → control.writes_cursor ui_cursor_name ≡ true
      → get_cursor ui_cursor_name net_id (move_to V cfg control net_id o w).cursors ≡ t
  unfolding move_to write_ui_cursor
  move_to-cursor none t w e writes = ground (arith, e)
  move_to-cursor (some s) t w e writes =
      let same : str_eq net_id net_id ≡ true = ground (arith, eq_iff net_id net_id) in
      rw writes (
        get_cursor-set_cursor ui_cursor_name net_id ui_cursor_name net_id s w.cursors
        ∙ rw same (cc e))

  -- A pull that is answered with a success advances the cursors, and then queues the commands.
  pull_ui_commands-answered :
      (w : World V) (status : ℕ) (pr : PullResponse)
      → control.post (pull_request V cfg control net_id w) ≡ answered status (some pr)
      → leb 200 status && ltb status 300 ≡ true
      → pull_ui_commands V cfg control net_id w
        ≡ queue_commands V cfg control net_id
            (commands_of cfg net_id pr.ui_changes)
            (advance_ui V cfg control net_id (pull_request V cfg control net_id w) pr w)
  unfolding pull_ui_commands after_exchange
  pull_ui_commands-answered w status pr answer good =
      ap (λ x. after_exchange V cfg control net_id (pull_request V cfg control net_id w) x w) answer
      ∙ rw good refl

  advance_ui-commands :
      (req : PullRequest) (pr : PullResponse) (w : World V)
      → (advance_ui V cfg control net_id req pr w).commands ≡ w.commands
  unfolding advance_ui
  advance_ui-commands req pr w =
      let results = latest (λ c. c.updated_at) req.command_status 0 in
      let thresholds = latest (λ t. t.updated_at) req.threshold_changes 0 in
      let w1 = move_cursor V cfg control net_id ui_cmd_status_cursor results w in
      let w2 = move_cursor V cfg control net_id ui_thresholds_cursor thresholds w1 in
      move_to-commands (control.parse_time pr.ui_changes_cursor) w2
      ∙ move_cursor-commands ui_thresholds_cursor thresholds w1
      ∙ move_cursor-commands ui_cmd_status_cursor results w

  -- A pull that is answered with a success and a cursor, where SetForwarderCursor stores the
  -- cursor of the edits and InsertCommands does not store the commands, leaves the waiting
  -- commands as they were and moves the cursor of the edits to the one that came with them.
  pub pull_ui_commands_lost :
      (w : World V) (status t : ℕ) (pr : PullResponse)
      → control.post (pull_request V cfg control net_id w) ≡ answered status (some pr)
      → leb 200 status && ltb status 300 ≡ true
      → control.parse_time pr.ui_changes_cursor ≡ some t
      → control.writes_cursor ui_cursor_name ≡ true
      → control.inserts (commands_of cfg net_id pr.ui_changes) ≡ false
      → let w' = pull_ui_commands V cfg control net_id w in
        (w'.commands ≡ w.commands) × (get_cursor ui_cursor_name net_id w'.cursors ≡ t)
  unfolding advance_ui
  pull_ui_commands_lost w status t pr answer good parsed writes fails =
      let req = pull_request V cfg control net_id w in
      let w1 = advance_ui V cfg control net_id req pr w in
      let e : pull_ui_commands V cfg control net_id w ≡ w1 =
        pull_ui_commands-answered w status pr answer good
        ∙ queue_commands-fails (commands_of cfg net_id pr.ui_changes) w1 fails in
      let before =
        move_cursor V cfg control net_id ui_thresholds_cursor
          (latest (λ t. t.updated_at) req.threshold_changes 0)
          (move_cursor V cfg control net_id ui_cmd_status_cursor
            (latest (λ c. c.updated_at) req.command_status 0) w) in
      (
        ap (λ x. x.commands) e ∙ advance_ui-commands req pr w,
        ap (λ x. get_cursor ui_cursor_name net_id x.cursors) e
            ∙ move_to-cursor (control.parse_time pr.ui_changes_cursor) t before parsed writes,
      )
