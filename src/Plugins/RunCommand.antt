-- ===== src/Plugins/RunCommand.antt =====
-- plugins/run_command_plugin.{h,cpp}: the commands that another device may run on the console, and
-- those of the other device. What is run is the name of the command: the calls of the console's services
-- that carry it out are not modelled. Whether the power commands are enabled is an argument.
pub mod Power
use kdeconnect_nx.Prelude.{
  Text, bytes, Bool, true, false, not, ◌&&◌, ◌||◌, Option, none, some, List, [], ◌∷◌, ◌++◌,
  if◌then◌else◌, eq_text, insert,
}
use kdeconnect_nx.Json.Yyjson.{Yyjson}
use kdeconnect_nx.Json.Body
use kdeconnect_nx.Json.Body.{JsonBody}
use kdeconnect_nx.Json.Iterate.{each_kv}
use kdeconnect_nx.Json.Setters.{set_bool, set_str}
use kdeconnect_nx.Packet.{NetworkPacket, packet}

pub record NxCommand : Type 0 where
  pub key : Text
  pub description : Text
  pub display_name : Text
  pub is_dangerous : Bool

abbrev pub nx_command : Text → Text → Text → Bool → NxCommand
nx_command key description name dangerous = record {
  key = key;
  description = description;
  display_name = name;
  is_dangerous = dangerous;
}

-- `FOREACH_NX_COMMAND`
abbrev pub nx_commands : List NxCommand
nx_commands =
    nx_command (bytes "nx-auto-bright-off") (bytes "Disable auto brightness")
      (bytes "Auto Brightness Off") false
    ∷ nx_command (bytes "nx-auto-bright-on") (bytes "Enable auto brightness")
        (bytes "Auto Brightness On") false
    ∷ nx_command (bytes "nx-bluetooth-off") (bytes "Turn Bluetooth radio off")
        (bytes "Bluetooth Off") false
    ∷ nx_command (bytes "nx-bluetooth-on") (bytes "Turn Bluetooth radio on") (bytes "Bluetooth On")
        false
    ∷ nx_command (bytes "nx-bright-max") (bytes "Set brightness to maximum strength")
        (bytes "Brightness Max") false
    ∷ nx_command (bytes "nx-bright-min") (bytes "Set brightness to minimum strength")
        (bytes "Brightness Min") false
    ∷ nx_command (bytes "nx-reboot") (bytes "Restart console") (bytes "Reboot") true
    ∷ nx_command (bytes "nx-screen-off") (bytes "Turn screen backlight off") (bytes "Screen Off")
        false
    ∷ nx_command (bytes "nx-screen-on") (bytes "Turn screen backlight on") (bytes "Screen On") false
    ∷ nx_command (bytes "nx-screenshot") (bytes "Take screenshot and send it to this device")
        (bytes "Receive screenshot") false
    ∷ nx_command (bytes "nx-shutdown") (bytes "Turn off console") (bytes "Shutdown") true
    ∷ []

-- The plugin, with the commands that it has carried out, the last one first.
pub record RunCommandPlugin : Type 0 where
  pub remote_commands : List (Text × Text)
  pub executed : List Text

-- One entry of `commandList`.
unfoldable pub entry : NxCommand → Text
entry c =
    b'"'
    ∷ (c.key
        ++ (bytes "\":{\"command\":\""
            ++ (c.description ++ (bytes "\",\"name\":\"" ++ (c.display_name ++ bytes "\"}")))))

-- The calls of `add`, with what is in `first`.
unfoldable pub add_all : Bool → Bool → List NxCommand → Text
add_all power_enabled first [] = []
add_all power_enabled first (c ∷ cs) =
    let skipped = add_all power_enabled first cs in
    let added = (if first then [] else b',' ∷ []) ++ (entry c ++ add_all power_enabled false cs) in
    if c.is_dangerous && not power_enabled then skipped else added

unfoldable pub command_list : Bool → Text
command_list power_enabled = b'{' ∷ (add_all power_enabled true nx_commands ++ b'}' ∷ [])

-- `(key == k && (d)) || …`
unfoldable pub names_dangerous : Text → List NxCommand → Bool
names_dangerous key [] = false
names_dangerous key (c ∷ cs) = (eq_text key c.key && c.is_dangerous) || names_dangerous key cs

-- Whether a branch of `run_local_command` stands for the key: there is one for each command.
unfoldable pub names_command : Text → List NxCommand → Bool
names_command key [] = false
names_command key (c ∷ cs) = eq_text key c.key || names_command key cs

unfoldable pub run_local_command : Bool → Text → RunCommandPlugin → RunCommandPlugin
run_local_command power_enabled key p =
    if names_dangerous key nx_commands && not power_enabled
    then p
    else if names_command key nx_commands
    then record p { executed = key ∷ p.executed }
    else p

module _ (y : Yyjson) where
  unfoldable pub local_command_list : Bool → NetworkPacket y
  local_command_list power_enabled = packet y (bytes "kdeconnect.runcommand") (
      set_str y (bytes "commandList") (command_list power_enabled)
        (set_bool y (bytes "canAddCommand") false (Body.empty y)))

  unfoldable pub request_remote_command_list : NetworkPacket y
  request_remote_command_list =
      packet y (bytes "kdeconnect.runcommand.request")
        (set_bool y (bytes "requestCommandList") true (Body.empty y))

  unfoldable pub on_connected : Bool → Bool → List (NetworkPacket y)
  on_connected power_enabled paired =
      if paired then local_command_list power_enabled ∷ request_remote_command_list ∷ [] else []

  unfoldable pub run_remote_command : Text → NetworkPacket y
  run_remote_command key =
      packet y (bytes "kdeconnect.runcommand.request") (set_str y (bytes "key") key (Body.empty y))

  -- The callback over the entries of the other device's list.
  unfoldable pub add_remote : List (Text × Text) → Text → JsonBody y → List (Text × Text)
  add_remote m id e =
      if Body.is_str y e (bytes "name") then insert id (Body.get_str y e (bytes "name")) m else m

  unfoldable pub on_command_list : NetworkPacket y → RunCommandPlugin → RunCommandPlugin
  on_command_list np p =
      let list = Body.parse y (Body.get_str y np.body (bytes "commandList")) in
      if Body.is_str y np.body (bytes "commandList")
      then record p { remote_commands = each_kv y list add_remote [] }
      else p

  unfoldable pub on_packet_received :
      Bool → NetworkPacket y → RunCommandPlugin → RunCommandPlugin × Bool × List (NetworkPacket y)
  on_packet_received power_enabled np p =
      let key = Body.get_str y np.body (bytes "key") in
      if eq_text np.type (bytes "kdeconnect.runcommand")
      then (on_command_list np p, true, [])
      else if not (eq_text np.type (bytes "kdeconnect.runcommand.request"))
      then (p, false, [])
      else if Body.value_bool y np.body (bytes "requestCommandList") false
      then (p, true, local_command_list power_enabled ∷ [])
      else if Body.is_str y np.body (bytes "key")
      then (run_local_command power_enabled key p, true, [])
      else (p, false, [])
