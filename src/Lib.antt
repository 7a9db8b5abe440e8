-- ===== src/Lib.antt =====
-- Grip absorption pipeline: controllers that GridLAB-D calls during a simulation of a power network.
-- absorption.py detects faulted supernodes, cuts the network into islands and shuts loads off;
-- the package packetized/ groups the water heaters and air conditioners of an island into a virtual
-- battery, whose devices ask for packets of energy. Each step of absorption.py reads the simulation,
-- asks the virtual battery of an island for its next round, sends the effects to the devices, and
-- lets the batteries of the island take up what is left.
--
-- How the files follow the program:
--   Base (Text, Decimal, Dict, Numbered, Exec, Lists): Python's texts, dicts and statements. A
--     statement is a function from a state to a result and a state; an exception keeps what was
--     written before it. Base.Neutral, Preserves, Keeps and Outcomes: the rules for what a statement
--     leaves alone, keeps, and leads to, by the ways it ends.
--   Num: Python's floats, a type with the operations that the program makes and a few laws of
--     comparison; no law says that arithmetic is exact. Gridlab: the module gridlabd, with the
--     law that setting a property leaves the others. Sample: concrete numbers and a concrete simulator.
--   Packetized.Units: convert_power_units (packetized/vb_device.py, and the same text in absorption.py).
--   Packetized.World, Reading, CheckStat, Switching: gldWaterHeater and gldHVAC
--     (packetized/vb_device.py): fields, constructors, update_from_gld, check_stat with REQ_die_roll,
--     turn_on, turn_off, soc_kWh. CheckStat.Bands: the answers of check_stat by the
--     temperature. The objects stand in a heap, since every vb_device made from a
--     device shares its object. Ready: when their readings raise no exception.
--   Packetized.Device: vb_device and its effects. Device.Step has the packet state machine as a
--     relation, over what the object of the device shows (During); Follows and
--     Total prove that the method pem takes its transitions, and Packets what
--     follows for its calls one after the other.
--   Packetized.Battery: VirtualBattery (packetized/virtual_battery.py), with its properties in
--     Load, Requests, Keys, Keeps, Dropped and Total.
--   Packetized.Island: packetize_island (absorption.py).
--   Network.Components: get_connected_group and get_components (absorption.py). Network.Links: the
--     graph that process_islands (absorption.py) makes of the closed branches, and its components.
--   Faults: find, shutoff_loads, toggle_switches, new_fault_detected (absorption.py) over a state
--     with the simulation, the global variables, and the lines appended to CSV files.
--     Faults.Downstream: shutoff_noislanding. Faults.Mapping: map_devices_to_nodes and
--     temp_control_absorption (absorption.py), on the same state.
--   Balance: check_power_balance (absorption.py). Balance.Takes and Shares: what one battery may take
--     up, and the loop over the batteries; Balance.Covers the property.
--   ServerData: get_islanding_data and convert (absorption.py), with the tables as lists of rows;
--     ServerData.Buses and Tables: the numbering of the buses and the way back.
--   Control: the global variables of absorption.py as one state. Control.Houses: initialize_devices,
--     update_VB, turn_off_house, turn_on_house. Control.Islands: islanding and process_islands.
--     Control.Manage: get_island_management_data; Manage.Shed and Manage.Columns: island_management.
--     Control.Baseline: get_island_baseline_data, with the tables that it writes, and
--     update_flexible_load. Control.Saved: save_VB_data. Control.Rounds: a round of packets with its
--     entry in powerbal. Control.Tracking: the packets without islands and
--     test_VB_setpoint_tracking. Control.Commit: on_commit. Control.Dropped, Islands.Virtual,
--     Manage.Bounds, Commit.Stale, Commit.Idle and Commit.Rows have the properties.
--   Julia: JuliaServer (julia_server.py) and the connection of JuliaClient (julia_client.py);
--     Julia.Client: send and send_data. Julia.Owned and Released have the properties of the process.
--   Lifecycle: on_init and on_term (absorption.py), with that server; Lifecycle.Released their property.
--   PostProcess.Log and PostProcess.Series: log_gen and timeseries_gen (data_post_process.py);
--     PostProcess.Supernodes: timeseries_persupernode, over the tables of pandas, with Names
--     and Totals for what get_island_baseline_data finds in its file.
--   RunScript: run_gridlabd_main.py, with the commands to GridLAB-D as a list; RunScript.Options
--     what the options ask for, RunScript.Commands the property.
--   Voltdump: the reading of volt_dump.csv and the rows of voltages.csv (voltdump.py);
--     Voltdump.Powers: to_complex and the merging of the power dumps. Voltdump.Blocks: a dump as
--     GridLAB-D writes it. Voltdump.Shape, Blocks.Read, Columns and Powers.Rows have the properties.
--   Thermostat: find, absorption and on_commit of load_control.py; Thermostat.Modes the property.
--   PlotNet: plot_islanding_net.py, the figures and the order of the images; PlotNet.Order the
--     property.
--   Tests modules: runs at concrete inputs, and the theorems applied to them.
--
-- Parameters: the floats, the simulator, the numbers that random.random and np.random.choice draw,
-- random.shuffle and set.pop as any function, the answers of the optimisation server, the baseline
-- files as pandas reads them, the hours and times that pandas and datetime make of texts, the polar
-- numbers of cmath, the parts that re makes of a text, concat of pandas, json and the socket of the
-- client, the files that glob and listdir find, the options that getopt reads, whether the system starts the
-- server's process and GridLAB-D and finds its files, and, for the run script, what the functions of
-- data_post_process raise.
--
-- Bounds: pem calls itself through exit states and expired packets at most once, so that fuel 2 is
-- enough. The loop of get_connected_group marks one more node in each round, so that as many
-- rounds as the graph has nodes are enough. The loop of shutoff_noislanding ends only where the closed
-- links make no cycle; there a bound on the length of the ways down is enough fuel.
--
-- Not modelled: the optimisation in Julia; the layout, the colours and the sizes of figures; times
-- before t_start; the texts that pandas and csv make of numbers in files; the order in which Python
-- goes through a set (a list's is taken; set.pop is any function); prints and comments.
pub mod Base
pub mod Num
pub mod Gridlab
pub mod Sample
pub mod Packetized
pub mod Network
pub mod Faults
pub mod Balance
pub mod Thermostat
pub mod Voltdump
pub mod ServerData
pub mod Control
pub mod Julia
pub mod Lifecycle
pub mod PostProcess
pub mod RunScript
pub mod PlotNet
