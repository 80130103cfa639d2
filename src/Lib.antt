-- ===== src/Lib.antt =====
-- Application Heartbeats: an application announces its progress by heartbeats, monitors read its
-- rate, and a service steers the cores and the frequencies that the application gets.
--
-- The parts, with the files of the repository they stand for:
--
-- Heartbeat (src/heartbeat-shared.c, inc/heartbeat.h): the application's side. `HeartbeatRecord`,
-- `GlobalState` and `Heartbeat` are heartbeat_record_t, HB_global_state_t and heartbeat_t; every
-- function has its C name. A block of memory is a list, and an access outside it is `none`, as is
-- a remainder by 0. The answers of the operating system to heartbeat_init are the record
-- `Answers`, and the reading of the clock is an argument of `heartbeat`. Heartbeat.Invariant
-- relates the structure to the history of all beats: the part that has been printed, and the part
-- still in the ring. Heartbeat.Stores is `heartbeat` once more, a store to shared memory at a
-- time, for what a monitor reads in between. Heartbeat.Window is about the window of intervals,
-- whose average gives the rate.
--
-- Monitor (src/heart_rate_monitor-shared.c, inc/heart_rate_monitor.h): another process attaches
-- the state and the ring that Heartbeat writes, and reads them.
--
-- HeartbeatFile (src/heartbeat-file.c) and MonitorFile (src/heart_rate_monitor-file.c): the same
-- two sides over a file, which is its head and the list of the records behind it. HeartbeatFile
-- uses Heartbeat for the members and the functions that both registrations share.
--
-- Adapt (src/core-allocator.c, src/frequencyscaler1.c, src/frequencyscaler2.c): the loop that the
-- three programs share, over a list of readings of the monitor, around a knob with two functions.
-- CoreAllocator, FrequencyScaler1 and FrequencyScaler2 are these programs, each with its knob, its
-- two functions and its start; FrequencyScaler is src/frequencyscaler.c, whose loop differs.
-- FrequencyTable is the functions on the array of frequencies, of which each scaler has a copy.
--
-- Coupled (src/heartbeat-shared.c with one of these programs): heartbeats of an application and
-- readings of a program in any order, where the monitor has attached what the application writes.
-- It uses Heartbeat, Monitor and Adapt.
--
-- System (src/system.c): a program that keeps a record of each new tag of an application.
--
-- PowerStates (src/powerstates.c): the table of states as a text, printed and read back. The C
-- library's conversions of numbers are the record `Numbers`, with what the C standard says of them
-- (PowerStates.Rows.AreConversions).
--
-- Latency (src/lat.c): two processes that answer each other's heartbeats, as a step of either
-- under a schedule. A process reads the tag of the other's last record, as Monitor.Reads shows of
-- hrm_get_current after `heartbeat`.
--
-- MachineStates (src/machine_states.c, src/machine_states.h): the states of a machine, each a list
-- of frequencies with its speed and its power, their generation, and the tests that select among
-- them. A row of `unsigned long` is the record `MachineState`; sums are modulo 2^64, products of
-- `int` modulo 2^32. qsort is a parameter, with what the C standard says of it
-- (MachineStates.Order.IsQsort).
--
-- Control (src/combined.c): the service. Control.Actuators is the table of actuators with its
-- search, Control.Heuristics and Control.Controllers are the decision functions that main chooses
-- from: they read the monitor and the last record, and set the request of an actuator.
-- Control.Outcome tells a value, an exit and a fault apart. A static variable of a decision
-- function is found again at each call where it caches a pointer, and passed in and out where it
-- keeps the last error.
--
-- Control.Speed is the machine speed actuator: the search of machine_speed_act, and in
-- Control.Speed.Init machine_speed_init with its filter, which uses MachineStates. Control.Loop is
-- the loop of main: it polls the monitor, waits until the last action shows, calls a decision
-- function, and carries out the requests through Control.Loop.Platform, which stands for taskset
-- and cpufreq. Control.Start builds the table of actuators and fills in those of the cores and
-- frequencies. Control.Options, Control.Apps and Control.Main are main up to its loop: the options
-- and the decision function they name, the search of the directory for the application, and the
-- initialisation of the table. Double is the C type double, as a record of operations without
-- laws, an argument of whatever computes with it. Base holds the shared lists, integers and tests.
--
-- Fuel: `ipow` runs with its exponent and one more, which is enough since the exponent is halved
-- (MachineStates.Power). The recursion of generate_machine_states_internal runs with the number of
-- cores, its depth. The binary search runs with the length of its table, which is enough since
-- each look makes the range shorter (Control.Speed.Search). The count of cores in CoreAllocator
-- runs with 32, the bits of an int. The rows of a table are read with the length of its text and
-- one more, since a row has a character at least (PowerStates.Rows). The other loops are
-- structural.
--
-- Integers: a counter that only counts up is a natural number, so the overflow of int64_t after
-- 2^63 beats is left out, as is that of a sum of signed values, which C does not define. A ring
-- has at most 2^31 records where its index goes through an `int`.
--
-- Not modelled: heartbeat_finish, which frees, and heart_rate_monitor_finish, which is empty; what
-- the adapting programs read of the processors in /proc/stat, of the hardware's limits, of the
-- policies (except in FrequencyScaler1) and of the directory of applications through a pipe; the
-- set-up and the clock of src/lat.c; and the drivers src/tp.c and src/application.c, which
-- register heartbeats in a loop. The mutex of `heartbeat` is not modelled: the calls of one
-- application are one after the other. A monitor's copy of a record is one step.
pub mod Base
pub mod Double
pub mod Heartbeat
pub mod Monitor
pub mod MachineStates
pub mod Control
pub mod HeartbeatFile
pub mod MonitorFile
pub mod Adapt
pub mod CoreAllocator
pub mod FrequencyTable
pub mod FrequencyScaler
pub mod FrequencyScaler1
pub mod FrequencyScaler2
pub mod Latency
pub mod PowerStates
pub mod Coupled
pub mod System
