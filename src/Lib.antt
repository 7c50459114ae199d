-- ===== src/Lib.antt =====
-- A model of csp_lib, a Python library for the control of energy equipment: devices are read and
-- written over Modbus, alarms are evaluated and kept, and a mode manager chooses the control
-- strategy.
--
-- Base carries the shared names: tests on native numbers, an equality interface, lists, a Python
-- dict as an association list in insertion order, and integers. Each other module is a part of
-- the program; the file of a definition is named in its module's first comment, from csp_lib/
-- on.
--
-- Modbus: integers of any width in registers (csp_lib/modbus/types/dynamic.py), a register order
-- and the two's complement included.
--
-- Transport: the scheduler of read groups and the grouping of points into reads
-- (csp_lib/equipment/transport). `group` sorts by insertion, which is stable as Python's
-- `sorted` is, splits the points into runs, and merges each run as `_merge_consecutive` does.
--
-- RequestQueue: the Modbus request queue (csp_lib/modbus/clients/queue.py): `submit`, `dequeue`,
-- `begin` and `finish` are the code between two awaits, so a sequence of events is an
-- interleaving of the callers and the worker. RequestQueue/Dequeue has `_dequeue`; Structure,
-- Submit, Taking, Scanning, Choice, Least and Life have the lemmas and theorems. It uses
-- Resilience, the circuit breaker (csp_lib/core/resilience.py), one to a unit.
--
-- Alarm: definitions, the state of one alarm and its hysteresis
-- (csp_lib/equipment/alarm/definition.py, state.py), the registry of a device in Alarm/Manager,
-- and the evaluators in Alarm/Evaluator (evaluator.py), whose verdicts are the evaluations that
-- `update_all` takes.
--
-- Aggregator: the flag that one or more sources raise (csp_lib/alarm/aggregator.py). An observer
-- and a hook are numbers; a device's registry of handlers, and a watchdog's, are outside, and
-- may call the handlers at any time.
--
-- Mode: the mode manager (csp_lib/controller/system/mode.py): base modes, the overrides, and the
-- callback by which the system controller learns of a change.
--
-- RuntimeParameters: the parameters shared between threads (csp_lib/core/runtime_params.py),
-- over any type of values with an equality test.
--
-- Integration: the registry of devices with its index of traits
-- (csp_lib/integration/registry.py) in Integration/Registry, and the command router with the
-- refresh of the desired state (command_router.py, command_refresh.py) in Integration/Router.
-- Integration/Linked composes them: a call of the registry that takes a device off tells the
-- router, which drops what it tracks of it. There a route or a refresh is one step;
-- Integration/InFlight divides `try_write_single` at its wait for the device and the refresh at
-- each of its writes, and lets other calls come between. Registry/Views, Indexed, Forgotten,
-- Calls and Found, and Router/Safety, Refresh and Resent, have the lemmas and theorems.
--
-- Cluster: the election of a leader (csp_lib/cluster/election.py). The place where the campaign
-- task waits is part of the state and decides which replies can come, so an execution is a
-- sequence of replies, renewals and calls of `resign`; etcd is outside.
--
-- Gateway: the Modbus gateway (csp_lib/modbus_gateway): Gateway/Slices has the assignment to a
-- slice of an array, Gateway/RegisterMap the map with its overlap check, Gateway/Pipeline the
-- processing of a write (pipeline.py, config.py, validators.py), and Gateway/Watchdog the
-- watchdog. A definition carries the coding of its values, a parameter that may fail; its length
-- is the only thing that is assumed of it.
--
-- Device: a device (csp_lib/equipment/device/base.py, mixins.py): Device/Link has the
-- connection, the count of failures and the reads, Device/Points the points, the latest values,
-- and the writes, and Device/Emitter the queue of events (events.py); Device/Delivery has the
-- steps of a run, among them a round of the worker that is cancelled while a handler runs, and
-- Device/Heard what the handlers are called with. Which values are floats that are not finite is
-- a parameter.
--
-- Schedule: the schedules (csp_lib/manager/schedule): rules, their matching and the repository
-- in memory in Schedule, and the service in Schedule/Service, with the calls of the system
-- controller (csp_lib/integration/system_controller.py) and what they do to the schedule's mode.
-- Schedule/Due says when a rule is due, and Schedule/Following how the mode follows the rules.
-- The factory of strategies is outside.
--
-- Timing: the time anchor that the periodic loops share (csp_lib/core/_time_anchor.py).
--
-- State is passed explicitly and a method that raises returns a value of a result type with the
-- state it leaves. Clocks and random draws are arguments: a time is a number of milliseconds or
-- of clock ticks, and the factor 0.8 + 0.4 * random of the cooldown is a number of ten
-- thousandths, the draw below 1000. Every loop is structural recursion, so there is no fuel.
-- Numbers that Python keeps as unbounded integers are native numbers or integers.
--
-- Not modelled: the locks, and what runs between the steps of one call where no interleaving is
-- modelled: a call of the mode manager is one step with the calls of `on_activate`,
-- `on_deactivate` and the callback that it makes; `update`, `set` and `delete` of the
-- parameters, and a mark of the aggregator, are one step with their notices, which the program
-- gives after it released the lock, so that calls of other threads, and of an observer during
-- its notice, are taken to come after the notice; a route is one step with its writes, for which
-- the answers of the devices do not change; log lines; the clients of services (pymodbus, Redis,
-- MongoDB, etcd); the strategies' power laws, which work on floats; the other managers, the
-- cluster's synchronisation, the system controller and the user interface. Floats appear only as
-- parameters: in the threshold evaluator and the gateway's rules with their comparisons, in the
-- gateway's codings, and in the device's test for floats that are not finite.
pub mod Base
pub mod Modbus
pub mod Alarm
pub mod Mode
pub mod Resilience
pub mod RequestQueue
pub mod Transport
pub mod Aggregator
pub mod RuntimeParameters
pub mod Integration
pub mod Cluster
pub mod Gateway
pub mod Device
pub mod Schedule
pub mod Timing
