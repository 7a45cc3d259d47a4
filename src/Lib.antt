-- ===== src/Lib.antt =====
-- loop_charger_inverter is a daemon that polls inverters over Modbus RTU. This library models its C
-- code by definitions that mirror the functions, with theorems about them. Paths are from the root
-- of the repository.
--
-- src/main.c reads its arguments, loads the units from a JSON file (src/config_loader.c) and starts
-- the rest: start_inverter_modules one poll thread for each enabled unit. Then it waits for a
-- signal and stops what it has started. The poll thread (src/inverter_module.c) opens the serial
-- port, takes write commands from a queue and reads the unit's registers with the Modbus client
-- (lib/modbus) into a shared pool (lib/device_map), along the unit's register table
-- (devices/inverter/inverter_map.c). A monitor thread (lib/alarm/alarm_bridge.c) runs the alarm
-- engine (lib/alarm/alarm_engine.c) over the pool with the table of src/inverter_alarm.c, whose
-- events src/inverter_alarm_manager.c writes to an SQLite table. The bridge
-- (src/inverter_cmos_bridge.c) has two threads on CMOS sockets (lib/cmos): a subscriber whose
-- handlers push commands into the queue, and a publisher that sends registers of the pool.
-- Publishers and subscribers find each other through a master.
--
-- The files, with the code that each is about:
--   Prelude: shared names; Boolean tests and lists over the native numbers, integers, bits.
--   Modbus/Crc: mb_rtu_compute_crc16; below it its laws, from one bit to a message.
--   Modbus/Frame: append_uint16_be, append_crc, verify_response_crc, modbus_defines.h.
--   Modbus/Serial: wait_for_data and read_exact on the events of a serial line.
--   Modbus/Transaction: do_transaction and the result codes of modbus_rtu_client.h.
--   Modbus/Client: the mb_rtu_client_* functions on registers, and probe_device.
--   Modbus/Port: map_baud_rate, configure_serial_port, connect and disconnect.
--   Log: log.c; Log/Streams is what each stream gets of a sequence of calls.
--   DeviceMap: device_register_map.c, with the lookup in Find, the pool in Pool and
--     check_register_access_range in Access.
--   Alarm/Engine: alarm_engine.c; Engine/Sticky and Engine/Changes are an entry over many passes,
--     Engine/Passes the whole table.
--   Alarm/Bridge: alarm_bridge.c, with the passes of alarm_monitor_thread as monitor_run.
--   Cmos/Text: strtok, strcmp and strncmp as lib/cmos uses them, and the digits that %u prints.
--   Cmos/Pub: cmos_pub.c; Pub/Message and Pub/Bounds are the text of a message, Pub/Clients the
--     table of subscribers, Pub/Closing the sockets that are closed.
--   Cmos/Sub: the receive loop and ctx_handle_line of cmos_sub.c; Sub/Framing is the cutting of
--     the stream into lines, Sub/Messages and Link the parsing of what cmos_publish writes, and
--     Stream a whole connection.
--   Cmos/Conns: the connections of cmos_sub.c and the answers of the master; Cmos/Spin: the
--     requests to the master, cmos_sub_create, cmos_sub_add, cmos_sub_destroy and the rounds of
--     cmos_sub_spin_ctx.
--   Cmos/Util: cmos_util.h; Util/Search and Util/Parsing are the parsing of what cmos_publish
--     writes, Util/Batch the sending of several messages.
--   Config: src/config_loader.c; Config/Fields and Config/Units are about the units that it
--     loads.
--   Inverter/Map: inverter_map.c. Inverter/Alarms: inverter_alarm.c.
--   Inverter/Queue: the command queue of inverter_module.c; Queue/Slots, Queue/Fifo and
--     Queue/Runs are the first-in first-out queue that it is.
--   Inverter/Unit: the callbacks of a unit; Unit/Segments and Unit/Scan are its pass; Unit/Slave,
--     Unit/Device and Unit/Round are the reads of a pass over a device that answers.
--   Inverter/Unit/Arrivals: the pass while the bridge pushes into the queue; Unit/Drain is its
--     first phase against the queue of requests, Unit/Pass the whole pass.
--   Inverter/Thread: the poll thread and its init and error callbacks.
--   Inverter/Handlers: inverter_cmd_push and the handlers of inverter_cmos_bridge.c;
--     Handlers/Access is what they let through, Handlers/Queued what then waits in the queues.
--   Inverter/Bridge: the two threads of inverter_cmos_bridge.c; Bridge/Dispatch is about the
--     controller's messages, Bridge/Registers about the published ones.
--   Inverter/Start: start_inverter_modules and stop_inverter_modules, with the start and stop of
--     the bridge; Start/Loop and Start/Started are what they leave running.
--   Inverter/AlarmManager: inverter_alarm_manager.c; AlarmManager/Rows, Kept and Again are the
--     table as a list of rows, AlarmManager/Latest is what the events leave in it,
--     AlarmManager/Monitored the monitor thread with the manager, and AlarmManager/Handles the
--     handles of SQLite.
--   Program: main.c, with the loop that waits in Program/Wait; Program/Threads, Joins and Balance
--     are the threads that it makes and joins.
--   Tests: runs at concrete inputs.
--
-- State is passed explicitly: a record for each struct, the pool as a function of its index, a
-- buffer with its write position as a list. Numbers of w bits are natural numbers with their
-- wrap-around written out. A null pointer is `none`. The serial line is a parameter: a state and a
-- function from a timeout and a request to what `write` returns and to the events that `select` and
-- `read` then answer with; so are the clock, `open`, the termios calls, the threads' calls,
-- `strtoul`, `atoi` and `atof`, the calls of json-c (JsonCalls), and those of sqlite3 with the
-- local time (SqlCalls). What the table theorems rely on of SQLite is the record IsTable, what
-- those on threads rely on of `pthread_create` and `pthread_join` the record IsThreading. What
-- `getopt` finds is a list. The socket calls of lib/cmos are the records PubCalls and SubCalls of
-- functions on a state; what the master answers to a lookup is the list of the pieces that `recv`
-- brings before it fails, and a round of the subscriber is given its events, each with the bytes
-- that `recv` brings. Text that a function of the C library reads or writes is a list of bytes;
-- behaviour that C leaves undefined is `undefined` or `none`.
--
-- These loops run on fuel. The binary search has one round more than the table has rows, as each
-- round shrinks its range; the drain of the queue one more than the queue has commands, as each
-- round pops one; the loops over the tokens of a message and over the digits of a number one more
-- than the text has bytes and the number's value, as each round takes a byte or divides by ten.
-- check_register_access_range takes its bound as an argument, and needs one round more than it has
-- slots to visit when its range does not wrap.
--
-- The drain with arrivals takes a list of what comes before each of its first pops; behind that
-- list it is the drain on fuel. The loop of main.c that waits is a run over any list of steps.
--
-- Not modelled: the locks, since what they guard is one step here; sleeps; which messages the
-- modules log, as lines for the console; the usage text and the calls of sigaction; socket options,
-- the ignored SIGPIPE and the registration of sockets with epoll, which the events of a round stand
-- for; the copies of SQLite and Unity, and the unit tests.
pub mod Prelude
pub mod Modbus
pub mod DeviceMap
pub mod Alarm
pub mod Cmos
pub mod Config
pub mod Inverter
pub mod Log
pub mod Program
pub mod Tests
