-- ===== src/Lib.antt =====
-- Verification library of ros2_canopen, a ROS 2 stack for CANopen devices.
--
-- The program. A device container loads one master and a driver per device of the bus. A driver node
-- owns a `NodeCanopenDriver` (canopen_core), which goes through init, configure, set_master and
-- activate; `LifecycleManager` (canopen_core) asks the nodes for these steps by service calls. The
-- CiA 402 driver (canopen_402_driver) owns a `Motor402`: it reads the status word of a drive, decodes
-- the drive's state, and steps it through the CiA 402 state machine by commands in the control word,
-- while the selected operation mode writes its own bits of that word. Every driver reaches its device
-- through a `LelyDriverBridge` (canopen_base_driver), which answers reads and writes from the PDOs and
-- the local dictionary or by SDO requests to the device. The CiA 408 driver
-- (canopen_408_driver) streams a control word and a set point to a valve, and the CiA 401 driver
-- (canopen_401_driver) publishes a radio remote. The hardware interfaces of ros2_control
-- (canopen_ros2_control) run a device container and pass commands and states between its drivers and
-- the controllers (canopen_ros2_controllers). canopen_fake_slaves simulates a CiA 402 drive, against
-- which the 402 driver is tested.
--
-- The files.
-- Base: the native numbers with Boolean tests, lists, bits of words, signed integers.
-- Cia402/State (canopen_402_driver/src/state.cpp): `State402` with `read` and `waitForNewState`;
--   Decode holds the bit patterns of the standard, Wait the laws of the wait.
-- Cia402/Command (canopen_402_driver/src/command.cpp): the transition table and `setTransition`;
--   Table holds the commands of the standard, and the two transitions that the code has beyond them.
-- Cia402/Word (canopen_402_driver/include/canopen_402_driver/word_accessor.hpp): `WordAccessor`.
-- Cia402/Mode (canopen_402_driver/include/canopen_402_driver/mode.hpp and its implementations, and
--   canopen_402_driver/src/default_homing_mode.cpp): targets, forwarding, profiled position, homing.
-- Cia402/Motor (canopen_402_driver/src/motor.cpp): `Motor402`; Switch is `switchState`, Modes the
--   operations on modes, Handlers the handlers, Handlers/Poll the cycle of reading and writing.
-- FakeSlave (canopen_fake_slaves/include/canopen_fake_slaves/cia402_slave.hpp): the simulated drive's
--   handlers of writes; Commands relates them to the commands of Cia402/Command.
-- Valve408 (canopen_408_driver/src/hydraulic_axis.cpp): `HydraulicAxis408`.
-- Core/Driver (canopen_core/include/canopen_core/node_interfaces/node_canopen_driver.hpp,
--   canopen_core/src/driver_node.cpp): the life of a driver, with its exceptions.
-- Core/Master (canopen_core/include/canopen_core/node_interfaces/node_canopen_master.hpp with
--   canopen_master_driver/include/canopen_master_driver/node_interfaces/node_canopen_basic_master_impl.hpp):
--   the life of the master. Core/Action: methods that may throw, for both.
-- Core/Manager (canopen_core/src/lifecycle_manager.cpp): `LifecycleManager`.
-- Core/Config (canopen_core/src/configuration_manager.cpp): `ConfigurationManager`, the file of the
--   bus as a list of sections; Names has the order of names.
-- Core/Container (canopen_core/src/device_container.cpp): `DeviceContainer`; Laws and Loop are the
--   loading of drivers, Start the loading of everything.
-- Bridge (canopen_base_driver/include/canopen_base_driver/lely_driver_bridge.hpp,
--   canopen_base_driver/src/lely_driver_bridge.cpp): `LelyDriverBridge`, in parts. Dictionary is what
--   it uses of lely's dictionary; Pdo is `createPDOMapping` and `checkObjRPDO`; Sdo the requests, of
--   which each call and each callback is a step (Sdo/Steps), with Sdo/Order and Sdo/Threads on many
--   threads, Sdo/Stuck on types without a case, Sdo/Once and Sdo/Sync on one thread; Access is
--   `universal_get_value`, `universal_set_value`, `OnRpdoWrite` and `tpdo_transmit`; Boot is
--   `wait_for_boot`, `OnBoot`, `OnState` and `async_request_nmt`.
-- Nodes/Base (canopen_base_driver/include/canopen_base_driver/node_interfaces/node_canopen_base_driver_impl.hpp):
--   `configure`, `add_to_master` and `poll_timer_callback` of `NodeCanopenBaseDriver`.
-- Nodes/Drive (canopen_402_driver/include/canopen_402_driver/node_interfaces/node_canopen_402_driver_impl.hpp):
--   the channels of `NodeCanopen402Driver` and the services on their motors.
-- Nodes/Proxy (canopen_proxy_driver/include/canopen_proxy_driver/node_interfaces/node_canopen_proxy_driver_impl.hpp):
--   `NodeCanopenProxyDriver`, its services and callbacks over the Bridge.
-- Nodes/Master (canopen_master_driver/src/lely_master_bridge.cpp with
--   canopen_master_driver/include/canopen_master_driver/node_interfaces/node_canopen_basic_master_impl.hpp):
--   the SDO services of the master, with the state of Bridge/Sdo.
-- Control: ros2_control. Control/Value and Control/Node
--   (canopen_ros2_control/include/canopen_ros2_control/canopen_system.hpp) are the data that hardware
--   and controllers share; Control/System (canopen_ros2_control/src/canopen_system.cpp) is
--   `CanopenSystem`, Control/Drives (canopen_ros2_control/src/cia402_system.cpp) `Cia402System`, with
--   the calls of a cycle in Control/Drives/Once, and
--   Control/Robot (canopen_ros2_control/src/robot_system.cpp with
--   canopen_ros2_control/include/canopen_ros2_control/cia402_data.hpp) `RobotSystem`; Control/Proxy
--   (canopen_ros2_controllers/src/canopen_proxy_controller.cpp) is `CanopenProxyController`, with its
--   services against the cycles of the hardware in Control/Proxy/Loop.
-- Devices/Remote (canopen_401_driver/include/canopen_401_driver/m880_remote.hpp): `M880Remote`, with
--   the configuration of its node in Devices/Remote/Config
--   (canopen_401_driver/include/canopen_401_driver/node_interfaces/node_canopen_401_driver_impl.hpp).
-- Devices/Inclinometer (canopen_410_driver/include/canopen_410_driver/inclinometer.hpp):
--   `Inclinometer410`.
-- Devices/Valve (canopen_408_driver/include/canopen_408_driver/node_interfaces/node_canopen_408_driver_impl.hpp):
--   the node around the valve of Valve408.
-- Tests: runs at concrete inputs.
--
-- Modelling. A word of 16 bits is a native number, and conversions between widths are written as
-- remainders. Each method takes the state of its object and returns the new one. The other threads
-- are a function `tick`, applied between two wake-ups of a wait, and a deadline is a number of ticks.
-- `switch_loop` takes fuel; a round either ends the loop or uses up a tick of the deadline, so that
-- the deadline and one more is enough. Every other loop is structural. The lely
-- library, ROS, YAML, boost's casts and the virtual functions of derived classes are parameters; in
-- Cia402 a call of the bridge never throws, in Valve408, Bridge and Core a failure is a value. What
-- the Bridge relies on of lely's dictionary is `IsDictionary`: a value that is set is there, and no
-- object comes or goes. A thread that waits at `sdo_cond` may be woken spuriously, and a call may
-- overtake a woken thread, where a flag of Bridge/Sdo/Steps says so. Its values are the bit patterns of their types, on a little-endian machine.
-- The boot attempts of `add_to_master` are a recursion on the attempts that are left.
-- The doubles of Control are a parameter, of which `IsFloats` says what is used: integers of up to 32
-- bits are doubles, and a cast to a type that holds them gives them back. A service that waits for the
-- control loop is a function of the turns that the loop takes meanwhile. A use of a driver that is
-- not there is the result `none`; exceptions of calls of the drivers are not followed there. The axes of the remote are exact quotients, not floats.
--
-- Not modelled: `async_write_nmt` of the master, which no service calls, the quaternion that the
-- inclinometer publishes, the texts of errors and faults, boost's queues behind their order of first
-- in, first out, the threads that listen to queues, the ROS interfaces and the parameters of the nodes, the life cycle calls of the hardware interfaces, which start and stop
-- threads, diagnostics, the motion threads of the simulated drive, exceptions of lely within
-- `OnRpdoWrite`, and log lines.
pub mod Base
pub mod Cia402
pub mod FakeSlave
pub mod Valve408
pub mod Bridge
pub mod Core
pub mod Nodes
pub mod Control
pub mod Devices
pub mod Tests
