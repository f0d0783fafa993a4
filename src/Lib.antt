-- ===== src/Lib.antt =====
-- The EEROS robotics framework, a C++ library for real-time robot control: parts of it as
-- definitions, with theorems about them. Paths are from the root of the repository.
--
-- A robot program built on the framework has a safety system, which is the main task of the
-- executor and may stop the robot at any time, a control system of blocks that time domains run
-- periodically, and sequences that command the control system and are watched by monitors.
--
-- Base: names, numbers, lists, stores and results that the other parts share. An object behind a
--   pointer stands in a `Store`, a function from addresses. A call that may throw gives a `Result`;
--   its fault `undefined` stands for what C++ leaves undefined.
-- Safety: src/safety and includes/eeros/safety. `Safety.Level` is SafetyLevel with InputAction and
--   OutputAction, `Safety.Properties` is SafetyProperties (`verify`, the registration of events for
--   ranges of levels, the numbering of levels), `Safety.System` is SafetySystem with SafetyContext:
--   `trigger_event`, `run`, `construct`. The callbacks of the application and the hardware are
--   parameters. The loops over the atomic `nextLevel` in triggerEvent and run are on fuel, `rounds`
--   of them; two rounds are enough when no other thread comes in between, which is proved, since
--   each cycle and each trigger returns. `store_round` is one round alone, for the race.
-- Core: includes/eeros/core/RingBuffer.hpp and AsyncBuffer.hpp, src/core/Statistics.cpp and
--   src/core/PeriodicCounter.cpp, whose numbers are those of an ordered ring. Indices of the ring buffer wrap
--   around at 2 ^ 32; `Core.RingBuffer.Queue` has the buffers up to what they hold, as a quotient.
--   `Core.AsyncBuffer` has the calls and the steps between which the other thread
--   may come in.
-- Task: includes/eeros/task/Harmonic.hpp, HarmonicTaskList.hpp and Periodic.hpp, src/task, and of
--   src/core/Executor.cpp the creation of threads (`create_threads`) and of priorities
--   (`assign_priorities`). Periods and deviations are numbers of one fixed unit of time instead of
--   doubles. `std::sort` is a parameter that gives an ordered permutation. `Task.Async` is
--   src/task/Async.cpp with src/core/Semaphore.cpp as a relation of the steps that the thread and the
--   callers take in any order; `thread_steps` lets the thread run alone for a number of steps.
-- Config: src/config/Config.cpp and includes/eeros/config. `Config` has the properties and their
--   accessors, `Config.File` FileConfig.hpp with `save` and `load`. Variables are addresses of a
--   memory; files, and the printing and reading of numbers, are parameters.
-- Sequencer: src/sequencer/BaseSequence.cpp and includes/eeros/sequencer. `Sequencer.Monitors` is
--   checkMonitors, `Sequencer.Action` the state machine of action, `Sequencer.Timeout`
--   ConditionTimeout.hpp. Conditions, exception sequences and what a sequence does are parameters.
--   `Sequencer.Registry` is the list of sequences of src/sequencer/Sequencer.cpp.
--   The loop of action is for at most a number of passes; three are enough for a sequence that may
--   leave at once, two for one that is aborted.
-- Control: includes/eeros/control. `Control.Delay`, `Control.Trace`, `Control.Saturation`,
--   `Control.Switch`, `Control.Sum` and `Control.SignalChecker`, which uses the safety system, are the
--   blocks of these names, `Control.Vectors` the multiplexer and the demultiplexer, `Control.Filters`
--   the moving average and the median, with `std::sort` as a parameter that permutes and orders,
--   `Control.Integrator` the block I. `Control.TimeDomain` is src/control/TimeDomain.cpp, whose blocks
--   and safety system are parameters. `Control.Gain`, `Control.WrapAround` (for integers) and
--   `Control.ZTransferFunction` are the blocks of these names, `Control.Transition` is the pair of blocks
--   of Transition.hpp, `Control.PathPlannerCubic` the path planner of that name,
--   `Control.RateLimiter` and `Control.Step` the blocks of these names. The calls of combined switches are on fuel; more than the
--   depth of the graph that they form is enough, if it has no circle.
-- Hal: src/hal/HAL.cpp. `Hal.Claims` is the registry of one direction, inputs or outputs, with its
--   exclusive and shared claims, `Hal.Registry` the two directions.
-- Math: includes/eeros/math and src/math. `Math.Matrix` is Matrix.hpp over a commutative ring, with
--   the array of a matrix as a store of which the loops write one cell after the other. The sort of
--   `Math.Matrix.Gauss` is on fuel, twice the number of rows, which is enough since each pass raises
--   one of two row numbers.
--   `Math.Polynome` and `Math.Fraction` are the classes of Fraction.hpp, over a commutative ring.
--   `Math.Frame` and `Math.CoordinateSystem` are the registries of frames and coordinate systems.
--
-- Not modelled: the other blocks of the control system; floating point, which the matrices and blocks
-- replace by the laws of a ring or an order; the parser and the loader of the hardware abstraction
-- layer and quaternions; the logger, sockets, user interface and the
-- glue to CAN, EtherCAT and ROS, which are input and output; threads of the operating system, except
-- where a theorem names the steps between which another thread comes in.

pub mod Base
pub mod Safety
pub mod Core
pub mod Task
pub mod Sequencer
pub mod Hal
pub mod Config
pub mod Math
pub mod Control
