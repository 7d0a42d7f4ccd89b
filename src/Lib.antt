-- ===== src/Lib.antt =====
-- Snake Lab: a game of Snake that a recurrent network learns to play, run by a server that clients
-- steer over ZeroMQ.
--
-- The parts. A game (`snakelab/game`) is a state that pure rules step, inside an environment that
-- owns the random generator. A simulation plays episodes of it: the exploration schedule picks random
-- actions, the replay memory keeps whole episodes and samples windows of them for training
-- (`snakelab/nn`). The server (`snakelab/server`) queues runs, executes one at a time, answers requests
-- and writes what happens to a store (`snakelab/database`). What it tells goes out through two
-- publishers: telemetry, which may lose messages, and lifecycle events, which may not (`snakelab/zmq`).
--
-- The files, with the code that they model:
--   Base, Json          what Python gives: integers, lists, dictionaries, errors, JSON documents
--   External            random.Random and IEEE floats, as parameters with the laws that are relied on
--   Game/Position       snakelab/game/Position.py, GameHelper.py
--   Game/Direction      snakelab/game/Direction.py
--   Game/State          snakelab/game/GameState.py; floats of an observation are the data type Feature
--   Game/Moves          snakelab/game/RewardConfig.py, StepResult.py, snakelab/constants/DGame.py
--   Game/Rules          snakelab/game/GameRules.py: step, would_collide and their helpers
--   Game/Environment    snakelab/game/SnakeGame.py; `play` is SnakeGame.step
--   Game/Snapshot       snakelab/game/BoardSnapshot.py
--   Nn/Replay           snakelab/nn/ReplayMemory.py
--   Nn/Epsilon          snakelab/nn/EpsilonAlgo.py
--   Nn/Learner, Nn/Trainer
--                       snakelab/nn/Trainer.py, and what the simulator uses of it
--   Zmq/Protocol        snakelab/zmq/Protocol.py and the pure part of snakelab/client/AsyncLabClient.py
--   Zmq/Envelope        snakelab/zmq/TelemetryEnvelope.py
--   Zmq/Frame           snakelab/zmq/FrameTelemetry.py
--   Zmq/Events          snakelab/zmq/ZMQHelper.py, EventsPublisher.py
--   Zmq/Publisher       snakelab/zmq/TelemetryPublisher.py
--   Server/Control      snakelab/server/SimulationControl.py
--   Server/Results, Server/Simulator
--                       snakelab/server/Simulator.py: its records, and its loops
--   Server/Run          snakelab/server/SimulationRun.py
--   Server/Store        snakelab/database/MemorySimulationStore.py
--   Server/Service, Server/Handlers, Server/Dispatch, Server/Worker
--                       snakelab/server/SimulationServer.py: shared operations, requests, worker
--   Server/Life         SimulationServer.run: the tasks of the server between two awaits, as steps
--   Server/Lab, Server/View
--                       what the server promises about runs, and how its fields amount to that
--   Database/Statements, Database/DbMgr
--                       snakelab/database/DbMgr.py: the texts of statements; transactions and operations
--   Database/SnakeDb    the writes of snakelab/database/SnakeDb.py, with constants/DSQL.py and DBHelper.py
--   Client/SnakeBoard   snakelab/client/SnakeBoard.py
--   Client/LivePlots    the series of snakelab/client/LivePlots.py
--   Tests               small runs and instances
-- A child of one of these modules holds theorems about it, and so do Server/Transitions,
-- Serving, Requests and Execution.
--
-- State is passed explicitly, a raised error is a Result, and an await is the end of a step: between
-- two awaits the server runs one handler or one piece of the worker. The loops
-- run over lists (queues, episodes, board cells, wake-ups of a checkpoint), but for the moves of an
-- episode, which have fuel: one more than the move limit is enough.
--
-- Parameters: the generator, floats and their conversions, the connection of the database driver, JSON
-- texts and digests, the resolver and the hash of configurations, and `uuid.uuid4`, whose result is the
-- argument `run_id`, unused so far where a theorem needs it.
--
-- Not modelled: the layers of RNNModel and PyTorch, whose operations are a parameter of Trainer, Configuration and
-- JSONValidator, the reads of the SQL store, the rest of the terminal client, sockets and their polling,
-- logging, deployment.
pub mod Base
pub mod External
pub mod Json
pub mod Game
pub mod Nn
pub mod Zmq
pub mod Server
pub mod Client
pub mod Database
pub mod Tests
