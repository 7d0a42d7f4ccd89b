-- ===== src/Server.antt =====
-- snakelab/server and the store it writes to: controls, results of episodes, runs, requests and the
-- worker.
pub mod Control
pub mod Results
pub mod Run
pub mod Store
pub mod Service
pub mod Handlers
pub mod Dispatch
pub mod Worker
pub mod Lab
pub mod View
pub mod Transitions
pub mod Serving
pub mod Requests
pub mod Execution
pub mod Life
pub mod Simulator
