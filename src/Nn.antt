-- ===== src/Nn.antt =====
-- snakelab/nn: the replay memory, the exploration schedule, and the trainer.
pub mod Replay
pub mod Epsilon
pub mod Learner
pub mod Trainer
