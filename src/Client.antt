-- ===== src/Client.antt =====
-- snakelab/client: the board and the plots of the terminal client.
pub mod SnakeBoard
pub mod LivePlots
