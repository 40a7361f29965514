-- ===== src/Queue/View/Commands.antt =====
-- What each command of the scripts and methods of queue.go does to the abstract queue.
mod Lists
mod Sets
mod Data
pub use Lists.*
pub use Sets.*
pub use Data.*
