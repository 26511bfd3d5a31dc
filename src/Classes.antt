-- ===== src/Classes.antt =====
-- vm/vm.c: the table of classes.
pub mod Table
pub mod Layout
pub mod Names
pub mod Search
pub mod Methods
pub mod Parents
pub mod Memo
pub mod Sizes
mod Tests
