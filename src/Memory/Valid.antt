-- ===== src/Memory/Valid.antt =====
-- The well-formedness of the table `memories`: what each row holds, and the unique indices. The
-- operations keep it: the proofs are in the children.
pub mod Create
pub mod Update
pub mod Delete
mod Rows
pub use Rows.{IsRow, AllRows, IsTable, AllRows-find, AllRows-put_row, IsTable-put_row}
