-- ===== src/Slc.antt =====
-- telnetlib3/slc.py, and the SLC part of telnetlib3/stream_writer.py (`_slc_*`).
-- An `SLC` object is shared by reference: `generate_slctab` puts the objects of the default table
-- into a new table, and `set_mask` or `set_value` on one of them changes both. So a table maps a
-- function to a reference, and `objects` holds what the references stand for.
pub mod Objects
pub mod Table
pub mod Forwardmask
pub mod Change
