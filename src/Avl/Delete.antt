-- ===== src/Avl/Delete.antt =====
-- `avl_delete` of src/avl.cpp. `Delete/Unlink` has the node without a right subtree, `Delete/Minimum`
-- the search for the next node, `Delete/Swap` its move to the place of the node, and
-- `Delete/Whole` the function.
pub mod Unlink
pub mod Minimum
pub mod Copied
pub mod Locate
pub mod Swap
pub mod Whole
