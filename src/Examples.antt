-- ===== src/Examples.antt =====
-- Runs of the model on concrete inputs: the wire format, the server's two framings, the privileged
-- daemon and the storage verbs.
pub mod Frames
pub mod Connection
pub mod Privileged
pub mod Stores
pub mod Machines
pub mod SchemaRuns
pub mod Inventory
