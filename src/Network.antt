-- ===== src/Network.antt =====
-- The network of supernodes in absorption.py: islands as connected components, and what a fault cuts
-- off.
pub mod Sets
pub mod Components
pub mod Links
mod Tests
