-- ===== src/RaftApp/Submit/Ports.antt =====
-- The port that a first deployment gives to its instances.
use deployd.Prelude.{ℕ, ◌≤◌, ◌<◌, ◌^◌, arith}
use deployd.RaftApp.Submit.{random_port}

-- For a draw below 16, as rand.UintN(16) makes it, the port is one of the sixteen from 14000 on, and so
-- fits 16 bits.
pub random_port-bounds :
    (draw : ℕ)
    → draw < 16
    → (14000 ≤ random_port draw) × (random_port draw < 14016) × (random_port draw < 2 ^ 16)
unfolding random_port
random_port-bounds draw small = (omega arith, omega arith, omega arith)
