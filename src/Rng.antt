-- ===== src/Rng.antt =====
-- The generator that the engine is given (`R: RngCore + CryptoRng` of the crate `rand_core`): a
-- parameter, with its state passed on from call to call.
use ssh_bench.Common.{ℕ, ◌≡◌, Bytes, length}

pub record Rng : Type 1 where
  pub State : Type 0
  pub fill_bytes : ℕ → State → Bytes × State
  pub next_u32 : State → ℕ × State

-- `fill_bytes` fills the whole slice.
pub record IsRng (r : Rng) : Type 0 where
  pub length-fill_bytes : (n : ℕ) (s : r.State) → length (r.fill_bytes n s).0 ≡ n
