-- ===== src/Prelude/Int.antt =====
-- Signed durations: `negsuc n` is -(n + 1).
use Prim.Native.Nat.{ℕ, suc, ◌+◌, ◌-◌}

pub data ℤ : Type 0 where
  pos : ℕ → ℤ
  negsuc : ℕ → ℤ

-- `instant + duration`
abbrev pub add_ℤ : ℕ → ℤ → ℕ
add_ℤ t (pos d) = t + d
add_ℤ t (negsuc d) = t - suc d
