-- ===== src/Server/Fetch/Coalesce.antt =====
-- Which ranges internal/httpserver/media_fetch.go keeps.
use zero_nime.Base.{ℕ, suc, ◌-◌, ◌≡◌, ◌⊎◌, ℤ, pos, ◌+ℤ◌, ◌-ℤ◌, ◌≤ℤ◌, max_int64, wrap64}
use zero_nime.Text.{Text}

-- The number of bytes from `a` to `b`, as the code computes it.
abbrev computed : ℕ → ℕ → ℤ
computed a b = wrap64 (wrap64 (pos b -ℤ pos a) +ℤ pos 1)

-- The range is of at most the given number of bytes, or it is the whole of the numbers.
abbrev pub IsSmall : ℤ → ℕ → ℕ → Type 0
IsSmall max_bytes a b = (pos (suc (b - a)) ≤ℤ max_bytes) ⊎ ((a ≡ 0) × (b ≡ max_int64))
