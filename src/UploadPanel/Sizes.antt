-- ===== src/UploadPanel/Sizes.antt =====
-- `formatBytes` of frontend/src/components/UploadPanel.tsx. A quotient by a power of two is exact, so
-- `toFixed(1)` takes the nearest tenth, and of two the larger one.
use axiom_ai.Common.{
  ℕ, ◌+◌, ◌*◌, ◌/◌, ◌%◌, ◌≤◌, ◌<◌, true, false, ◌++◌, if◌then◌else◌, ltb, Text, codes, decimal, ◌≡◌,
  ◌⊎◌, refl, inl, inr, arith,
}

-- The tenths that `(bytes / unit).toFixed(1)` shows.
unfoldable pub tenths : ℕ → ℕ → ℕ
tenths bytes unit = (20 * bytes + unit) / (2 * unit)

abbrev pub fixed : ℕ → Text
fixed n = decimal (n / 10) ++ codes "." ++ decimal (n % 10)

unfoldable pub format_bytes : ℕ → Text
unfolding tenths
format_bytes bytes =
    if ltb bytes 1024
    then decimal bytes ++ codes " B"
    else if ltb bytes (1024 * 1024)
    then fixed (tenths bytes 1024) ++ codes " KB"
    else fixed (tenths bytes (1024 * 1024)) ++ codes " MB"

-- `n` tenths of a unit are no further from the bytes than half a tenth.
abbrev pub IsNearest : ℕ → ℕ → ℕ → Type 0
IsNearest bytes unit n = (20 * bytes ≤ 2 * (unit * n) + unit) × (2 * (unit * n) ≤ 20 * bytes + unit)

below : (a b : ℕ) → ((a < b) × (ltb a b ≡ true)) ⊎ ((b ≤ a) × (ltb a b ≡ false))
below a b = ground arith

-- Below a kibibyte the bytes are shown; below a mebibyte the nearest tenth of a kibibyte, at least
-- 1.0, and 1024.0 for just the last 51 sizes; and else the nearest tenth of a mebibyte, at least 1.0.
pub format_bytes-IsNearest :
    (b : ℕ)
    → ((b < 1024) × (format_bytes b ≡ decimal b ++ codes " B"))
      ⊎ (((1024 ≤ b)
            × (b < 1048576)
            × ((n : ℕ) × (format_bytes b ≡ fixed n ++ codes " KB")
                × IsNearest b 1024 n
                × (10 ≤ n)
                × (((b < 1048525) × (n < 10240)) ⊎ ((1048525 ≤ b) × (n ≡ 10240)))))
          ⊎ ((1048576 ≤ b)
              × ((n : ℕ) × (format_bytes b ≡ fixed n ++ codes " MB")
                  × IsNearest b 1048576 n
                  × (10 ≤ n))))
unfolding format_bytes tenths
format_bytes-IsNearest b = elim (below b 1024) [
  | inl (small, e) ↦ inl (small, rw e refl)
  | inr (large, e) ↦ elim (below b 1048576) [
    | inl (small, f) ↦
        inr (
          inl
            (large, small, (tenths b 1024, rw (e, f) refl, omega arith, omega arith, omega arith)))
    | inr (huge, f) ↦ inr (inr (huge, (tenths b 1048576, rw (e, f) refl, omega arith, omega arith)))
  ]
]
