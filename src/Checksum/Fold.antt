-- ===== src/Checksum/Fold.antt =====
-- The folding loop and the complement, on a `uint32_t`.
use mathlib.Core.WellFounded.{Acc}
use nw_proj.Base.{ℕ, ◌+◌, ◌/◌, ◌%◌, ◌^◌, ◌<◌, ◌≡◌, arith}
use nw_proj.Base.Order.{lt_wf}
use nw_proj.Memory.{htons}
use nw_proj.Checksum.{fold_acc, fold, complement}

-- The loop ends below 2 ^ 16, keeps the value modulo 65535, and keeps a positive sum positive.
abbrev pub Folds : ℕ → ℕ → Type 0
Folds sum r = (r < 2 ^ 16) × (r % 65535 ≡ sum % 65535) × (0 < sum → 0 < r)

fold_acc-Folds : (sum : ℕ) (w : Acc ◌<◌ sum) → Folds sum (fold_acc sum w)
unfolding fold_acc
fold_acc-Folds sum (Acc.intro _ smaller) = grind (
  arith,
  λ (p : sum / 2 ^ 16 + sum % 2 ^ 16 < sum).
      fold_acc-Folds (sum / 2 ^ 16 + sum % 2 ^ 16) (smaller (sum / 2 ^ 16 + sum % 2 ^ 16) p),
)

pub fold-Folds : (sum : ℕ) → Folds sum (fold sum)
unfolding fold
fold-Folds sum = fold_acc-Folds sum (lt_wf.apply sum)

-- The complement of a folded sum is its negative modulo 65535, in network order, and never zero.
pub complement-neg : (r : ℕ) → r < 2 ^ 16 → (htons (complement r) + r) % 65535 ≡ 0
unfolding complement htons
complement-neg r h = ground arith

pub complement-range : (r : ℕ) → (0 < complement r) × (complement r < 2 ^ 16)
unfolding complement htons
complement-range r = ground arith
