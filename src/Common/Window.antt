-- ===== src/Common/Window.antt =====
-- A window on a family: its members from index `b` on, `w` of them, and a default value after that.
use Prim.Native.Nat.{ℕ, ◌+◌, ◌≤◌, ◌<◌}
use mathlib.Core.Path.{◌≡◌}
use mathlib.Core.Logic.{◌⊎◌, ite, if_pos}
use native.Mathlib.Decide.{dec_lt}
use native.Mathlib.Omega.{arith}
use futextest.Common.Family.{update}

-- The index is outside the window.
abbrev pub IsApart : (b w a : ℕ) → Type 0
IsApart b w a = (a < b) ⊎ (b + w ≤ a)

module _ {ℓ} {A : Type ℓ} (b w : ℕ) (d : A) where
  abbrev pub window : (ℕ → A) → ℕ → A
  window f a = ite (dec_lt a w) (f (a + b)) d

  pub window_at : (f : ℕ → A) (a : ℕ) → a < w → window f a ≡ f (a + b)
  window_at f a lt = if_pos (dec_lt a w) lt (f (a + b)) d

  window-update_at :
      (f : ℕ → A) (a : ℕ) (v : A) (x : ℕ)
      → a < w
      → window (update f (a + b) v) x ≡ update (window f) a v x
  window-update_at f a v x lt = ground arith

  pub window-update :
      (f : ℕ → A) (a : ℕ) (v : A) → a < w → window (update f (a + b) v) ≡ update (window f) a v
  window-update f a v lt = λ i x. window-update_at f a v x lt i

  window_apart_at :
      (f : ℕ → A) (a : ℕ) (v : A) (x : ℕ) → IsApart b w a → window (update f a v) x ≡ window f x
  window_apart_at f a v x out = ground arith

  pub window_apart : (f : ℕ → A) (a : ℕ) (v : A) → IsApart b w a → window (update f a v) ≡ window f
  window_apart f a v out = λ i x. window_apart_at f a v x out i
