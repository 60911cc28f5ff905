-- ===== src/Run/Phases.antt =====
-- Sums over the phases of the threads.
use native.Mathlib.Decide.{dec_lt}
use polyfetch.Base.{ℕ, zero, suc, ◌+◌, ◌*◌, ◌≤◌, ◌<◌, ◌≡◌, refl, arith}
use polyfetch.Run.{Phase, update_phase}

module _ (weight : Phase → ℕ) where
  pub phase_total : ℕ → (ℕ → Phase) → ℕ
  phase_total zero phase = 0
  phase_total (suc k) phase = phase_total k phase + weight (phase k)

  phase_total-outside :
      (k : ℕ) (phase : ℕ → Phase) (w : ℕ) (p : Phase)
      → k ≤ w
      → phase_total k (update_phase phase w p) ≡ phase_total k phase
  unfolding phase_total
  phase_total-outside zero phase w p h = refl
  phase_total-outside (suc k) phase w p h = ground (arith, phase_total-outside k phase w p)

  pub phase_total-update :
      (k : ℕ) (phase : ℕ → Phase) (w : ℕ) (p : Phase)
      → w < k
      → phase_total k (update_phase phase w p) + weight (phase w) ≡ phase_total k phase + weight p
  unfolding phase_total
  phase_total-update zero phase w p h = absurd (omega arith)
  phase_total-update (suc k) phase w p h = elim (dec_lt w k) [
    | yes below ↦ ground (arith, phase_total-update k phase w p below)
    | no last ↦ ground (arith, phase_total-outside k phase w p)
  ]

  pub phase_total-le :
      ((p : Phase) → weight p ≤ 1) → (k : ℕ) (phase : ℕ → Phase) → phase_total k phase ≤ k
  unfolding phase_total
  phase_total-le small zero phase = omega arith
  phase_total-le small (suc k) phase = omega (arith, small (phase k), phase_total-le small k phase)

  -- Only the first `k` threads have a weight.
  pub phase_total-bound :
      ((p : Phase) → weight p ≤ 1)
      → (k m : ℕ) (phase : ℕ → Phase) → ((w : ℕ) → k ≤ w → weight (phase w) ≡ 0)
      → phase_total m phase ≤ k
  unfolding phase_total
  phase_total-bound small k zero phase rest = omega arith
  phase_total-bound small k (suc m) phase rest = elim (dec_lt m k) [
    | yes below ↦ omega (arith, small (phase m), phase_total-le small m phase)
    | no beyond ↦ omega (arith, rest m (omega arith), phase_total-bound small k m phase rest)
  ]

  pub phase_total-start :
      (k : ℕ) (phase : ℕ → Phase) (p : Phase)
      → ((w : ℕ) → w < k → phase w ≡ p)
      → phase_total k phase ≡ k * weight p
  unfolding phase_total
  phase_total-start zero phase p h = omega arith
  phase_total-start (suc k) phase p h =
      rw (h k (omega arith))
        (omega (arith, phase_total-start k phase p (λ w lt. h w (omega arith))))

  pub phase_total-zero :
      (k : ℕ) (phase : ℕ → Phase) → phase_total k phase ≡ 0 → (w : ℕ) → w < k → weight (phase w) ≡ 0
  unfolding phase_total
  phase_total-zero zero phase e w h = absurd (omega arith)
  phase_total-zero (suc k) phase e w h = elim (dec_lt w k) [
    | yes below ↦ phase_total-zero k phase (omega arith) w below
    | no last ↦ let same : w ≡ k = omega arith in rw same (omega arith)
  ]

  pub phase_total-none :
      (k : ℕ) (phase : ℕ → Phase)
      → ((w : ℕ) → w < k → weight (phase w) ≡ 0)
      → phase_total k phase ≡ 0
  unfolding phase_total
  phase_total-none zero phase h = refl
  phase_total-none (suc k) phase h =
      omega (arith, h k (omega arith), phase_total-none k phase (λ w lt. h w (omega arith)))
