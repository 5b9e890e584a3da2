-- ===== src/Bus/Fit/Unseen.antt =====
-- The indices that a descriptor chain of rv64rs/src/virtio.rs has not visited.
use riscvm.Base.{ℕ, zero, suc, ◌+◌, ◌≤◌, ◌<◌, ◌≡◌, refl, arith, false, if◌then◌else◌, Bool-cases}
use riscvm.Base.{inl, inr, List, [], ◌∷◌, ◌==◌}
use riscvm.Bus.Queue.{contains_idx}

-- The number of indices below `n` that a list leaves out.
pub unseen : ℕ → List ℕ → ℕ
unseen zero seen = 0
unseen (suc n) seen = unseen n seen + (if contains_idx seen n then 0 else 1)

pub unseen-nil : (n : ℕ) → unseen n [] ≡ n
unfolding unseen contains_idx
unseen-nil zero = refl
unseen-nil (suc n) = omega (arith, unseen-nil n)

-- An index at `n` or above makes no difference below `n`.
unseen_beyond : (n x : ℕ) (seen : List ℕ) → n ≤ x → unseen n (x ∷ seen) ≡ unseen n seen
unfolding unseen contains_idx
unseen_beyond zero x seen h = refl
unseen_beyond (suc n) x seen h = ground (arith, unseen_beyond n x seen)

-- A new index below `n` leaves one fewer.
pub unseen-cons :
    (n x : ℕ) (seen : List ℕ)
    → x < n
    → contains_idx seen x ≡ false
    → unseen n seen ≡ suc (unseen n (x ∷ seen))
unfolding unseen contains_idx
unseen-cons zero x seen h new = absurd (omega arith)
unseen-cons (suc n) x seen h new = elim (Bool-cases (x == n)) [
  | inl e ↦ ground (arith, unseen_beyond n x seen)
  | inr e ↦ ground (arith, unseen-cons n x seen)
]
