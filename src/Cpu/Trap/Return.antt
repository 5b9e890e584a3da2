-- ===== src/Cpu/Trap/Return.antt =====
-- A trap and the return from it, of rv64rs/src/trap.rs and execute.rs.
use riscvm.Base.{
  ℕ, zero, suc, ◌+◌, ◌*◌, ◌/◌, ◌%◌, ◌^◌, ◌<◌, ◌≡◌, refl, sym, ap, ◌∙◌, arith, min, ok,
}
use riscvm.Base.{bit_and, bit_or, inv, shl, ◌==◌, ◌!=◌, if◌then◌else◌, Bool, true, false, of_bool}
use riscvm.Base.Bits.{bit, bit-and, bit-or, bit-lt, bit_and-le_right, bit_and_step, bit_and-zero}
use riscvm.Cpu.State.{Hart, get, insert, mstatus, priv_s}
use riscvm.Cpu.Trap.{enter_m_status, enter_s_status, assign, merge, delegated, raise_trap}
use riscvm.Cpu.Trap.{mstatus_sie, mstatus_mie, mstatus_spie, mstatus_mpie, mstatus_spp, mstatus_mpp}
use riscvm.Cpu.Trap.Laws.{merge-inside, bit-inv}
use riscvm.Cpu.Execute.System.{mret, sret, mret_status, sret_status}
use native.Mathlib.Nat.{pow-suc, le_refl, one-le-pow}

-- A bit times a power of two.
scaled : (m b p q : ℕ) → b < 2 → q ≡ 2 * p → min m 0 + 2 * (b * p) ≡ b * q
scaled m zero p q l e = ground arith
scaled m (suc zero) p q l e = omega (arith, e)
scaled m (suc (suc b)) p q l e = absurd (omega (arith, l))

of_bool-scaled : (b p : ℕ) → b < 2 → 0 < p → of_bool (b * p != 0) ≡ b
of_bool-scaled zero p l m = ground arith
of_bool-scaled (suc zero) p l m = ground arith
of_bool-scaled (suc (suc b)) p l m = absurd (omega (arith, l))

-- One bit of a word as a mask sees it.
bit_and-single : (k x : ℕ) → bit_and x (2 ^ k) ≡ bit x k * 2 ^ k
bit_and-single zero x = omega (arith, bit_and_step x 1, bit_and-zero (x / 2))
bit_and-single (suc k) x =
    let halved : 2 ^ suc k / 2 ≡ 2 ^ k = omega (arith, pow-suc 2 k) in
    let even : 2 ^ suc k % 2 ≡ 0 = omega (arith, pow-suc 2 k) in
    bit_and_step x (2 ^ suc k)
    ∙ rw (halved, even, bit_and-single k (x / 2))
        (scaled (x % 2) (bit (x / 2) k) (2 ^ k) (2 ^ suc k) (bit-lt k (x / 2))
          (omega (arith, pow-suc 2 k)))

of_bool-test : (k x : ℕ) → of_bool (bit_and x (2 ^ k) != 0) ≡ bit x k
of_bool-test k x =
    rw (bit_and-single k x)
      (of_bool-scaled (bit x k) (2 ^ k) (bit-lt k x) (omega (arith, one-le-pow k 2 (omega arith))))

bit-power : (k : ℕ) → bit (2 ^ k) k ≡ 1
bit-power zero = refl
bit-power (suc k) =
    let halved : 2 ^ suc k / 2 ≡ 2 ^ k = omega (arith, pow-suc 2 k) in rw halved (bit-power k)

bit_zero : (k : ℕ) → bit 0 k ≡ 0
bit_zero zero = refl
bit_zero (suc k) = bit_zero k

bit-assign : (k x : ℕ) (b : Bool) → k < 64 → 2 ^ k < 2 ^ 64 → bit (assign x (2 ^ k) b) k ≡ of_bool b
bit-assign k x true l m = omega (
  arith,
  bit-or k (bit_and x (inv 64 (2 ^ k))) (2 ^ k),
  bit-and k x (inv 64 (2 ^ k)),
  bit-power k,
  bit-inv 64 k (2 ^ k) m l,
)
bit-assign k x false l m = omega (
  arith,
  bit-or k (bit_and x (inv 64 (2 ^ k))) 0,
  bit-and k x (inv 64 (2 ^ k)),
  bit-power k,
  bit-inv 64 k (2 ^ k) m l,
  bit_zero k,
)

mode_kept : (mode : ℕ) → mode < 4 → bit_and (shl 64 mode 11) mstatus_mpp ≡ shl 64 mode 11
mode_kept zero l = refl
mode_kept (suc zero) l = refl
mode_kept (suc (suc zero)) l = refl
mode_kept (suc (suc (suc zero))) l = refl
mode_kept (suc (suc (suc (suc m)))) l = absurd (omega (arith, l))

-- MPP keeps the mode.
mpp-enter_m_status :
    (mode status : ℕ) → mode < 4 → bit_and (enter_m_status mode status) mstatus_mpp ≡ mode * 2048
unfolding enter_m_status merge
mpp-enter_m_status mode status l =
    let previous = assign status mstatus_mpie (bit_and status mstatus_mie != 0) in
    let masked = bit_and previous (inv 64 mstatus_mie) in
    let kept = mode_kept mode l in
    let bound : masked < 2 ^ 64 =
      omega (arith, bit_and-le_right _ previous (inv 64 mstatus_mie) (le_refl _)) in
    ap (λ v. bit_and (bit_or (bit_and masked (inv 64 mstatus_mpp)) v) mstatus_mpp) (sym kept)
    ∙ merge-inside masked mstatus_mpp (shl 64 mode 11) bound (omega arith) (omega arith)
    ∙ kept
    ∙ omega arith

-- MPIE keeps MIE, and the return puts it back.
mpie-enter_m_status :
    (mode status : ℕ) → mode < 4 → bit (enter_m_status mode status) 7 ≡ bit status 3
unfolding enter_m_status
mpie-enter_m_status mode status l =
    let flag = bit_and status mstatus_mie != 0 in
    let previous = assign status mstatus_mpie flag in
    let masked = bit_and previous (inv 64 mstatus_mie) in
    omega (
      arith,
      bit-or 7 (bit_and masked (inv 64 mstatus_mpp)) (shl 64 mode 11),
      bit-and 7 masked (inv 64 mstatus_mpp),
      bit-and 7 previous (inv 64 mstatus_mie),
      bit-assign 7 status flag (omega arith) (omega arith),
      of_bool-test 3 status,
    )

mie-mret_status : (status : ℕ) → bit (mret_status status) 3 ≡ bit status 7
unfolding mret_status
mie-mret_status status =
    let flag = bit_and status mstatus_mpie != 0 in
    let enabled = assign status mstatus_mie flag in
    omega (
      arith,
      bit-and 3 (bit_or enabled mstatus_mpie) (inv 64 mstatus_mpp),
      bit-or 3 enabled mstatus_mpie,
      bit-assign 3 status flag (omega arith) (omega arith),
      of_bool-test 7 status,
    )

-- S-mode: SPP keeps the mode, SPIE keeps SIE.
spp-enter_s_status :
    (mode status : ℕ) → mode < 2 → bit_and (enter_s_status mode status) mstatus_spp ≡ mode * 256
unfolding enter_s_status
spp-enter_s_status mode status l =
    let previous = assign status mstatus_spie (bit_and status mstatus_sie != 0) in
    let masked = bit_and previous (inv 64 mstatus_sie) in
    let seen = bit-assign 8 masked (mode == priv_s) (omega arith) (omega arith) in
    let same : of_bool (mode == priv_s) ≡ mode = ground arith in
    bit_and-single 8 (enter_s_status mode status) ∙ ap (λ b. b * 256) (seen ∙ same)

spie-enter_s_status : (mode status : ℕ) → bit (enter_s_status mode status) 5 ≡ bit status 1
unfolding enter_s_status
spie-enter_s_status mode status =
    let flag = bit_and status mstatus_sie != 0 in
    let previous = assign status mstatus_spie flag in
    let masked = bit_and previous (inv 64 mstatus_sie) in
    omega (
      arith,
      bit-or 5 (bit_and masked (inv 64 mstatus_spp)) (if mode == priv_s then mstatus_spp else 0),
      bit-and 5 masked (inv 64 mstatus_spp),
      bit-and 5 previous (inv 64 mstatus_sie),
      bit-assign 5 status flag (omega arith) (omega arith),
      of_bool-test 1 status,
      clear (mode == priv_s),
    )
  where
    clear : (b : Bool) → bit (if b then mstatus_spp else 0) 5 ≡ 0
    clear true = refl
    clear false = refl

sie-sret_status : (status : ℕ) → bit (sret_status status) 1 ≡ bit status 5
unfolding sret_status
sie-sret_status status =
    let flag = bit_and status mstatus_spie != 0 in
    let enabled = assign status mstatus_sie flag in
    omega (
      arith,
      bit-and 1 (bit_or enabled mstatus_spie) (inv 64 mstatus_spp),
      bit-or 1 enabled mstatus_spie,
      bit-assign 1 status flag (omega arith) (omega arith),
      of_bool-test 5 status,
    )

-- After a trap that is not delegated, from a mode below 4, mret returns to the program counter
-- of the trap, to the mode before it, and to the MIE bit before it.
pub mret-raise_trap :
    (cause tval : ℕ) (is_interrupt : Bool) (h : Hart)
    → h.cpu.mode < 4
    → delegated is_interrupt cause h.cpu ≡ false
    → let back = mret (record h { cpu = (raise_trap cause is_interrupt tval h.cpu).1 }) in
      (back.0 ≡ ok h.cpu.pc)
      × (back.1.cpu.mode ≡ h.cpu.mode)
      × (bit_and (get back.1.cpu.csrs mstatus) mstatus_mie
          ≡ bit_and (get h.cpu.csrs mstatus) mstatus_mie)
unfolding mret raise_trap get insert
mret-raise_trap cause tval is_interrupt h l d =
    let status = h.cpu.csrs mstatus in
    let mpp = mpp-enter_m_status h.cpu.mode status l in
    let mie =
      mie-mret_status (enter_m_status h.cpu.mode status)
      ∙ mpie-enter_m_status h.cpu.mode status l in
    (
      rw d refl,
      rw (d, mpp) (omega (arith, l)),
      rw d (
          bit_and-single 3 (mret_status (enter_m_status h.cpu.mode status))
          ∙ ap (λ b. b * 8) mie
          ∙ sym (bit_and-single 3 status)),
    )

-- After a delegated trap, from U-mode or S-mode, sret returns to the program counter of the
-- trap, to the mode before it, and to the SIE bit before it.
pub sret-raise_trap :
    (cause tval : ℕ) (is_interrupt : Bool) (h : Hart)
    → h.cpu.mode < 2
    → delegated is_interrupt cause h.cpu ≡ true
    → let back = sret (record h { cpu = (raise_trap cause is_interrupt tval h.cpu).1 }) in
      (back.0 ≡ ok h.cpu.pc)
      × (back.1.cpu.mode ≡ h.cpu.mode)
      × (bit_and (get back.1.cpu.csrs mstatus) mstatus_sie
          ≡ bit_and (get h.cpu.csrs mstatus) mstatus_sie)
unfolding sret raise_trap get insert
sret-raise_trap cause tval is_interrupt h l d =
    let status = h.cpu.csrs mstatus in
    let spp = spp-enter_s_status h.cpu.mode status l in
    let sie =
      sie-sret_status (enter_s_status h.cpu.mode status) ∙ spie-enter_s_status h.cpu.mode status in
    (
      rw d refl,
      rw (d, spp) (omega (arith, l)),
      rw d (
          bit_and-single 1 (sret_status (enter_s_status h.cpu.mode status))
          ∙ ap (λ b. b * 2) sie
          ∙ sym (bit_and-single 1 status)),
    )
