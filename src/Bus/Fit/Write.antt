-- ===== src/Bus/Fit/Write.antt =====
-- How a write of rv64rs/src/bus.rs with the disk behind it ends over a fit bus.
use riscvm.Base.{ℕ, ◌≡◌, refl, sym, ap, ◌∙◌, Bool, true, false, M, panic, if◌then◌else◌, Outcome}
use riscvm.Base.Keeps.{ending, Keeps}
use riscvm.Bus.State.{Bus}
use riscvm.Bus.Write.{write, borrowing, set_borrowed}
use riscvm.Bus.Fit.{Shape, IsFit, Fit}
use riscvm.Bus.Fit.Access.{write_with-Fit}
use riscvm.Bus.Fit.Queue as Queue

module _ (s : Shape) where
  abbrev lent : Shape
  lent = record s { borrowed = true }

  -- The cell is borrowed for the call only, so what is kept with the cell borrowed is kept.
  borrowing-Fit : (m : M Bus (Unit {0})) → Keeps (Fit lent) m → Keeps (Fit s) (borrowing m)
  unfolding borrowing
  borrowing-Fit m k = record {
    keeps = λ b (t, f).
        either b.cells.virtio_borrowed (panic, b) _ refl (refl, f)
          (λ e. returned_to b e f (k.keeps (set_borrowed true b) (refl, taken b f)));
  }
    where
      either :
          (t : Bool) (x y : Outcome (Unit {0}) × Bus) {u : Bool}
          → u ≡ t
          → Fit s (ending x.0) x.1
          → (u ≡ false → Fit s (ending y.0) y.1)
          → Fit s (ending (if t then x else y).0) (if t then x else y).1
      either true x y e p q = p
      either false x y e p q = q e

      taken : (b : Bus) → IsFit s b → IsFit lent (set_borrowed true b)
      taken b f = record {
        same = ap (λ (x : Shape). record x { borrowed = true }) f.same;
        wired = f.wired;
        indices = f.indices;
      }

      returned_to :
          (b : Bus)
          → b.cells.virtio_borrowed ≡ false
          → IsFit s b
          → Fit lent (ending (m (set_borrowed true b)).0) (m (set_borrowed true b)).1
          → Fit s
              (ending (m (set_borrowed true b)).0)
              (set_borrowed false (m (set_borrowed true b)).1)
      returned_to b e f (t, g) = (
        t,
        record {
          same =
              ap (λ (x : Shape). record x { borrowed = false }) g.same
              ∙ ap (λ (x : Bool). record s { borrowed = x })
                  (sym e ∙ ap (λ (x : Shape). x.borrowed) f.same);
          wired = g.wired;
          indices = g.indices;
        },
      )

  pub write-Fit : (a n v : ℕ) → Keeps (Fit s) (write a n v)
  unfolding write
  write-Fit = write_with-Fit s _ (λ o n v. borrowing-Fit _ (Queue.write-Fit lent o n v))
