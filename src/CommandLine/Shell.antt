-- ===== src/CommandLine/Shell.antt =====
-- The loop of `xv6-time-to-shell` in rv64rs/src/main.rs, and an independent account of its steps, of
-- the prompt and of the counts.
use riscvm.Base.{ℕ, zero, suc, ◌+◌, ◌/◌, ◌%◌, ◌^◌, ◌<◌, ◌≡◌, ◌⊎◌}
use riscvm.Base.{if◌then◌else◌, ◌==◌}
use riscvm.Base.{List, [], ◌∷◌, ◌++◌, Outcome, ok, err, panic, timeout}
use riscvm.Cpu.State.{Hart, get, satp}
use riscvm.Cpu.Step.{step}
use riscvm.CommandLine.Run.{ShellEnd, reached_prompt, stopped_early, gave_up}
use riscvm.CommandLine.Run.{sent}

-- The hart after n steps.
abbrev pub state : ℕ → Hart → Hart
state zero start = start
state (suc n) start = (step (state n start)).1

-- How step n, from 0, ends.
abbrev pub out : ℕ → Hart → Outcome (Unit {0})
out n start = (step (state n start)).0

-- How many of the first n steps begin with paging off: MODE, the top 4 bits of satp, is not 8.
abbrev pub bare_in : ℕ → Hart → ℕ
bare_in zero start = 0
bare_in (suc n) start =
    bare_in n start + (if get (state n start).cpu.csrs satp / 2 ^ 60 == 8 then 0 else 1)

-- The output ends in a dollar sign and a space, and the count is one at which the loop looks.
abbrev pub HasPrompt : ℕ → Hart → Type 0
HasPrompt count h =
    (count % 4096 ≡ 0) × ((before : List ℕ) × (sent h.bus ≡ before ++ (36 ∷ 32 ∷ [])))

-- The first n steps succeed, none of them brings the prompt or the limit.
abbrev pub Comes : ℕ → ℕ → Hart → ℕ → Type 0
Comes limit count start zero = (limit ≡ 0) ⊎ (count < limit)
Comes limit count start (suc n) =
    Comes limit count start n
    × (out n start ≡ ok tt)
    × (HasPrompt (count + suc n) (state (suc n) start) → ⊥)
    × ((limit ≡ 0) ⊎ (count + suc n < limit))

-- What the end of the loop says of the steps.
abbrev pub IsReport : (fuel limit count bare_count : ℕ) → Hart → Outcome ShellEnd × Hart → Type 0
IsReport fuel limit count bare_count start (ok (reached_prompt c b), h) =
    (n : ℕ) × Comes limit count start n
    × (out n start ≡ ok tt)
    × (h ≡ state (suc n) start)
    × (c ≡ count + suc n)
    × (b ≡ bare_count + bare_in (suc n) start)
    × HasPrompt c h
IsReport fuel limit count bare_count start (ok (stopped_early c error), h) =
    (n : ℕ) × Comes limit count start n
    × (out n start ≡ err error)
    × (h ≡ state (suc n) start)
    × (c ≡ count + n)
IsReport fuel limit count bare_count start (ok gave_up, h) =
    (n : ℕ) × Comes limit count start n
    × (out n start ≡ ok tt)
    × (h ≡ state (suc n) start)
    × (HasPrompt limit h → ⊥)
    × (count + suc n ≡ limit)
IsReport fuel limit count bare_count start (err error, h) = ⊥
IsReport fuel limit count bare_count start (panic, h) =
    (n : ℕ) × Comes limit count start n × (out n start ≡ panic)
IsReport fuel limit count bare_count start (timeout, h) =
    ((n : ℕ) × Comes limit count start n × (out n start ≡ timeout)) ⊎ Comes limit count start fuel
