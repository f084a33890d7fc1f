-- ===== src/Queue/States/Chains.antt =====
-- The life of a job: its transitions come to an end.
use common_build.Common.{ℕ, ◌+◌, ◌≤◌, ◌≡◌, ◌↔◌, true, List, [], ◌∷◌, length, arith}
use common_build.Common.Text.{◌==◌}
use common_build.Queue.States.{
  State, queued, starting, started, text_of, is_state_terminal, is_transition_valid,
}

-- How far a job has come: waiting, being started, running, ended.
abbrev pub phase : State → ℕ
phase queued = 0
phase starting = 1
phase started = 2
phase _ = 3

-- The states of the list follow one another by valid transitions.
abbrev pub IsChain : State → List State → Type 0
IsChain s [] = Unit
IsChain s (t ∷ ts) = (is_transition_valid s t ≡ true) × IsChain t ts

pub valid-phase : (s t : State) → is_transition_valid s t ≡ true → phase s + 1 ≤ phase t
unfolding is_transition_valid text_of ◌==◌
valid-phase queued t h = ground arith
valid-phase starting t h = ground arith
valid-phase started t h = ground arith
valid-phase _ t h = cc

pub phase-le : (s : State) → phase s ≤ 3
phase-le s = ground arith

length-phase : (s : State) (ts : List State) → IsChain s ts → length ts + phase s ≤ 3
length-phase s [] c = omega (arith, phase-le s)
length-phase s (t ∷ ts) (v, c) = omega (arith, length-phase t ts c, valid-phase s t v)

-- Every transition leads to a later phase, so a job makes at most three of them; and the terminal
-- states are exactly those of the last phase.
pub IsChain-length :
    (s : State) (ts : List State)
    → IsChain s ts
    → (length ts + phase s ≤ 3) × ((is_state_terminal s ≡ true) ↔ (phase s ≡ 3))
unfolding is_state_terminal
IsChain-length s ts c = (length-phase s ts c, ground arith)
