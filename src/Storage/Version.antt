-- ===== src/Storage/Version.antt =====
-- nimbis-storage/src/version.rs: versions from a clock of seconds and an atomic counter.
use nimbis.Prelude.{
  ℕ, suc, ◌+◌, ◌%◌, ◌^◌, ◌<◌, ◌≡◌, List, [], ◌∷◌, Option, none, some, arith, All, ltb, ◌==◌,
  if◌then◌else◌, Bool-cases, inl, inr, ltb→lt,
}

-- The successor of `last` at the time `now`, in `u64`.
unfoldable pub next_version : ℕ → ℕ → ℕ
next_version now last = if ltb last now then now else (last + 1) % 2 ^ 64

-- One turn of the loop of `next`: what the caller read from the clock and from the counter, and the
-- `compare_exchange`. The counter may have moved since it was read: then nothing is returned.
unfoldable pub attempt : ℕ → ℕ → ℕ → ℕ × Option ℕ
attempt now last counter =
    if counter == last
    then (next_version now last, some (next_version now last))
    else (counter, none)

-- Turns of any number of threads in the order of their `compare_exchange`, each with its reading of the
-- clock and of the counter: what they return, and the counter at the end.
abbrev pub record_turn : ℕ × Option ℕ → (ℕ → List ℕ × ℕ) → List ℕ × ℕ
record_turn (counter, none) rest = rest counter
record_turn (counter, some v) rest = let (vs, end) = rest counter in (v ∷ vs, end)

unfoldable pub run_turns : List (ℕ × ℕ) → ℕ → List ℕ × ℕ
run_turns [] counter = ([], counter)
run_turns ((now, last) ∷ turns) counter =
    record_turn (attempt now last counter) (λ c. run_turns turns c)

abbrev pub versions : List ℕ × ℕ → List ℕ
versions (vs, end) = vs

abbrev pub length_turns : List (ℕ × ℕ) → ℕ
length_turns [] = 0
length_turns (t ∷ ts) = suc (length_turns ts)

-- Each is greater than the one before, and the first greater than `low`.
abbrev pub Ascends : ℕ → List ℕ → Type 0
Ascends low [] = Unit
Ascends low (v ∷ vs) = (low < v) × Ascends v vs

abbrev pub ClockBelow : ℕ → ℕ × ℕ → Type 0
ClockBelow n (now, last) = now < n

next_version_lem :
    (now last n : ℕ)
    → now < 2 ^ 63
    → last + suc n < 2 ^ 64
    → n < 2 ^ 63
    → (last < next_version now last) × (next_version now last + n < 2 ^ 64)
unfolding next_version
next_version_lem now last n h k l = elim (Bool-cases (ltb last now)) [
  | inl e ↦ rw e (ltb→lt _ _ e, omega arith)
  | inr e ↦ rw e (omega arith, omega arith)
]

-- Whatever the turns of the threads, the versions that they get are in strictly ascending order, and
-- all above the counter at the start: no version is given out twice. The clock is below 2^63, and there
-- is room for a version for each turn.
pub run_turns-Ascends :
    (turns : List (ℕ × ℕ)) (counter : ℕ)
    → All (ClockBelow (2 ^ 63)) turns
    → counter + length_turns turns < 2 ^ 64
    → length_turns turns < 2 ^ 63
    → Ascends counter (versions (run_turns turns counter))
unfolding run_turns attempt
run_turns-Ascends [] counter a h k = tt
run_turns-Ascends ((now, last) ∷ turns) counter (c, a) h k = elim (Bool-cases (counter == last)) [
  | inl e ↦
      let same : counter ≡ last = ground arith in
      let (lt, room) =
        next_version_lem now last (length_turns turns) c (rw same at h) (omega arith) in
      rw (e, run_turns)
        (rw same (lt, run_turns-Ascends turns (next_version now last) a room (omega arith)))
  | inr e ↦ rw (e, run_turns) (run_turns-Ascends turns counter a (omega arith) (omega arith))
]
