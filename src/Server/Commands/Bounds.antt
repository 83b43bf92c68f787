-- ===== src/Server/Commands/Bounds.antt =====
-- The rule for the indices that the commands of nimbis/src/cmd use are in the range of their arguments, if the number of
-- the arguments passed `validate_arity` of cmd/mod.rs.
pub mod Simple
pub mod Collections
pub mod Scored
pub mod Whole
use nimbis.Prelude.{
  ℕ, zero, suc, ◌+◌, ◌-◌, ◌≤◌, ◌≡◌, ◌≢◌, refl, sym, codes, true, ◌||◌, Bytes, List, [], ◌∷◌, arith,
  length, Option, none, some, Result, ok, err, inl, inr, Bool-cases, subst,
}
use nimbis.Prelude.Int.{ℤ, pos, negsuc}
use nimbis.Resp.External.{External, bytes_capacity}
use nimbis.Storage.BytesEq.{eq_of_same_bytes}
use nimbis.Storage.Lists.{count_or_one}
use nimbis.Server.Commands.Lists.{read_count}
use nimbis.Storage.Database.{Db}
use nimbis.Server.Platform.{Texts, is_text}
use nimbis.Server.Commands.{
  Cmd, CmdContext, Task, Shared, execute, validate_arity, run_checked, find_cmd,
}

-- The number of arguments that the arity asks for, behind the name of the command.
abbrev pub required : ℤ → ℕ
required (pos n) = n - 1
required (negsuc n) = n

module _ {D E : Type 0} {db : Db D E} where
  abbrev pub IsSafe : Cmd db → Type 0
  IsSafe c =
      (args : List Bytes) (ctx : CmdContext) (s : Shared db)
      → required c.cmd_meta.arity ≤ length args
      → c.do_cmd args ctx s ≢ none

  -- The same for arguments that satisfy `P`.
  abbrev pub IsSafeIf : (List Bytes → Type 0) → Cmd db → Type 0
  IsSafeIf P c =
      (args : List Bytes) (ctx : CmdContext) (s : Shared db)
      → required c.cmd_meta.arity ≤ length args
      → P args
      → c.do_cmd args ctx s ≢ none

  -- What `P` asks of the arguments depends on the name of the command.
  infixr 20 ◌&◌ ◌&?◌
  pub data AreSafe (P : Bytes → List Bytes → Type 0) : List (Bytes × Cmd db) → Type 0 where
    all_safe : AreSafe P []
    ◌&◌ :
        {name : Bytes} {c : Cmd db} {cs : List (Bytes × Cmd db)}
        → IsSafe c
        → AreSafe P cs
        → AreSafe P ((name, c) ∷ cs)
    ◌&?◌ :
        {name : Bytes} {c : Cmd db} {cs : List (Bytes × Cmd db)}
        → IsSafeIf (P name) c
        → AreSafe P cs
        → AreSafe P ((name, c) ∷ cs)

abbrev pub NothingAsked : Bytes → List Bytes → Type 0
NothingAsked name args = Unit

abbrev pub asked_of : Result Bytes (Option ℕ) → ℕ
asked_of (ok n) = count_or_one n
asked_of (err e) = 0

-- How many elements LPOP and RPOP are asked for.
abbrev pub asked_count : List Bytes → ℕ
asked_count (key ∷ count ∷ more) = asked_of (read_count count)
asked_count _ = 1

-- A vector has room for as many elements as LPOP or RPOP is asked for.
abbrev pub PopHasRoom : ⦃x : External⦄ → Bytes → List Bytes → Type 0
PopHasRoom ⦃x⦄ name args =
    (is_text name (codes "LPOP") || is_text name (codes "RPOP")) ≡ true
    → x.has_room bytes_capacity (asked_count args) ≡ true

module _ {D E : Type 0} {db : Db D E} ⦃t : Texts⦄ where
  checked-IsSafe :
      (c : Cmd db) (P : List Bytes → Type 0) (args : List Bytes) (ctx : CmdContext) (s : Shared db)
      → IsSafeIf P c
      → P args
      → (r : Result Bytes (Unit {0})) → validate_arity c.cmd_meta (length args + 1) ≡ r
      → run_checked c args ctx r s ≢ none
  unfolding validate_arity
  checked-IsSafe c P args ctx s h p (err e) k = cc
  checked-IsSafe c P args ctx s h p (ok u) k = h args ctx s (ground arith) p

  pub execute-IsSafe :
      (c : Cmd db) (P : List Bytes → Type 0) (args : List Bytes) (ctx : CmdContext) (s : Shared db)
      → IsSafeIf P c
      → P args
      → execute c args ctx s ≢ none
  unfolding execute
  execute-IsSafe c P args ctx s h p = checked-IsSafe c P args ctx s h p _ refl

  pub one_required :
      (c : Cmd db)
      → required c.cmd_meta.arity ≡ 1
      → ((a : Bytes) (args : List Bytes) (ctx : CmdContext) (s : Shared db)
          → c.do_cmd (a ∷ args) ctx s ≢ none)
      → IsSafe c
  one_required c e h [] ctx s n = absurd (omega arith)
  one_required c e h (a ∷ args) ctx s n = h a args ctx s

  pub two_required :
      (c : Cmd db)
      → required c.cmd_meta.arity ≡ 2
      → ((a b : Bytes) (args : List Bytes) (ctx : CmdContext) (s : Shared db)
          → c.do_cmd (a ∷ b ∷ args) ctx s ≢ none)
      → IsSafe c
  two_required c e h [] ctx s n = absurd (omega arith)
  two_required c e h (a ∷ []) ctx s n = absurd (omega arith)
  two_required c e h (a ∷ b ∷ args) ctx s n = h a b args ctx s

  pub three_required :
      (c : Cmd db)
      → required c.cmd_meta.arity ≡ 3
      → ((a b d : Bytes) (args : List Bytes) (ctx : CmdContext) (s : Shared db)
          → c.do_cmd (a ∷ b ∷ d ∷ args) ctx s ≢ none)
      → IsSafe c
  three_required c e h [] ctx s n = absurd (omega arith)
  three_required c e h (a ∷ []) ctx s n = absurd (omega arith)
  three_required c e h (a ∷ b ∷ []) ctx s n = absurd (omega arith)
  three_required c e h (a ∷ b ∷ d ∷ args) ctx s n = h a b d args ctx s

  pub find_cmd-IsSafe :
      (P : Bytes → List Bytes → Type 0) (name : Bytes) (cs : List (Bytes × Cmd db)) (c : Cmd db)
      → AreSafe P cs
      → find_cmd name cs ≡ some c
      → IsSafeIf (P name) c
  find_cmd-IsSafe P name [] c h e = cc
  find_cmd-IsSafe P name ((key, b) ∷ cs) c (safe & rest) e = elim (Bool-cases (is_text name key)) [
    | inl p ↦
        let same : b ≡ c = cc (rw p at e) in
        subst (IsSafeIf (P name)) same (λ args ctx s n _. safe args ctx s n)
    | inr p ↦ find_cmd-IsSafe P name cs c rest (rw p at e)
  ]
  find_cmd-IsSafe P name ((key, b) ∷ cs) c (safe &? rest) e = elim (Bool-cases (is_text name key)) [
    | inl p ↦
        let same : b ≡ c = cc (rw p at e) in
        let safe' = subst (λ k. IsSafeIf (P k) b) (sym (eq_of_same_bytes name key p)) safe in
        subst (IsSafeIf (P name)) same safe'
    | inr p ↦ find_cmd-IsSafe P name cs c rest (rw p at e)
  ]
