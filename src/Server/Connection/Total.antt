-- ===== src/Server/Connection/Total.antt =====
-- The loop of `ClientConnection::run` (nimbis/src/client.rs) over any reads needs no more rounds than the model
-- has, and no index of a command is out of range.
use nimbis.Prelude.{
  ℕ, zero, suc, ◌<◌, ◌≡◌, ◌≢◌, refl, Bytes, List, [], ◌∷◌, ◌++◌, arith, length, Option, none, some,
  Result, ok, err,
}
use nimbis.Resp.External.{External}
use nimbis.Resp.Parser.{parse, Outcome, complete, needs_more, error}
use nimbis.Resp.Parser.Frames.{Frame}
use nimbis.Resp.Parser.Resume.{parse_total}
use nimbis.Resp.Parser.Advance.{parse_advances}
use nimbis.Storage.Database.{Db}
use nimbis.Storage.Zsets.{MapOrder}
use nimbis.Server.Platform.{Texts, DatabaseTexts}
use nimbis.Server.Config.{Support}
use nimbis.Server.Commands.{Cmd, CmdContext, Shared, ParsedCmd, try_from}
use nimbis.Server.Commands.Table.{get_cmd}
use nimbis.Server.Commands.Bounds.{execute-IsSafe, PopHasRoom}
use nimbis.Server.Commands.Bounds.Whole.{get_cmd-IsSafe}
use nimbis.Server.Connection.{
  Gathered, gather, gather_value, gather_next, Progress, run_out, execute_command, run_found,
}

value_round :
    (loop : List ParsedCmd → Option Gathered) (cs : List ParsedCmd)
    → ((cs' : List ParsedCmd) → loop cs' ≢ none)
    → (r : Result Bytes ParsedCmd) → gather_value loop cs r ≢ none
value_round loop cs h (ok cmd) = h (cs ++ cmd ∷ [])
value_round loop cs h (err e) = cc

module _ ⦃x : External⦄ ⦃t : Texts⦄ where
  gather_round :
      (f : ℕ) (cs : List ParsedCmd) (frames : List Frame) (buffer : Bytes)
      → ((cs' : List ParsedCmd) (frames' : List Frame) (rest : Bytes)
          → length rest < length buffer
          → gather f cs' frames' rest ≢ none)
      → (r : Outcome) → parse frames buffer ≡ r
      → gather_next (gather f) cs r ≢ none
  gather_round f cs frames buffer ih none e = absurd (parse_total frames buffer e)
  gather_round f cs frames buffer ih (some (needs_more, frames', rest)) e = cc
  gather_round f cs frames buffer ih (some (error w, frames', rest)) e = cc
  gather_round f cs frames buffer ih (some (complete v, frames', rest)) e =
      value_round (λ cs'. gather f cs' frames' rest) cs
        (λ cs'. ih cs' frames' rest (parse_advances frames frames' buffer rest v e)) (try_from v)

  -- More rounds than bytes are enough to find the commands in a buffer.
  pub gather_total :
      (f : ℕ) (cs : List ParsedCmd) (frames : List Frame) (buffer : Bytes)
      → length buffer < f
      → gather f cs frames buffer ≢ none
  unfolding gather
  gather_total zero cs frames buffer h = absurd (omega arith)
  gather_total (suc f) cs frames buffer h =
      gather_round f cs frames buffer
        (λ cs' frames' rest k. gather_total f cs' frames' rest (omega arith)) (parse frames buffer)
        refl

-- The connection waits for input, or its task has ended.
abbrev pub Proceeds : {D E : Type 0} {db : Db D E} → Progress db → Type 0
Proceeds run_out = ⊥
Proceeds _ = Unit

module _ {D E : Type 0} {db : Db D E} where
  module _ ⦃t : Texts⦄ ⦃d : DatabaseTexts E⦄ ⦃x : External⦄ ⦃o : MapOrder⦄ ⦃u : Support⦄
      (ctx : CmdContext) where
    found_runs :
        (c : ParsedCmd) (s : Shared db) (cmd : Option (Cmd db))
        → get_cmd c.name ≡ cmd
        → PopHasRoom c.name c.args
        → run_found ctx c cmd s ≢ none
    found_runs c s none e room = cc
    found_runs c s (some cmd) e room =
        execute-IsSafe cmd (PopHasRoom c.name) c.args ctx s (get_cmd-IsSafe c.name cmd e) room

    -- A command with any name and any arguments is answered: no index is out of range. For LPOP and RPOP
    -- there is room for a vector of as many elements as they are asked for: otherwise they may panic.
    pub execute_command_total :
        (c : ParsedCmd) (s : Shared db) → PopHasRoom c.name c.args → execute_command ctx c s ≢ none
    unfolding execute_command
    execute_command_total c s room = found_runs c s (get_cmd c.name) refl room
