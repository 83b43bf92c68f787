-- ===== src/Server/Connection.antt =====
-- nimbis/src/client.rs, `ClientConnection`: reads, the commands in them, and the replies. The sampling of
-- traces changes nothing that a client sees.
pub mod Total
pub mod Pipeline
use nimbis.Prelude.{
  ℕ, zero, suc, ◌+◌, ◌≡◌, Bool, true, false, Bytes, List, [], ◌∷◌, ◌++◌, codes, length,
  if◌then◌else◌, Option, none, some, Result, ok, err,
}
use nimbis.Resp.Types.{RespValue, ParseError, capacity_overflow}
use nimbis.Resp.External.{External}
use nimbis.Resp.Encode.{encode}
use nimbis.Resp.Parser.{parse, RespParseResult, complete, needs_more, error}
use nimbis.Resp.Parser.Frames.{Frame}
use nimbis.Storage.Database.{Db}
use nimbis.Storage.Zsets.{MapOrder}
use nimbis.Server.Platform.{Texts, DatabaseTexts}
use nimbis.Server.Config.{Support}
use nimbis.Server.Commands.{
  Cmd, CmdContext, Task, Shared, ParsedCmd, give, reply_error, execute, try_from,
}
use nimbis.Server.Commands.Table.{get_cmd}

-- A read from the socket: bytes, none of them at the end of the input, or an error.
pub data ReadResult : Type 0 where
  read_bytes : Bytes → ReadResult
  read_reset read_error : ReadResult

-- The outcome of a `write_all`.
pub data WriteResult : Type 0 where
  write_done write_reset write_error : WriteResult

-- What was written to the socket so far, and the outcomes of the writes, by their number.
pub record Socket : Type 0 where
  pub sent : Bytes
  pub writes : ℕ
  pub outcome : ℕ → WriteResult

-- How `run` ends: `closed` is `Ok(())`, the others are errors.
pub data Ended : Type 0 where
  closed read_failed write_failed closed_with_incomplete_data : Ended
  invalid_command : Bytes → Ended
  protocol_error : ParseError → Ended

-- `write_all`: what is written shows up at the other side only if it succeeds.
abbrev pub written : WriteResult → Bytes → Socket → Socket
written write_done b k = record k { sent = k.sent ++ b; writes = suc k.writes }
written _ b k = record k { writes = suc k.writes }

abbrev pub write_all : Bytes → Socket → WriteResult × Socket
write_all b k = (k.outcome k.writes, written (k.outcome k.writes) b k)

-- The inner loop over the values in the buffer. A value that is no command, and an error of the parser, end
-- the connection; the commands before them in the buffer are lost.
pub data Gathered : Type 0 where
  commands : List ParsedCmd → List Frame → Bytes → Gathered
  not_a_command : Bytes → Gathered
  not_a_value : ParseError → Gathered

abbrev pub gather_value :
    (List ParsedCmd → Option Gathered) → List ParsedCmd → Result Bytes ParsedCmd → Option Gathered
gather_value loop parsed_cmds (ok cmd) = loop (parsed_cmds ++ cmd ∷ [])
gather_value loop parsed_cmds (err e) = some (not_a_command e)

module _ ⦃x : External⦄ ⦃t : Texts⦄ where
  abbrev pub gather_next :
      (List ParsedCmd → List Frame → Bytes → Option Gathered)
      → List ParsedCmd
      → Option (RespParseResult × List Frame × Bytes)
      → Option Gathered
  gather_next loop parsed_cmds none = none
  gather_next loop parsed_cmds (some (complete v, frames, rest)) =
      gather_value (λ cmds. loop cmds frames rest) parsed_cmds (try_from v)
  gather_next loop parsed_cmds (some (needs_more, frames, rest)) =
      some (commands parsed_cmds frames rest)
  gather_next loop parsed_cmds (some (error e, frames, rest)) = some (not_a_value e)

  unfoldable pub gather : ℕ → List ParsedCmd → List Frame → Bytes → Option Gathered
  unfolding parse try_from
  gather zero parsed_cmds frames buffer = none
  gather (suc fuel) parsed_cmds frames buffer =
      gather_next (gather fuel) parsed_cmds (parse frames buffer)

-- A connection between two rounds of `run`. `panicked` is a panic, which ends the task: of `with_capacity`, or
-- of an index out of range. `run_out` has no counterpart: the model has no more rounds.
pub data Progress {D E : Type 0} (db : Db D E) : Type 0 where
  waiting : List Frame → Bytes → Shared db → Socket → Progress db
  ended : Ended → Shared db → Socket → Progress db
  panicked run_out : Progress db

abbrev pub protocol_reply : Bytes → RespValue
protocol_reply e = reply_error (codes "ERR Protocol error: " ++ e)

module _ {D E : Type 0} {db : Db D E} where
  -- After the write of the reply to a value that is no command: an error of the write comes first.
  abbrev pub end_with : Ended → Shared db → WriteResult × Socket → Progress db
  end_with e s (write_done, k) = ended e s k
  end_with e s (w, k) = ended write_failed s k

  -- After the write of the reply to an error of the parser: a reset of the connection is passed over.
  abbrev pub end_unless_error : Ended → Shared db → WriteResult × Socket → Progress db
  end_unless_error e s (write_error, k) = ended write_failed s k
  end_unless_error e s (w, k) = ended e s k

  -- The end of the input.
  abbrev pub at_end : Bytes → Shared db → Socket → Progress db
  at_end [] s k = ended closed s k
  at_end (c ∷ b) s k = ended closed_with_incomplete_data s k

  module _ ⦃t : Texts⦄ ⦃d : DatabaseTexts E⦄ ⦃x : External⦄ ⦃o : MapOrder⦄ ⦃u : Support⦄
      (ctx : CmdContext) where
    abbrev pub run_found : ParsedCmd → Option (Cmd db) → Task db RespValue
    run_found c none =
        give (reply_error (codes "ERR unknown command '" ++ (t.to_lowercase c.name ++ codes "'")))
    run_found c (some cmd) = execute cmd c.args ctx

    -- `execute_command_inner`: the check of the arity is that of `Cmd::execute`.
    unfoldable pub execute_command : ParsedCmd → Task db RespValue
    unfolding execute get_cmd
    execute_command c = run_found c (get_cmd c.name)

    -- The loop over the commands: after a command, `next` goes on if the reply was written.
    abbrev pub answered :
        (Shared db → Socket → Progress db) → Shared db → WriteResult × Socket → Progress db
    answered next s (write_done, k) = next s k
    answered next s (write_reset, k) = ended closed s k
    answered next s (write_error, k) = ended write_failed s k

    abbrev pub answer :
        (Shared db → Socket → Progress db) → Option (RespValue × Shared db) → Socket → Progress db
    answer next none k = panicked
    answer next (some (v, s)) k = answered next s (write_all (encode v) k)

    unfoldable pub answer_all :
        (Shared db → Socket → Progress db) → List ParsedCmd → Shared db → Socket → Progress db
    unfolding execute_command encode
    answer_all next [] s k = next s k
    answer_all next (c ∷ cs) s k = answer (answer_all next cs) (execute_command c s) k

    -- What `run` does with the values that it found; `next` is the next round.
    abbrev pub after_gather :
        (List Frame → Bytes → Shared db → Socket → Progress db)
        → Option Gathered
        → Shared db
        → Socket
        → Progress db
    after_gather next none s k = run_out
    after_gather next (some (commands cs frames rest)) s k = answer_all (next frames rest) cs s k
    after_gather next (some (not_a_command e)) s k =
        end_with (invalid_command e) s (write_all (encode (protocol_reply e)) k)
    after_gather next (some (not_a_value capacity_overflow)) s k = panicked
    after_gather next (some (not_a_value e)) s k =
        end_unless_error (protocol_error e) s
          (write_all (encode (protocol_reply (t.show_parse_error e))) k)

    -- The loop of `run` over the reads that are still to come.
    unfoldable pub run : List ReadResult → List Frame → Bytes → Shared db → Socket → Progress db
    unfolding gather answer_all encode
    run [] frames buffer s k = waiting frames buffer s k
    run (read_reset ∷ reads) frames buffer s k = ended closed s k
    run (read_error ∷ reads) frames buffer s k = ended read_failed s k
    run (read_bytes [] ∷ reads) frames buffer s k = at_end buffer s k
    run (read_bytes (c ∷ b) ∷ reads) frames buffer s k =
        after_gather (run reads) (gather (length (buffer ++ c ∷ b) + 1) [] frames (buffer ++ c ∷ b))
          s k
