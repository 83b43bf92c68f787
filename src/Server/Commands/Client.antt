-- ===== src/Server/Commands/Client.antt =====
-- nimbis/src/cmd/cmd_client.rs: CLIENT and its subcommands. `GCTX` is set before any command runs.
use nimbis.Prelude.{Bool, true, false, Bytes, List, [], ◌∷◌, ◌++◌, codes, Option, none, some}
use nimbis.Prelude.Int.{pos, negsuc}
use nimbis.Resp.Types.{RespValue}
use nimbis.Storage.Database.{Db}
use nimbis.Server.Platform.{Texts}
use nimbis.Server.Commands.{
  Cmd, CmdContext, Task, give, ◌>>=◌, ◌>>◌, arg, args_from_one, read_shared, write_shared, reply_ok,
  reply_bulk, reply_error, execute, find_cmd,
}
use nimbis.Prelude.Decimal.{print_ℤ}
use nimbis.Server.Sessions.{Sessions, ClientSession, set_name, get_name, list}

abbrev pub lossy_or_empty : ⦃t : Texts⦄ → Option Bytes → Bytes
lossy_or_empty none = []
lossy_or_empty ⦃t⦄ (some name) = t.from_utf8_lossy name

-- `id={} name={}`, without a name for a client that has none.
abbrev pub session_line : ⦃t : Texts⦄ → ClientSession → Bytes
session_line s = codes "id=" ++ (print_ℤ s.id ++ (codes " name=" ++ lossy_or_empty s.name))

abbrev pub lines_joined : List Bytes → Bytes
lines_joined [] = []
lines_joined (l ∷ []) = l
lines_joined (l ∷ m ∷ ls) = l ++ (10 ∷ lines_joined (m ∷ ls))

abbrev pub session_lines : ⦃t : Texts⦄ → Sessions → List Bytes
session_lines [] = []
session_lines (s ∷ ss) = session_line s ∷ session_lines ss

abbrev pub reply_named : Bool → RespValue
reply_named true = reply_ok
reply_named false = reply_error (codes "ERR client not found")

module _ {D E : Type 0} {db : Db D E} where
  unfoldable pub cmd_client_id : Cmd db
  cmd_client_id = record {
    cmd_meta = record { name = codes "ID"; arity = pos 1 };
    do_cmd = λ args ctx. give (RespValue.integer ctx.client_id);
  }

  unfoldable pub cmd_client_setname : Cmd db
  unfolding arg set_name
  cmd_client_setname = record {
    cmd_meta = record { name = codes "SETNAME"; arity = pos 2 };
    do_cmd = λ args ctx. do
      name ← arg args 0
      s ← read_shared
      write_shared
          (record s { client_sessions = (set_name ctx.client_id name s.client_sessions).1 })
      give (reply_named (set_name ctx.client_id name s.client_sessions).0);
  }

  unfoldable pub cmd_client_getname : Cmd db
  unfolding get_name
  cmd_client_getname = record {
    cmd_meta = record { name = codes "GETNAME"; arity = pos 1 };
    do_cmd = λ args ctx. do
      s ← read_shared
      give (reply_bulk (get_name ctx.client_id s.client_sessions));
  }

  unfoldable pub cmd_client_list : ⦃t : Texts⦄ → Cmd db
  unfolding list print_ℤ
  cmd_client_list = record {
    cmd_meta = record { name = codes "LIST"; arity = pos 1 };
    do_cmd = λ args ctx. do
      s ← read_shared
      give (RespValue.bulk_string (lines_joined (session_lines (list s.client_sessions))));
  }

  unfoldable pub client_sub_cmds : ⦃t : Texts⦄ → List (Bytes × Cmd db)
  unfolding cmd_client_id cmd_client_setname cmd_client_getname cmd_client_list
  client_sub_cmds =
      (codes "ID", cmd_client_id)
      ∷ (codes "SETNAME", cmd_client_setname)
      ∷ (codes "GETNAME", cmd_client_getname)
      ∷ (codes "LIST", cmd_client_list)
      ∷ []

  abbrev pub run_client_sub :
      ⦃t : Texts⦄ → Bytes → List Bytes → CmdContext → Option (Cmd db) → Task db RespValue
  run_client_sub name args ctx none =
      give (reply_error (codes "ERR unknown CLIENT subcommand '" ++ (name ++ codes "'")))
  run_client_sub name args ctx (some c) = do rest ← args_from_one args; execute c rest ctx

  unfoldable pub cmd_client : ⦃t : Texts⦄ → Cmd db
  unfolding arg args_from_one execute client_sub_cmds
  cmd_client ⦃t⦄ = record {
    cmd_meta = record { name = codes "CLIENT"; arity = negsuc 1 };
    do_cmd = λ args ctx. do
      sub ← arg args 0
      let name = t.to_uppercase (t.from_utf8_lossy sub)
      run_client_sub name args ctx (find_cmd name client_sub_cmds);
  }
