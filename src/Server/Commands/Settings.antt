-- ===== src/Server/Commands/Settings.antt =====
-- nimbis/src/cmd/cmd_config.rs: CONFIG GET and CONFIG SET.
use nimbis.Prelude.{
  Bytes, List, [], ◌∷◌, ◌++◌, codes, if◌then◌else◌, Option, none, some, Result, ok, err,
}
use nimbis.Prelude.Int.{pos, negsuc}
use nimbis.Resp.Types.{RespValue}
use nimbis.Storage.Database.{Db}
use nimbis.Server.Platform.{Texts}
use nimbis.Server.Commands.{
  Cmd, CmdContext, Task, give, ◌>>=◌, ◌>>◌, arg, args_from_one, read_shared, write_shared, reply_ok,
  reply_array, reply_error, execute, find_cmd,
}
use nimbis.Resp.External.{External}
use nimbis.Server.Config.{ServerConfig, Support}
use nimbis.Server.Config.Fields.{get_field, set_field, match_fields, contains}

-- The names with their values, one after the other; a name without a value is left out.
unfoldable pub named_values : ⦃x : External⦄ ⦃u : Support⦄ → ServerConfig → List Bytes → List Bytes
unfolding get_field
named_values c [] = []
named_values c (field_name ∷ fields) = elim (get_field c field_name) [
  | ok v ↦ field_name ∷ v ∷ named_values c fields
  | err e ↦ named_values c fields
]

abbrev pub reply_field : Bytes → Result Bytes Bytes → RespValue
reply_field name (ok v) = reply_array (name ∷ v ∷ [])
reply_field name (err e) = reply_error e

module _ {D E : Type 0} {db : Db D E} ⦃t : Texts⦄ ⦃u : Support⦄ where
  unfoldable pub cmd_config_get : ⦃x : External⦄ → Cmd db
  unfolding arg contains match_fields named_values get_field
  cmd_config_get = record {
    cmd_meta = record { name = codes "GET"; arity = pos 2 };
    do_cmd = λ args ctx. do
      name ← arg args 0
      s ← read_shared
      let pattern = t.from_utf8_lossy name
      give (
          if contains (codes "*") pattern
          then reply_array (named_values s.config (match_fields pattern))
          else reply_field pattern (get_field s.config pattern));
  }

  abbrev pub store_config : Result Bytes ServerConfig → Task db RespValue
  store_config (err e) = give (reply_error e)
  store_config (ok c) = do s ← read_shared; write_shared (record s { config = c }); give reply_ok

  unfoldable pub cmd_config_set : Cmd db
  unfolding arg set_field
  cmd_config_set = record {
    cmd_meta = record { name = codes "SET"; arity = pos 3 };
    do_cmd = λ args ctx. do
      field_name ← arg args 0
      v ← arg args 1
      s ← read_shared
      store_config (set_field s.config (t.from_utf8_lossy field_name) (t.from_utf8_lossy v));
  }

  unfoldable pub config_sub_cmds : ⦃x : External⦄ → List (Bytes × Cmd db)
  unfolding cmd_config_get cmd_config_set
  config_sub_cmds = (codes "GET", cmd_config_get) ∷ (codes "SET", cmd_config_set) ∷ []

  abbrev pub run_config_sub : Bytes → List Bytes → CmdContext → Option (Cmd db) → Task db RespValue
  run_config_sub name args ctx none =
      give (reply_error (codes "ERR unknown CONFIG subcommand '" ++ (name ++ codes "'")))
  run_config_sub name args ctx (some c) = do rest ← args_from_one args; execute c rest ctx

  unfoldable pub cmd_config : ⦃x : External⦄ → Cmd db
  unfolding arg args_from_one execute config_sub_cmds
  cmd_config = record {
    cmd_meta = record { name = codes "CONFIG"; arity = negsuc 2 };
    do_cmd = λ args ctx. elim args [
      | [] ↦ give (reply_error (codes "ERR wrong number of arguments for CONFIG command"))
      | a ∷ more ↦
          run_config_sub (t.to_uppercase (t.from_utf8_lossy a)) (a ∷ more) ctx
            (find_cmd (t.to_uppercase (t.from_utf8_lossy a)) config_sub_cmds)
    ];
  }
