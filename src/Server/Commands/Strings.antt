-- ===== src/Server/Commands/Strings.antt =====
-- nimbis/src/cmd: cmd_get.rs, cmd_set.rs, cmd_append.rs, cmd_incr.rs, cmd_decr.rs.
use nimbis.Prelude.{◌++◌, codes, Result, ok, err}
use nimbis.Prelude.Int.{pos}
use nimbis.Resp.Types.{RespValue}
use nimbis.Storage.Database.{Db}
use nimbis.Storage.Engine.{StorageError}
use nimbis.Server.Platform.{Texts, DatabaseTexts, show_storage_error}
use nimbis.Server.Commands.{
  Cmd, give, ◌>>=◌, arg, on_storage, reply_or_error, reply_ok, reply_len, reply_bulk, reply_error,
}
use nimbis.Storage.Strings

-- GET and SET put `ERR` in front of the text of an error.
abbrev pub reply_or_err :
    {A E : Type 0} ⦃t : Texts⦄ ⦃d : DatabaseTexts E⦄
    → (A → RespValue)
    → Result (StorageError E) A
    → RespValue
reply_or_err reply (ok a) = reply a
reply_or_err reply (err e) = reply_error (codes "ERR " ++ show_storage_error e)

module _ {D E : Type 0} {db : Db D E} ⦃t : Texts⦄ ⦃d : DatabaseTexts E⦄ where
  unfoldable pub cmd_get : Cmd db
  unfolding arg show_storage_error
  cmd_get = record {
    cmd_meta = record { name = codes "GET"; arity = pos 2 };
    do_cmd = λ args ctx. do
      key ← arg args 0
      found ← on_storage (Strings.get key)
      give (reply_or_err reply_bulk found);
  }

  unfoldable pub cmd_set : Cmd db
  unfolding arg show_storage_error
  cmd_set = record {
    cmd_meta = record { name = codes "SET"; arity = pos 3 };
    do_cmd = λ args ctx. do
      key ← arg args 0
      v ← arg args 1
      done ← on_storage (Strings.set key v)
      give (reply_or_err (λ _. reply_ok) done);
  }

  unfoldable pub cmd_append : Cmd db
  unfolding arg show_storage_error
  cmd_append = record {
    cmd_meta = record { name = codes "APPEND"; arity = pos 3 };
    do_cmd = λ args ctx. do
      key ← arg args 0
      append_val ← arg args 1
      len ← on_storage (Strings.append key append_val)
      give (reply_or_error reply_len len);
  }

  unfoldable pub cmd_incr : Cmd db
  unfolding arg show_storage_error
  cmd_incr = record {
    cmd_meta = record { name = codes "INCR"; arity = pos 2 };
    do_cmd = λ args ctx. do
      key ← arg args 0
      val ← on_storage (Strings.incr key)
      give (reply_or_error RespValue.integer val);
  }

  unfoldable pub cmd_decr : Cmd db
  unfolding arg show_storage_error
  cmd_decr = record {
    cmd_meta = record { name = codes "DECR"; arity = pos 2 };
    do_cmd = λ args ctx. do
      key ← arg args 0
      val ← on_storage (Strings.decr key)
      give (reply_or_error RespValue.integer val);
  }
