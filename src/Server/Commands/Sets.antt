-- ===== src/Server/Commands/Sets.antt =====
-- nimbis/src/cmd: cmd_sadd.rs, cmd_srem.rs, cmd_smembers.rs, cmd_sismember.rs, cmd_scard.rs.
use nimbis.Prelude.{codes}
use nimbis.Prelude.Int.{pos, negsuc}
use nimbis.Storage.Database.{Db}
use nimbis.Server.Platform.{Texts, DatabaseTexts, show_storage_error}
use nimbis.Server.Commands.{
  Cmd, give, ◌>>=◌, arg, args_from_one, on_storage, reply_or_error, reply_len, reply_array,
}
use nimbis.Storage.Sets
use nimbis.Server.Commands.Keys.{reply_flag}

module _ {D E : Type 0} {db : Db D E} ⦃t : Texts⦄ ⦃d : DatabaseTexts E⦄ where
  unfoldable pub cmd_sadd : Cmd db
  unfolding arg show_storage_error
  cmd_sadd = record {
    cmd_meta = record { name = codes "SADD"; arity = negsuc 2 };
    do_cmd = λ args ctx. do
      key ← arg args 0
      members ← args_from_one args
      count ← on_storage (Sets.sadd key members)
      give (reply_or_error reply_len count);
  }

  unfoldable pub cmd_smembers : Cmd db
  unfolding arg show_storage_error
  cmd_smembers = record {
    cmd_meta = record { name = codes "SMEMBERS"; arity = pos 2 };
    do_cmd = λ args ctx. do
      key ← arg args 0
      members ← on_storage (Sets.smembers key)
      give (reply_or_error reply_array members);
  }

  unfoldable pub cmd_sismember : Cmd db
  unfolding arg show_storage_error
  cmd_sismember = record {
    cmd_meta = record { name = codes "SISMEMBER"; arity = pos 3 };
    do_cmd = λ args ctx. do
      key ← arg args 0
      member ← arg args 1
      exists ← on_storage (Sets.sismember key member)
      give (reply_or_error reply_flag exists);
  }

  unfoldable pub cmd_srem : Cmd db
  unfolding arg show_storage_error
  cmd_srem = record {
    cmd_meta = record { name = codes "SREM"; arity = negsuc 2 };
    do_cmd = λ args ctx. do
      key ← arg args 0
      members ← args_from_one args
      count ← on_storage (Sets.srem key members)
      give (reply_or_error reply_len count);
  }

  unfoldable pub cmd_scard : Cmd db
  unfolding arg show_storage_error
  cmd_scard = record {
    cmd_meta = record { name = codes "SCARD"; arity = pos 2 };
    do_cmd = λ args ctx. do
      key ← arg args 0
      count ← on_storage (Sets.scard key)
      give (reply_or_error reply_len count);
  }
