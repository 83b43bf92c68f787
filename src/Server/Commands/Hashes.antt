-- ===== src/Server/Commands/Hashes.antt =====
-- nimbis/src/cmd: cmd_hset.rs, cmd_hget.rs, cmd_hdel.rs, cmd_hlen.rs, cmd_hmget.rs, cmd_hgetall.rs.
use nimbis.Prelude.{
  ℕ, ◌+◌, ◌-◌, ◌%◌, not, ◌||◌, Bytes, List, [], ◌∷◌, ◌==◌, ltb, codes, length, if◌then◌else◌,
  Option, Result, ok, err,
}
use nimbis.Prelude.Int.{pos, negsuc}
use nimbis.Resp.Types.{RespValue, RespValues, no_values, value}
use nimbis.Storage.Database.{Db}
use nimbis.Storage.Engine.{StorageError}
use nimbis.Server.Platform.{Texts, DatabaseTexts, show_storage_error}
use nimbis.Server.Commands.{
  Cmd, Task, give, ◌>>=◌, arg, args_from_one, on_storage, reply_or_error, reply_len, reply_count,
  reply_bulk, reply_error,
}
use nimbis.Storage.Hashes

abbrev pub option_values : List (Option Bytes) → RespValues
option_values [] = no_values
option_values (v ∷ vs) = value (reply_bulk v) (option_values vs)

abbrev pub pair_values : List (Bytes × Bytes) → RespValues
pair_values [] = no_values
pair_values ((f, v) ∷ ps) =
    value (RespValue.bulk_string f) (value (RespValue.bulk_string v) (pair_values ps))

module _ {D E : Type 0} {db : Db D E} ⦃t : Texts⦄ ⦃d : DatabaseTexts E⦄ where
  abbrev pub pair_set : (ℕ → Task db RespValue) → ℕ → Result (StorageError E) ℕ → Task db RespValue
  pair_set next added_count (ok count) = next (added_count + count)
  pair_set next added_count (err e) = give (reply_error (show_storage_error e))

  -- The loop of HSET over the pairs. A pair that fails ends it; the pairs before it stay written.
  unfoldable pub set_pairs : Bytes → List Bytes → ℕ → Task db RespValue
  set_pairs key [] added_count = give (reply_count added_count)
  set_pairs key (field ∷ []) added_count = give (reply_count added_count)
  set_pairs key (field ∷ v ∷ pairs) added_count = do
    set ← on_storage (Hashes.hset key field v)
    pair_set (set_pairs key pairs) added_count set

module _ {D E : Type 0} {db : Db D E} ⦃t : Texts⦄ ⦃d : DatabaseTexts E⦄ where
  unfoldable pub cmd_hset : Cmd db
  unfolding arg show_storage_error set_pairs
  cmd_hset = record {
    cmd_meta = record { name = codes "HSET"; arity = negsuc 3 };
    do_cmd = λ args ctx. do
      if ltb (length args) 3 || not ((length args - 1) % 2 == 0)
          then give (reply_error (codes "ERR wrong number of arguments for 'hset' command"))
          else (do key ← arg args 0; pairs ← args_from_one args; set_pairs key pairs 0);
  }

  unfoldable pub cmd_hget : Cmd db
  unfolding arg show_storage_error
  cmd_hget = record {
    cmd_meta = record { name = codes "HGET"; arity = pos 3 };
    do_cmd = λ args ctx. do
      key ← arg args 0
      field ← arg args 1
      found ← on_storage (Hashes.hget key field)
      give (reply_or_error reply_bulk found);
  }

  unfoldable pub cmd_hdel : Cmd db
  unfolding arg show_storage_error
  cmd_hdel = record {
    cmd_meta = record { name = codes "HDEL"; arity = negsuc 2 };
    do_cmd = λ args ctx. do
      key ← arg args 0
      fields ← args_from_one args
      count ← on_storage (Hashes.hdel key fields)
      give (reply_or_error reply_count count);
  }

  unfoldable pub cmd_hlen : Cmd db
  unfolding arg show_storage_error
  cmd_hlen = record {
    cmd_meta = record { name = codes "HLEN"; arity = pos 2 };
    do_cmd = λ args ctx. do
      key ← arg args 0
      len ← on_storage (Hashes.hlen key)
      give (reply_or_error reply_len len);
  }

  unfoldable pub cmd_hmget : Cmd db
  unfolding arg show_storage_error
  cmd_hmget = record {
    cmd_meta = record { name = codes "HMGET"; arity = negsuc 2 };
    do_cmd = λ args ctx. do
      key ← arg args 0
      fields ← args_from_one args
      values ← on_storage (Hashes.hmget key fields)
      give (reply_or_error (λ vs. RespValue.array (option_values vs)) values);
  }

  unfoldable pub cmd_hgetall : Cmd db
  unfolding arg show_storage_error
  cmd_hgetall = record {
    cmd_meta = record { name = codes "HGETALL"; arity = pos 2 };
    do_cmd = λ args ctx. do
      key ← arg args 0
      pairs ← on_storage (Hashes.hgetall key)
      give (reply_or_error (λ ps. RespValue.array (pair_values ps)) pairs);
  }
