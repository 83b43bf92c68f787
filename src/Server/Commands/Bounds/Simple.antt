-- ===== src/Server/Commands/Bounds/Simple.antt =====
-- The indices of the commands of nimbis/src/cmd on strings, keys and sets.
use nimbis.Prelude.{refl, arith}
use nimbis.Storage.Database.{Db}
use nimbis.Server.Platform.{Texts, DatabaseTexts}
use nimbis.Server.Commands.{arg, args_from_one}
use nimbis.Server.Commands.Bounds.{IsSafe, one_required, two_required}
use nimbis.Server.Commands.Strings.{cmd_set, cmd_get, cmd_incr, cmd_decr, cmd_append}
use nimbis.Server.Commands.Keys.{cmd_ping, cmd_del, cmd_exists, cmd_expire, cmd_ttl, cmd_flushdb}
use nimbis.Server.Commands.Sets.{cmd_sadd, cmd_smembers, cmd_sismember, cmd_srem, cmd_scard}

module _ {D E : Type 0} {db : Db D E} ⦃t : Texts⦄ ⦃d : DatabaseTexts E⦄ where
  pub set-IsSafe : IsSafe (cmd_set {db = db})
  unfolding cmd_set arg args_from_one
  set-IsSafe = two_required cmd_set refl λ a b args ctx s. cc

  pub get-IsSafe : IsSafe (cmd_get {db = db})
  unfolding cmd_get arg args_from_one
  get-IsSafe = one_required cmd_get refl λ a args ctx s. cc

  pub incr-IsSafe : IsSafe (cmd_incr {db = db})
  unfolding cmd_incr arg args_from_one
  incr-IsSafe = one_required cmd_incr refl λ a args ctx s. cc

  pub decr-IsSafe : IsSafe (cmd_decr {db = db})
  unfolding cmd_decr arg args_from_one
  decr-IsSafe = one_required cmd_decr refl λ a args ctx s. cc

  pub append-IsSafe : IsSafe (cmd_append {db = db})
  unfolding cmd_append arg args_from_one
  append-IsSafe = two_required cmd_append refl λ a b args ctx s. cc

  pub ping-IsSafe : IsSafe (cmd_ping {db = db})
  unfolding cmd_ping
  ping-IsSafe args ctx s h = ground arith

  pub del-IsSafe : IsSafe (cmd_del {db = db})
  unfolding cmd_del
  del-IsSafe args ctx s h = cc

  pub exists-IsSafe : IsSafe (cmd_exists {db = db})
  unfolding cmd_exists
  exists-IsSafe args ctx s h = cc

  pub expire-IsSafe : IsSafe (cmd_expire {db = db})
  unfolding cmd_expire arg args_from_one
  expire-IsSafe = two_required cmd_expire refl λ a b args ctx s. ground arith

  pub ttl-IsSafe : IsSafe (cmd_ttl {db = db})
  unfolding cmd_ttl arg args_from_one
  ttl-IsSafe = one_required cmd_ttl refl λ a args ctx s. cc

  pub flushdb-IsSafe : IsSafe (cmd_flushdb {db = db})
  unfolding cmd_flushdb
  flushdb-IsSafe args ctx s h = cc

  pub sadd-IsSafe : IsSafe (cmd_sadd {db = db})
  unfolding cmd_sadd arg args_from_one
  sadd-IsSafe = two_required cmd_sadd refl λ a b args ctx s. cc

  pub smembers-IsSafe : IsSafe (cmd_smembers {db = db})
  unfolding cmd_smembers arg args_from_one
  smembers-IsSafe = one_required cmd_smembers refl λ a args ctx s. cc

  pub sismember-IsSafe : IsSafe (cmd_sismember {db = db})
  unfolding cmd_sismember arg args_from_one
  sismember-IsSafe = two_required cmd_sismember refl λ a b args ctx s. cc

  pub srem-IsSafe : IsSafe (cmd_srem {db = db})
  unfolding cmd_srem arg args_from_one
  srem-IsSafe = two_required cmd_srem refl λ a b args ctx s. cc

  pub scard-IsSafe : IsSafe (cmd_scard {db = db})
  unfolding cmd_scard arg args_from_one
  scard-IsSafe = one_required cmd_scard refl λ a args ctx s. cc
