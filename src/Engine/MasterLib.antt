-- ===== src/Engine/MasterLib.antt =====
-- What node/src/engine/masterchain.rs takes from ever_block: the description of a shard's last block, and
-- the operations on the extra of a master block.
use evernode_se.Common.{ℕ, Bool, Option, List}
use evernode_se.Common.Int.{ℤ}
use evernode_se.Common.Assoc.{Key}
use evernode_se.Common.Result.{NodeResult}
use evernode_se.Block.Ever.{EverBlock}
use evernode_se.Block.Executor.{ExecLib}

-- The fields of `ShardDescr` that are set; the others have their defaults.
pub record ShardDescr : Type 0 where
  pub seq_no : ℕ
  pub reg_mc_seqno : ℕ
  pub start_lt : ℕ
  pub end_lt : ℕ
  pub root_hash : ℕ
  pub file_hash : ℕ
  pub before_split : Bool
  pub want_split : Bool
  pub want_merge : Bool
  pub flags : ℕ
  pub next_validator_shard : ℕ
  pub min_ref_mc_seqno : ℕ
  pub gen_utime : ℕ

-- What is read of the header of a shard's block.
pub record ShardInfo (ShardIdent : Type 0) : Type 0 where
  pub shard : ShardIdent
  pub seq_no : ℕ
  pub start_lt : ℕ
  pub end_lt : ℕ
  pub before_split : Bool
  pub want_split : Bool
  pub want_merge : Bool
  pub flags : ℕ
  pub min_ref_mc_seqno : ℕ
  pub gen_utime : ℕ

pub record McLib (e : EverBlock) (x : ExecLib e) : Type 1 where
  pub ident_key : Key e.ShardIdent
  -- `ShardIdent::masterchain`, `shard_prefix_with_tag`, and `with_prefix_slice` of no prefix
  pub masterchain : e.ShardIdent
  pub shard_prefix_with_tag : e.ShardIdent → ℕ
  pub full_shard : ℤ → e.ShardIdent
  pub shard_info : e.Block → NodeResult (ShardInfo e.ShardIdent)
  pub RawConfig : Type 0
  pub raw_config : x.Config → RawConfig
  pub config_eqb : RawConfig → RawConfig → Bool
  -- the header is read, made one of a key block, and written
  pub set_key_block : e.Block → NodeResult e.Block
  pub Extra : Type 0
  pub read_extra : e.Block → NodeResult Extra
  pub write_extra : Extra → e.Block → NodeResult e.Block
  -- McBlockExtra
  pub McExtra : Type 0
  pub default_extra : McExtra
  pub set_config : RawConfig → McExtra → McExtra
  pub config : McExtra → Option RawConfig
  -- `BinTree::with_item` and `shards_mut().set`
  pub set_shard : ℤ → ShardDescr → McExtra → NodeResult McExtra
  -- what the two nested iterations of `shards()` visit, and how they end
  pub shard_items : McExtra → List (e.ShardIdent × ShardDescr) × NodeResult (Unit {0})
  pub write_custom : McExtra → Extra → NodeResult Extra
  pub read_custom : Extra → NodeResult (Option McExtra)
