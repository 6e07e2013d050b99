-- ===== src/Engine/Masterchain/Sample.antt =====
-- A small library of master blocks, for tests: a block below 100 carries no shard, and 100 more is
-- the same block with the one description that there is, for workchain 0.
use evernode_se.Common.{
  ℕ, ◌+◌, ◌≡◌, refl, sym, ◌∙◌, inl, inr, Bool, true, false, ◌&&◌, Option, some, [], ◌∷◌, Bool-cases,
  ltb, ◌==◌, arith, if◌then◌else◌,
}
use evernode_se.Common.Int.{ℤ, pos, negsuc, ◌==ℤ◌, ==ℤ_iff}
use evernode_se.Common.Assoc.{ℤ_key, eqb}
use evernode_se.Common.Assoc
use evernode_se.Common.Result.{NodeResult, ok, err, ok-injective, invalid_operation}
use evernode_se.Engine.Masterchain.{McLib, ShardDescr}
use evernode_se.Engine.Masterchain.Register.{IsMcLib, items}
use evernode_se.Block.Sample.{sample}
use evernode_se.Block.Builder.SampleExec.{sample_exec}

abbrev pub the_descr : ShardDescr
the_descr = record {
  seq_no = 1;
  reg_mc_seqno = 1;
  start_lt = 10;
  end_lt = 20;
  root_hash = 1001;
  file_hash = 77;
  before_split = false;
  want_split = false;
  want_merge = false;
  flags = 0;
  next_validator_shard = 8;
  min_ref_mc_seqno = 1;
  gen_utime = 5;
}

abbrev is_off : Bool → Bool
is_off true = false
is_off false = true

abbrev is_the_descr : ShardDescr → Bool
is_the_descr d =
    (d.seq_no == 1)
    && ((d.reg_mc_seqno == 1)
        && ((d.start_lt == 10)
            && ((d.end_lt == 20)
                && ((d.root_hash == 1001)
                    && ((d.file_hash == 77)
                        && (is_off d.before_split
                            && (is_off d.want_split
                                && (is_off d.want_merge
                                    && ((d.flags == 0)
                                        && ((d.next_validator_shard == 8)
                                            && ((d.min_ref_mc_seqno == 1)
                                                && (d.gen_utime == 5))))))))))))

is_the_descr-eq : (d : ShardDescr) → is_the_descr d ≡ true → d ≡ the_descr
is_the_descr-eq d h = ground arith

abbrev pub sample_mc : McLib sample sample_exec
sample_mc = record {
  ident_key = ℤ_key;
  masterchain = negsuc 0;
  shard_prefix_with_tag = λ s. 8;
  full_shard = λ w. w;
  shard_info = λ b. ok (record {
    shard = pos 0;
    seq_no = b;
    start_lt = 10;
    end_lt = 20;
    before_split = false;
    want_split = false;
    want_merge = false;
    flags = 0;
    min_ref_mc_seqno = 1;
    gen_utime = 5;
  });
  RawConfig = Unit {0};
  raw_config = λ c. tt;
  config_eqb = λ a b. true;
  set_key_block = ok;
  Extra = Bool;
  read_extra = λ b. ok (if ltb b 100 then false else true);
  write_extra =
      λ extra b. if ltb b 100 then ok (if extra then b + 100 else b) else err invalid_operation;
  McExtra = Bool;
  default_extra = false;
  set_config = λ c mc. mc;
  config = λ mc. some tt;
  set_shard = λ w d mc. if (w ==ℤ pos 0) && is_the_descr d then ok true else err invalid_operation;
  shard_items = λ mc. if mc then ((pos 0, the_descr) ∷ [], ok tt) else ([], ok tt);
  write_custom = λ mc extra. ok mc;
  read_custom = λ extra. ok (some extra);
}

sample-read_extra :
    (extra : Bool) (b b' : ℕ)
    → (if ltb b 100 then ok (if extra then b + 100 else b) else err invalid_operation) ≡ ok b'
    → ok (if ltb b' 100 then false else true) ≡ ok extra
sample-read_extra extra b b' h = ground arith

sample-read_custom :
    (mc extra extra' : Bool)
    → ◌≡◌ {A = NodeResult Bool} (ok mc) (ok extra')
    → ◌≡◌ {A = NodeResult (Option Bool)} (ok (some extra')) (ok (some mc))
sample-read_custom mc extra extra' h = cc

one_shard :
    (mc : Bool) (s : ℤ)
    → Assoc.get (items sample sample_exec sample_mc true) s ≡ (
        if pos 0 ==ℤ s then some the_descr else Assoc.get (items sample sample_exec sample_mc mc) s)
unfolding Assoc.get Assoc.insert Assoc.remove
one_shard false s = refl
one_shard true s = elim (Bool-cases (pos 0 ==ℤ s)) [
  | inl same ↦ rw same refl
  | inr other ↦ rw other refl
]

sample-set_shard :
    (w : ℤ) (d : ShardDescr) (mc mc' : Bool)
    → sample_mc.set_shard w d mc ≡ ok mc'
    → (sample_mc.shard_items mc).1 ≡ ok tt
    → ((sample_mc.shard_items mc').1 ≡ ok tt)
      × ((s : ℤ)
          → Assoc.get (items sample sample_exec sample_mc mc') s
            ≡ (if eqb w s then some d else Assoc.get (items sample sample_exec sample_mc mc) s))
sample-set_shard w d mc mc' h ended = elim (Bool-cases (w ==ℤ pos 0)) [
  | inl at ↦ elim (Bool-cases (is_the_descr d)) [
    | inl same ↦
        let set : true ≡ mc' = ok-injective ((rw (at, same) refl) ∙ h) in
        let w' : w ≡ pos 0 = (==ℤ_iff w (pos 0)).0 at in
        let d' : d ≡ the_descr = is_the_descr-eq d same in
        rw⁻¹ set (rw (w', d') (refl, one_shard mc))
    | inr other ↦ let bad : err invalid_operation ≡ ok mc' = sym (rw (at, other) refl) ∙ h in cc
  ]
  | inr other ↦ let bad : err invalid_operation ≡ ok mc' = sym (rw other refl) ∙ h in cc
]

pub sample_mc-IsMcLib : IsMcLib sample sample_exec sample_mc
sample_mc-IsMcLib = record {
  read-write_extra = sample-read_extra;
  read-write_custom = sample-read_custom;
  config-set_config = λ c mc. refl;
  config-set_shard = λ w d mc mc' h. refl;
  config_eqb-refl = λ c. refl;
  items-default = λ c. refl;
  items-set_shard = sample-set_shard;
}
