-- ===== src/Tests/Redis.antt =====
-- Runs of the Redis storage over a client that keeps the hashes of swarms, at concrete values.
use mochi.Base.{◌≡◌, refl, none, List, [], ◌∷◌, map, arith, take, if◌then◌else◌}
use mochi.Base.Int.{pos}
use mochi.Base.Map.{is_some}
use mochi.Netip
use mochi.Result.{ok}
use mochi.Bittorrent.Peer.{addr}
use mochi.Storage.Memory.View.{seeder, leecher}
use mochi.Storage.Memory.Tracker.{spec_run}
use mochi.Storage.Redis.{Client, pack_peer, unpack_peer}
use mochi.Storage.Redis.Packing.{Fits, without_zone, unpack_peer-pack_peer}
use mochi.Storage.Redis.Store.{Fields, ran, set_field, IsRedis, IsStorable, view_of}
use mochi.Storage.Redis.Refines.{
  Write, put, remove, promote, call_of, write, write_all, answer, Agree, write_all-refines,
  write-answer,
}
use mochi.Storage.Data.{IsTable, stored, removed, changed}
use mochi.Base.Bytes.{has_prefix}
use mochi.Base.{inl, inr, true}
use mochi.Result.{err, other_error}
use mochi.Storage.Redis.Data.{DataClient, is_arg_num, has_infix, redis_data}
use mochi.Storage.Redis.Tables.{Tables, read_value, IsHashes, contexts, redis_data-IsTable}
use mochi.Tests.{hash, alice, bob}

abbrev client : Client Fields
client = record {
  queued = λ cmd. ok 0;
  tx_pipelined = λ cmds t. (ok (map (λ cmd. none) cmds), ran cmds t);
  hdel_one = λ k f t. (ok (if is_some (t k f) then 1 else 0), set_field k f none t);
  decr_one = λ k t. (ok 0, t);
  hrand_field = λ k n t. (ok (take n (pack_peer alice ∷ pack_peer bob ∷ [])), t);
  hlen = λ k t. (ok 0, t);
  hget_int = λ k f t. (ok (pos 0), t);
}

client-IsRedis : IsRedis (λ t. Unit {0}) (λ t. t) client
client-IsRedis = record {
  queued_zero = λ cmd. refl;
  tx_runs = λ cmds t g h. (ran cmds t, refl, tt, λ k f. refl);
  hdel_deletes = λ k f t g h. (set_field k f none t, refl, tt, λ j i. refl);
  decr_keeps = λ k t g h. (0, t, refl, tt, λ j i. refl);
}

abbrev no_fields : Fields
no_fields k f = none

alice-IsStorable : IsStorable alice
unfolding addr Netip.unmap
alice-IsStorable = record { twenty = refl; port = omega arith; fits = omega arith; plain = refl }

bob-Fits : Fits (addr bob)
unfolding addr Netip.unmap
bob-Fits = omega arith

unpack_peer-pack_peer_example :
    unpack_peer (pack_peer bob) ≡ ok (record bob { ip = without_zone (addr bob) })
unpack_peer-pack_peer_example = unpack_peer-pack_peer bob refl (omega arith) bob-Fits

abbrev writes : List Write
writes =
    put leecher (pos 100) hash alice ∷ promote (pos 160) hash alice ∷ remove seeder hash alice ∷ []

write_all-refines_example :
    Unit {0}
    × Agree
        (view_of (write_all client writes no_fields))
        (spec_run (map call_of writes) (view_of no_fields))
write_all-refines_example =
    write_all-refines (λ t. Unit {0}) (λ t. t) client client-IsRedis writes no_fields tt
      (alice-IsStorable, (alice-IsStorable, (alice-IsStorable, tt)))

write-answer_example :
    (write client (remove seeder hash alice) no_fields).0
    ≡ answer (remove seeder hash alice) (view_of no_fields)
write-answer_example =
    write-answer (λ t. Unit {0}) (λ t. t) client client-IsRedis (remove seeder hash alice) no_fields
      tt alice-IsStorable

-- a server that takes one argument of HSET only
abbrev old_server : DataClient Tables
old_server = record {
  hset_one = λ k e t. (ok tt, changed k (stored (e ∷ [])) t);
  hset_all = λ k es t. (err (other_error "ERR wrong number of arguments for 'hset' command"), t);
  hexists = λ k f t. (ok (is_some (t k f)), t);
  hget = λ k f t. (read_value (t k f), t);
  hdel_all = λ k fs t. (ok tt, changed k (removed fs) t);
}

old_server_refuses :
    is_arg_num (other_error "ERR wrong number of arguments for 'hset' command") ≡ true
unfolding is_arg_num has_infix has_prefix
old_server_refuses = refl

old_server-IsHashes : IsHashes (λ t. Unit {0}) (λ t. t) old_server
old_server-IsHashes = record {
  hset_one_sets = λ k e t g. (changed k (stored (e ∷ [])) t, refl, tt, λ j i. refl);
  hset_all_sets = λ k es t g. inr (_, refl, old_server_refuses);
  hdel_one_deletes = λ k f t g. (changed k (removed (f ∷ [])) t, refl, tt, λ j i. refl);
  hdel_all_deletes = λ k fs t g. inl (changed k (removed fs) t, refl, tt, λ j i. refl);
  hexists_reads = λ k f t g. refl;
  hget_reads = λ k f t g. refl;
}

redis_data-IsTable_example :
    IsTable
      (λ t. Unit {0})
      (contexts (λ t. Unit {0}) (λ t. t) old_server old_server-IsHashes)
      (redis_data old_server)
redis_data-IsTable_example =
    redis_data-IsTable (λ t. Unit {0}) (λ t. t) old_server old_server-IsHashes
