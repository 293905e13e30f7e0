-- ===== src/Tests/Remote.antt =====
-- Runs of the storages over KeyDB and PostgreSQL at concrete values.
use mochi.Base.{◌≡◌, refl, true, none, List, [], ◌∷◌, map, arith, if◌then◌else◌, replicate}
use mochi.Base.Int.{pos}
use mochi.Base.Map.{is_some}
use mochi.Netip
use mochi.Result.{ok, err, other_error}
use mochi.Bittorrent.Peer.{addr}
use mochi.Storage.Memory.View.{leecher}
use mochi.Storage.Memory.Tracker.{spec_run}
use mochi.Storage.Redis.Store.{Fields, set_field, IsStorable, view_of}
use mochi.Storage.Redis.Refines.{Write, put, promote, call_of, peer_of, Agree, answer}
use mochi.Storage.KeyDb.{SetClient}
use mochi.Storage.KeyDb.Refines.{
  IsKeyDb, present, timeless, write, write_all, write_all-refines_sets,
}
use mochi.Storage.Pg.Config.{Config}
use mochi.Storage.Pg.Pool.{Pool, Row}
use mochi.Storage.Pg.Peers.{announce_peers}
use mochi.Storage.Pg.Answers.{IsQuiet, Answered, announce_peers-Answered}
use mochi.Tests.{hash, alice}

abbrev sets : SetClient Fields
sets = record {
  sadd = λ k m t. (ok tt, set_field k m present t);
  expire_member = λ k m ttl t. (ok tt, t);
  srem = λ k m t. (ok (if is_some (t k m) then 1 else 0), set_field k m none t);
  smove = λ k l m t. (
    ok (is_some (t k m)),
    λ j g. if is_some (t k m) then set_field l m present (set_field k m none t) j g else t j g,
  );
  hincr_by = λ k f n t. (ok tt, t);
  srand_member_n = λ k n t. (ok [], t);
  scard = λ k t. (ok 0, t);
}

sets-IsKeyDb : IsKeyDb (λ t. t) sets
sets-IsKeyDb = record {
  sadd_adds = λ k m t. (set_field k m present t, refl, λ j g. refl);
  expire_keeps = λ k m ttl t. (t, refl, λ j g. refl);
  srem_removes = λ k m t. (set_field k m none t, refl, λ j g. refl);
  smove_moves = λ k l m t. ((sets.smove k l m t).1, refl, λ j g. refl);
}

abbrev no_members : Fields
no_members k m = none

alice-IsStorable : IsStorable alice
unfolding addr Netip.unmap
alice-IsStorable = record { twenty = refl; port = omega arith; fits = omega arith; plain = refl }

abbrev writes : List Write
writes = put leecher (pos 100) hash alice ∷ promote (pos 160) hash alice ∷ []

write_all-refines_sets_example :
    Agree
      (view_of (write_all sets 1800 writes no_members))
      (spec_run (map call_of (map timeless writes)) (view_of no_members))
    × ((w : Write)
        → IsStorable (peer_of w)
        → (write sets 1800 w no_members).0 ≡ answer w (view_of no_members))
write_all-refines_sets_example =
    write_all-refines_sets (λ t. t) sets sets-IsKeyDb 1800 writes no_members
      (alice-IsStorable, (alice-IsStorable, tt))

abbrev row : Row
row = record {
  scan_peer = λ width id ip port. ok (replicate 20 65, 1 ∷ 2 ∷ 3 ∷ 4 ∷ [], pos 6881);
  scan_counts = λ width si li. ok (1, 2);
}

abbrev pool : Pool (Unit {0})
pool = record {
  exec = λ q a s. (ok tt, s);
  query = λ q a s. (
    ok (record {
      fields = (73 ∷ []) ∷ (65 ∷ []) ∷ (80 ∷ []) ∷ [];
      rows = row ∷ row ∷ row ∷ [];
      error = none;
    }),
    s,
  );
  query_bytes = λ q a s. (err (other_error "no rows in result set"), s);
  query_uint32 = λ q a s. (ok 7, s);
  begin = λ s. (ok tt, s);
  send_batch = λ b s. (ok tt, s);
  commit = λ s. (ok tt, s);
  rollback = λ s. (ok tt, s);
}

abbrev config : Config
config = record {
  connection_string = [];
  ping_query = [];
  peer = record {
    add_query = [];
    del_query = [];
    graduate_query = [];
    count_query = [];
    count_seeders_column = [];
    count_leechers_column = [];
    by_info_hash_clause = [];
  };
  announce = record {
    query = [];
    peer_id_column = 73 ∷ [];
    address_column = 65 ∷ [];
    port_column = 80 ∷ [];
  };
  downloads = record { get_query = []; increment_query = [] };
  values = record { add_query = []; get_query = []; del_query = [] };
  gc_query = [];
  info_hash_count_query = [];
}

row-IsQuiet : IsQuiet row
row-IsQuiet width id ip port a b c = λ e. cc

announce_peers-Answered_example :
    Answered 2 (announce_peers (λ bs. bs) pool config hash true 2 true tt).0
announce_peers-Answered_example =
    announce_peers-Answered (λ bs. bs) pool config
      (λ q a s. (row-IsQuiet, (row-IsQuiet, (row-IsQuiet, tt)))) hash true 2 true tt
