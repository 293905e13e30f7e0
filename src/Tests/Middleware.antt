-- ===== src/Tests/Middleware.antt =====
-- Runs of the hooks on the memory storage at concrete values.
use mochi.Base.{ℕ, ◌+◌, ◌*◌, ◌≤◌, ◌≡◌, refl, true, false, List, [], ◌∷◌, if◌then◌else◌, arith}
use mochi.Base.Bytes.{Bytes, from_be}
use mochi.Base.Map
use mochi.Base.Int.{pos}
use mochi.Netip.{ip4}
use mochi.Netip
use mochi.Result.{ok, err, codes}
use mochi.Bittorrent.Peer.{Peer, Peer-discrete}
use mochi.Bittorrent.Peer
use mochi.Bittorrent.Request.{AnnounceRequest, AnnounceResponse, peers, get_first}
use mochi.Storage.Memory.Tracker.{run}
use mochi.Storage.Memory.{PeerStore, new_peer_storage, select_shard, shard_index, validate}
use mochi.Storage.Memory.Read.{announce_peers}
use mochi.Middleware.Storage.{memory, or_missing}
use mochi.Middleware.Response.{
  Context, append_peers, fetch, fetch_args, trim, preset, finish, split, mark,
}
use mochi.Middleware.Interaction.{interact}
use mochi.Middleware.Swarm.{all_calls, interact-run}
use mochi.Middleware.Answer.{IsAnswer, Answers, append_peers-Answers}
use mochi.Middleware.Limited.{memory-IsLimited}
use mochi.Middleware.ClientApproval.{
  ClientApproval, build, approve_announce, is_listed, announced_by, decided, build-approve_announce,
}
use mochi.Base.{some}
use mochi.Base.Map.{Map}
use mochi.Base.Bytes.{Bytes-discrete}
use mochi.Result.{Result}
use mochi.Middleware.ClientApproval.{add_clients}
use mochi.Middleware.Registry.{built, err_no_builder, new_all, new_all-fails}
use mochi.Middleware.VarInterval.{VarInterval, second, vary_announce, vary_announce-bounds}
use mochi.Middleware.Logic.{new_logic, handle_announce}
use mochi.Middleware.Respond.{handle_announce_total}
use mochi.Tests.{hash, long, store, store-IsWell, store_open, announce, one_address}

abbrev pub context : Context
context = record { skip_swarm_interaction = false; skip_response = false }

interact-run_example :
    interact (memory (pos 100) (λ ks. ks)) context (announce one_address 50) store ≡ (
      ok context,
      if context.skip_swarm_interaction
          then store
          else run
              (all_calls
                (pos 100)
                (announce one_address 50).event
                (announce one_address 50).left
                hash
                (peers (announce one_address 50).peer))
              store,
    )
interact-run_example =
    interact-run (pos 100) (λ ks. ks) context (announce one_address 50) store long store-IsWell
      store_open

handle_announce_total_example :
    (resp : AnnounceResponse) × (handle_announce
        (new_logic (pos 1800) (pos 900) (memory (pos 100) (λ ks. ks)) [] [])
        context
        (announce one_address 50)
        store
      ≡ (ok (context, resp), store))
    × IsAnswer (announce one_address 50) resp
    × (resp.interval ≡ pos 1800)
    × (resp.min_interval ≡ pos 900)
handle_announce_total_example =
    handle_announce_total (pos 100) (λ ks. ks) store store-IsWell store_open (pos 1800) (pos 900)
      context (announce one_address 50) long refl

abbrev pub empty_response : AnnounceResponse
empty_response = record {
  complete = 0;
  incomplete = 0;
  interval = pos 1800;
  min_interval = pos 900;
  ipv4_peers = [];
  ipv6_peers = [];
}

abbrev own_response : AnnounceResponse
own_response = record empty_response {
  incomplete = 1;
  ipv4_peers = peers (announce one_address 50).peer;
}

answered :
    append_peers (memory (pos 100) (λ ks. ks)) (announce one_address 50) empty_response store
    ≡ (ok own_response, store)
unfolding append_peers fetch fetch_args trim preset get_first or_missing memory announce_peers
    new_peer_storage select_shard shard_index validate from_be Map.get Map.insert finish split mark
    peers Peer.addr Netip.unmap Peer-discrete
answered = refl

append_peers-Answers_example : Answers (announce one_address 50) empty_response own_response
append_peers-Answers_example =
    append_peers-Answers (memory (pos 100) (λ ks. ks)) (memory-IsLimited (pos 100) (λ ks. ks))
      (announce one_address 50) empty_response store store own_response answered

abbrev clients : List Bytes
clients = codes "AZ3034" ∷ codes "BS5820" ∷ []

abbrev approval : ClientApproval
approval = record {
  client_ids = (codes "AZ3034", true) ∷ (codes "BS5820", true) ∷ [];
  invert = true;
}

build-approve_announce_example :
    (h : ClientApproval) × (build clients true ≡ ok h)
    × ((ctx : Context) (req : AnnounceRequest) (resp : AnnounceResponse) (s : PeerStore)
        → approve_announce h ctx
            (announced_by true (codes "AZ3034") (codes "-6wfG2wk6w") req)
            resp
            s
          ≡ decided (is_listed (codes "AZ3034") clients) true (ctx, resp) s)
build-approve_announce_example =
    build-approve_announce clients true (refl, (refl, tt)) true (codes "AZ3034")
      (codes "-6wfG2wk6w") refl

abbrev variation : VarInterval
variation = record { modifies = λ p. true; max_increase_delta = 60; modify_min_interval = false }

vary_announce-bounds_example :
    (k : ℕ) × (k ≤ 60)
    × (vary_announce variation context (announce one_address 50) empty_response store ≡ (
      ok (
        context,
        record empty_response {
          interval = pos (1800 + k * second);
          min_interval = pos (if false then 900 + k * second else 900);
        },
      ),
      store,
    ))
vary_announce-bounds_example =
    vary_announce-bounds variation context (announce one_address 50) empty_response 1800 900 store
      (omega arith) (omega arith) (omega arith)

abbrev registered : Map Bytes (List Bytes → Result ClientApproval)
registered = (codes "client approval", λ cs. build cs true) ∷ []

first_config : built registered (codes "client approval") clients ≡ ok approval
unfolding Map.get Map.insert Bytes-discrete build add_clients
first_config = refl

unknown_name : built registered (codes "jwt") [] ≡ err err_no_builder
unfolding Map.get Bytes-discrete
unknown_name = refl

new_all-fails_example :
    new_all registered ((codes "client approval", clients) ∷ (codes "jwt", []) ∷ [])
    ≡ ok (approval ∷ [], some err_no_builder)
new_all-fails_example =
    new_all-fails registered ((codes "client approval", clients) ∷ []) (approval ∷ []) (codes "jwt")
      [] [] err_no_builder (first_config, tt) unknown_name
