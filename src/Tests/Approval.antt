-- ===== src/Tests/Approval.antt =====
-- Runs of the torrent approval hook on the memory data store at concrete values.
use mochi.Base.{refl, ◌≡◌, true, false, none, [], ◌∷◌, if◌then◌else◌}
use mochi.Base.Bytes.{Bytes}
use mochi.Base.Map
use mochi.Result.{ok, err, codes}
use mochi.Bittorrent.Request.{AnnounceRequest, AnnounceResponse}
use mochi.Storage.Data.{IsTable}
use mochi.Storage.MemoryData.{DataStore, memory_data}
use mochi.Storage.MemoryData.Tables.{memory_data-IsTable, IsStore, data_view}
use mochi.Storage.MemoryData
use mochi.Middleware.Response.{Context}
use mochi.Middleware.TorrentApproval.{
  Config, Listed, build, chosen, err_torrent_unapproved, approve_torrent,
}
use mochi.Middleware.TorrentApproval.Approves.{is_listed, context_of, build-approve_torrent}
use mochi.Middleware.TorrentApproval.Chosen.{Both, view_of, is_temporary, chosen-IsTable}
use mochi.Bittorrent.Hash.{err_invalid_hash_size, new_info_hash}
use mochi.Tests.{hash, raw}

abbrev blacklist : Config
blacklist = record { hash_list = hash ∷ []; invert = true; storage_ctx = [] }

empty_context : (k : Bytes) → data_view [] (context_of blacklist) k ≡ none
unfolding data_view MemoryData.table Map.get
empty_context k = refl

build-approve_torrent_example :
    (l : Listed) × (s' : DataStore) × (build memory_data blacklist [] ≡ (ok l, s'))
    × IsStore s'
    × ((ctx : Context) (req : AnnounceRequest) (resp : AnnounceResponse) (t : DataStore)
        → IsStore t
        → ((k : Bytes)
            → data_view t (context_of blacklist) k ≡ data_view s' (context_of blacklist) k)
        → approve_torrent memory_data l ctx req resp t ≡ (
            if is_listed req.info_hash (hash ∷ [])
            then (if blacklist.invert then (err err_torrent_unapproved, t) else (ok (ctx, resp), t))
            else (if blacklist.invert
                then (ok (ctx, resp), t)
                else (err err_torrent_unapproved, t))))
build-approve_torrent_example =
    build-approve_torrent IsStore data_view memory_data memory_data-IsTable blacklist (hash ∷ []) []
      tt (raw, tt) empty_context

abbrev misspelt : Config
misspelt = record {
  hash_list = hash ∷ codes "deadbeef" ∷ [];
  invert = false;
  storage_ctx = codes "hashes";
}

not_a_hash : new_info_hash (codes "deadbeef") ≡ err err_invalid_hash_size
unfolding new_info_hash
not_a_hash = refl

chosen-IsTable_example :
    IsTable
      (Both IsStore IsStore)
      (view_of IsStore data_view memory_data memory_data-IsTable (is_temporary false memory_data))
      (chosen false memory_data)
chosen-IsTable_example = chosen-IsTable IsStore data_view memory_data memory_data-IsTable false
