-- ===== src/Middleware/TorrentApproval.antt =====
-- middleware/torrentapproval: the hook that refuses announces by their hash, and container/list, the list of
-- hashes in a data storage.
pub mod Approves
pub mod Chosen
use mochi.Base.{◌≡◌, refl, Bool, true, false, ◌||◌, not, List, [], ◌∷◌, ◌==◌, if◌then◌else◌, length}
use mochi.Base.Bytes.{Bytes}
use mochi.Result.{Error, client_error, other_error, Result, ok, err, panic, Act, codes}
use mochi.Bittorrent.Hash.{InfoHash, info_hash_v2_len, new_info_hash, truncate_v1}
use mochi.Bittorrent.Request.{AnnounceRequest, AnnounceResponse}
use mochi.Storage.Data.{Entry, DataStorage}
use mochi.Storage.MemoryData.{DataStore, memory_data}
use mochi.Middleware.Storage.{and_then}
use mochi.Middleware.Response.{Context}
use mochi.Middleware.Logic.{Hook}

-- container.DefaultStorageCtxName
abbrev pub default_storage_ctx_name : Bytes
default_storage_ctx_name = codes "MW_APPROVAL"

abbrev pub dummy : Bytes
dummy = codes "_"

-- The texts of the source also name the hash and the error behind them.
abbrev pub err_whitelist : Error
err_whitelist = other_error "whitelist"

abbrev pub err_initial_data : Error
err_initial_data = other_error "unable to put initial data"

abbrev pub err_torrent_unapproved : Error
err_torrent_unapproved = client_error "torrent not allowed by mochi"

-- list.Config
pub record Config : Type 0 where
  pub hash_list : List Bytes
  pub invert : Bool
  pub storage_ctx : Bytes

-- list.List; its storage is an argument of its methods
pub record Listed : Type 0 where
  pub invert : Bool
  pub storage_ctx : Bytes

abbrev entry : InfoHash → Entry
entry ih = record { key = ih; value = dummy }

-- what one hash puts: itself, and a V2 hash truncated too
unfoldable pub entries_of : InfoHash → List Entry → List Entry
entries_of ih rest =
    entry ih ∷ (if length ih == info_hash_v2_len then entry (truncate_v1 ih) ∷ rest else rest)

-- the body of the loop of `build`
abbrev pub with_hash : Result InfoHash → Result (List Entry) → Result (List Entry)
with_hash (ok ih) (ok rest) = ok (entries_of ih rest)
with_hash (ok ih) (err e) = err e
with_hash (ok ih) panic = panic
with_hash (err e) rest = err err_whitelist
with_hash panic rest = panic

unfoldable pub initial_entries : List Bytes → Result (List Entry)
initial_entries [] = ok []
initial_entries (h ∷ hs) = with_hash (new_info_hash h) (initial_entries hs)

module _ {S : Type 0} (d : DataStorage S) where
  abbrev filled : Listed → Result (Unit {0}) × S → Result Listed × S
  filled l (ok u, s) = (ok l, s)
  filled l (err e, s) = (err err_initial_data, s)
  filled l (panic, s) = (panic, s)

  abbrev pub put_initial : Listed → Result (List Entry) → Act S Listed
  put_initial l (ok []) s = (ok l, s)
  put_initial l (ok (e ∷ es)) s = filled l (d.put l.storage_ctx (e ∷ es) s)
  put_initial l (err e) s = (err e, s)
  put_initial l panic s = (panic, s)

  -- list.build, behind the decoding of the configuration
  unfoldable pub build : Config → Act S Listed
  build c s =
      put_initial
        (record {
          invert = c.invert;
          storage_ctx =
              if length c.storage_ctx == 0 then default_storage_ctx_name else c.storage_ctx;
        })
        (initial_entries c.hash_list) s

  -- `contains != l.Invert`
  abbrev verdict : Listed → Bool → Bool
  verdict l contains = if contains then not l.invert else l.invert

  -- An error of the second lookup, which comes with the value false, is not looked at.
  abbrev second_lookup : Listed → Bool → Result Bool × S → Result Bool × S
  second_lookup l contains (ok contains_v2, s) = (ok (verdict l (contains || contains_v2)), s)
  second_lookup l contains (err e, s) = (ok (verdict l contains), s)
  second_lookup l contains (panic, s) = (panic, s)

  abbrev first_lookup : Listed → InfoHash → Result Bool × S → Result Bool × S
  first_lookup l hash (ok contains, s) =
      if length hash == info_hash_v2_len
      then second_lookup l contains (d.contains l.storage_ctx (truncate_v1 hash) s)
      else (ok (verdict l contains), s)
  first_lookup l hash (err e, s) = (ok (verdict l false), s)
  first_lookup l hash (panic, s) = (panic, s)

  -- List.Approved; an error is logged, and the hash counts as not found
  unfoldable pub approved : Listed → InfoHash → Act S Bool
  approved l hash s = first_lookup l hash (d.contains l.storage_ctx hash s)

  unfoldable pub approve_torrent :
      Listed → Context → AnnounceRequest → AnnounceResponse → Act S (Context × AnnounceResponse)
  approve_torrent l ctx req resp s =
      and_then (approved l req.info_hash s)
        λ good s'. if good then (ok (ctx, resp), s') else (err err_torrent_unapproved, s')

  abbrev pub torrent_approval_hook : Listed → Hook S
  torrent_approval_hook l = record {
    handle_announce = approve_torrent l;
    handle_scrape = λ ctx req resp s. (ok (ctx, resp), s);
  }

abbrev pub left : {S T A : Type 0} → Act S A → Act (S × T) A
left f (s, t) = ((f s).0, ((f s).1, t))

abbrev pub right : {S T A : Type 0} → Act T A → Act (S × T) A
right f (s, t) = ((f t).0, (s, (f t).1))

-- a storage on one side of a state
abbrev pub on_left : {S T : Type 0} → DataStorage S → DataStorage (S × T)
on_left d = record {
  put = λ c es. left (d.put c es);
  contains = λ c k. left (d.contains c k);
  load = λ c k. left (d.load c k);
  delete = λ c ks. left (d.delete c ks);
  preservable = d.preservable;
}

abbrev pub on_right : {S T : Type 0} → DataStorage T → DataStorage (S × T)
on_right d = record {
  put = λ c es. right (d.put c es);
  contains = λ c k. right (d.contains c k);
  load = λ c k. right (d.load c k);
  delete = λ c ks. right (d.delete c ks);
  preservable = d.preservable;
}

-- The storage that `build` of the hook hands to its container: the registered one, or a new store in memory
-- beside it.
unfoldable pub chosen : {S : Type 0} → Bool → DataStorage S → DataStorage (S × DataStore)
chosen preserve d =
    if (if preserve then false else d.preservable) then on_right memory_data else on_left d
