-- ===== src/Storage/Redis/Answers.antt =====
-- storage/redis/storage.go: what GetPeers answers, whatever the client does.
use mochi.Base.{
  ℕ, ◌+◌, ◌≤◌, ◌≢◌, Bool, true, false, Option, none, some, List, [], ◌∷◌, arith, leb, if◌then◌else◌,
  length, length-append, Bool-cases, inl, inr,
}
use mochi.Base.Bytes.{Bytes}
use mochi.Result.{Error, Result, ok, err, panic, Act, Yields, and_then}
use mochi.Bittorrent.Peer.{Peer}
use mochi.Bittorrent.Hash.{InfoHash}
use mochi.Storage.Redis.{is_nil, unpack_peer, no_result_err}
use mochi.Storage.Redis.Read.{
  keep, decoded, cleaned, keys_of, collected, collect_keys, settled, get_peers,
}

length-keep :
    (r : Result Peer) (ps : List Peer) (n : ℕ) → length ps ≤ n → length (keep r ps) ≤ n + 1
length-keep (ok p) ps n h = omega (arith, h)
length-keep (err e) ps n h = omega (arith, h)
length-keep panic ps n h = omega (arith, h)

length-decoded : (ids : List Bytes) → length (decoded ids) ≤ length ids
unfolding decoded
length-decoded [] = omega arith
length-decoded (id ∷ ids) =
    omega (arith, length-keep (unpack_peer id) (decoded ids) (length ids) (length-decoded ids))

-- A command that does not panic, and names as many fields as it is asked for at most, or fails.
abbrev pub IsBounded : {S : Type 0} → (Bytes → ℕ → Act S (List Bytes)) → Type 0
IsBounded {S = S} members =
    (k : Bytes) (n : ℕ) (s : S) → Yields (λ ids. length ids ≤ n) (members k n s).0

module _ {S : Type 0} (members : Bytes → ℕ → Act S (List Bytes)) (bounded : IsBounded members) where
  cleaned_bounded :
      (n : ℕ) (o : Result (List Bytes) × S)
      → Yields (λ ids. length ids ≤ n) o.0
      → Yields (λ ids. length ids ≤ n) (cleaned [] o).0
  unfolding no_result_err
  cleaned_bounded n (ok ids, s) h = h
  cleaned_bounded n (err e, s) h = none_or (is_nil e)
    where
      none_or :
          (b : Bool)
          → Yields
              (λ ids. length ids ≤ n)
              (if◌then◌else◌ {A = Result (List Bytes)} b (ok []) (err e))
      none_or true = omega arith
      none_or false = tt
  cleaned_bounded n (panic, s) h = absurd h

  collected_bounded :
      (total max_count : ℕ) (out : List Peer)
      (next : ℕ → List Peer → S → Result (List Peer × Option Error) × S)
      (o : Result (List Bytes) × S)
      → length out + max_count ≤ total
      → Yields (λ ids. length ids ≤ max_count) o.0
      → ((n : ℕ) (out' : List Peer) (s : S)
          → length out' + n ≤ total
          → Yields (λ f. length f.0 ≤ total) (next n out' s).0)
      → Yields (λ f. length f.0 ≤ total) (collected members max_count out next o).0
  collected_bounded total max_count out next (ok ids, s) h k g =
      elim (Bool-cases (leb max_count (length (decoded ids)))) [
        | inl e ↦ rw e (omega (arith, h, k, length-decoded ids, length-append out (decoded ids)))
        | inr e ↦
            rw e
              (g _ _ s (omega (arith, h, k, length-decoded ids, length-append out (decoded ids))))
      ]
  collected_bounded total max_count out next (err e, s) h k g = omega (arith, h)
  collected_bounded total max_count out next (panic, s) h k g = absurd k

  collect_keys_bounded :
      (total : ℕ) (ks : List Bytes) (max_count : ℕ) (out : List Peer) (s : S)
      → length out + max_count ≤ total
      → Yields (λ f. length f.0 ≤ total) (collect_keys members ks max_count out s).0
  unfolding collect_keys
  collect_keys_bounded total [] max_count out s h = omega (arith, h)
  collect_keys_bounded total (k ∷ ks) max_count out s h =
      collected_bounded total max_count out (collect_keys members ks)
        (cleaned [] (members k max_count s)) h
        (cleaned_bounded max_count (members k max_count s) (bounded k max_count s))
        (collect_keys_bounded total ks)

  settled_offers :
      (total : ℕ) (o : Result (List Peer × Option Error) × S)
      → Yields (λ f. length f.0 ≤ total) o.0
      → Yields
          (λ ps. (ps ≢ []) × (length ps ≤ total))
          (and_then {B = List Peer} o (λ found s'. (settled found, s'))).0
  settled_offers total (ok ([], none), s) h = tt
  settled_offers total (ok ([], some e), s) h = tt
  settled_offers total (ok (p ∷ ps, e), s) h = (λ q. absurd (cc), h)
  settled_offers total (err e, s) h = tt
  settled_offers total (panic, s) h = absurd h

  pub get_peers_bounds :
      (ih : InfoHash) (for_seeder : Bool) (max_count : ℕ) (v6 : Bool) (s : S)
      → Yields
          (λ ps. (ps ≢ []) × (length ps ≤ max_count))
          (get_peers members ih for_seeder max_count v6 s).0
  unfolding get_peers
  get_peers_bounds ih for_seeder max_count v6 s =
      settled_offers max_count _
        (collect_keys_bounded max_count (keys_of ih for_seeder v6) max_count [] s (omega arith))
