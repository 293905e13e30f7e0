-- ===== src/Middleware/TorrentApproval/Approves.antt =====
-- middleware/torrentapproval: what the list of hashes lets pass, over any data storage that is a table.
use mochi.Base.{
  ◌≡◌, ◌≢◌, refl, sym, ap, ◌∙◌, Bool, false, ◌||◌, not, Option, none, some, List, [], ◌∷◌, ◌++◌,
  arith, ◌==◌, if◌then◌else◌, length, ℕ, ite, Bool-cases, inl, inr,
}
use mochi.Base.Bytes.{Bytes, Bytes-discrete, bytes_eq}
use mochi.Base.Map.{is_some}
use mochi.Result.{Error, Result, ok, err, panic, ◌>>=◌}
use mochi.Bittorrent.Hash.{
  InfoHash, info_hash_v2_len, new_info_hash, truncate_v1, hex_decode, hex_pair, hex_value,
}
use mochi.Bittorrent.Request.{AnnounceRequest, AnnounceResponse}
use mochi.Storage.Data.{changed_self, Entry, DataStorage, IsTable, stored}
use mochi.Middleware.Response.{Context}
use mochi.Middleware.TorrentApproval.{
  Config, Listed, default_storage_ctx_name, err_whitelist, err_torrent_unapproved, entries_of,
  initial_entries, with_hash, put_initial, build, approved, approve_torrent,
}

-- whether a key is one of the hashes, or the truncated form of one
unfoldable pub covers : InfoHash → List InfoHash → Bool
covers k [] = false
covers k (h ∷ hs) = (bytes_eq k h || bytes_eq k (truncate_v1 h)) || covers k hs

-- A hash is listed if it, or its truncated form, is covered.
unfoldable pub is_listed : InfoHash → List InfoHash → Bool
is_listed ih hs = covers ih hs || covers (truncate_v1 ih) hs

-- The texts of a list are read as these hashes.
abbrev pub AreRead : List Bytes → List InfoHash → Type 0
AreRead [] [] = Unit
AreRead (b ∷ bs) (h ∷ hs) = (new_info_hash b ≡ ok h) × AreRead bs hs
AreRead [] (h ∷ hs) = ⊥
AreRead (b ∷ bs) [] = ⊥

-- the context that a container of this configuration uses
abbrev pub context_of : Config → Bytes
context_of c = if length c.storage_ctx == 0 then default_storage_ctx_name else c.storage_ctx

unfoldable has_key : Bytes → List Entry → Bool
has_key k [] = false
has_key k (e ∷ es) = bytes_eq k e.key || has_key k es

is_some-stored :
    (es : List Entry) (t : Bytes → Option Bytes) (k : Bytes)
    → is_some (stored es t k) ≡ (is_some (t k) || has_key k es)
unfolding has_key bytes_eq
is_some-stored [] t k = ground arith
is_some-stored (e ∷ es) t k =
    ground (arith, is_some-stored es (λ j. ite (Bytes-discrete j e.key) (some e.value) (t j)) k)

has_key-entries_of :
    (k : Bytes) (h : InfoHash) (rest : List Entry)
    → has_key k (entries_of h rest)
      ≡ ((bytes_eq k h || bytes_eq k (truncate_v1 h)) || has_key k rest)
unfolding has_key entries_of truncate_v1
has_key-entries_of k h rest = ground arith

initial_entries_total :
    (bs : List Bytes) (hs : List InfoHash)
    → AreRead bs hs
    → (es : List Entry) × (initial_entries bs ≡ ok es) × ((k : Bytes) → has_key k es ≡ covers k hs)
unfolding initial_entries covers
initial_entries_total [] [] r = ([], refl, λ k. unfold has_key in refl)
initial_entries_total (b ∷ bs) (h ∷ hs) (e, r) =
    let (es, e', k) = initial_entries_total bs hs r in
    (
      entries_of h es,
      rw (e, e') refl,
      λ j.
          has_key-entries_of j h es
          ∙ ap (λ x. (bytes_eq j h || bytes_eq j (truncate_v1 h)) || x) (k j),
    )
initial_entries_total [] (h ∷ hs) r = absurd r
initial_entries_total (b ∷ bs) [] r = absurd r

truncate_same : (ih : InfoHash) → (length ih == info_hash_v2_len) ≡ false → truncate_v1 ih ≡ ih
unfolding truncate_v1
truncate_same ih e = rw e refl

hex_decode-ne-panic : (bs : Bytes) → hex_decode bs ≢ panic
unfolding hex_decode
hex_decode-ne-panic [] = λ e. cc
hex_decode-ne-panic (p ∷ []) = λ e. cc
hex_decode-ne-panic (p ∷ q ∷ bs) =
    go (hex_value p) (hex_value q) (hex_decode bs) (hex_decode-ne-panic bs)
  where
    go :
        (a b : Option ℕ) (r : Result Bytes)
        → r ≢ panic
        → (hex_pair a b >>= λ x. r >>= λ xs. ok (x ∷ xs)) ≢ panic
    go (some a) (some b) (ok r) n = λ e. cc
    go (some a) (some b) (err r) n = λ e. cc
    go (some a) (some b) panic n = absurd (n refl)
    go none b r n = λ e. cc
    go (some a) none r n = λ e. cc

new_info_hash-ne-panic : (bs : Bytes) → new_info_hash bs ≢ panic
unfolding new_info_hash
new_info_hash-ne-panic bs = elim (Bool-cases (length bs == 20 || length bs == 32)) [
  | inl e ↦ rw e λ q. cc
  | inr e ↦ rw e (elim (Bool-cases (length bs == 40 || length bs == 64)) [
    | inl e' ↦ rw e' (hex_decode-ne-panic bs)
    | inr e' ↦ rw e' λ q. cc
  ])
]

initial_entries-err :
    (before : List Bytes) (bad : Bytes) (behind : List Bytes) (e : Error)
    → new_info_hash bad ≡ err e
    → initial_entries (before ++ bad ∷ behind) ≡ err err_whitelist
unfolding initial_entries
initial_entries-err [] bad behind e h = rw h refl
initial_entries-err (b ∷ before) bad behind e h =
    rw (initial_entries-err before bad behind e h) (go (new_info_hash b) (new_info_hash-ne-panic b))
  where
    go : (r : Result InfoHash) → r ≢ panic → with_hash r (err err_whitelist) ≡ err err_whitelist
    go (ok ih) n = refl
    go (err e) n = refl
    go panic n = absurd (n refl)

module _ {S : Type 0} (Good : S → Type 0) (view : S → Bytes → Bytes → Option Bytes)
    (d : DataStorage S) (table : IsTable Good view d) where
  pub approved_reads :
      (l : Listed) (ih : InfoHash) (s : S)
      → Good s
      → approved d l ih s ≡ (
        ok (
            if is_some (view s l.storage_ctx ih) || is_some (view s l.storage_ctx (truncate_v1 ih))
            then not l.invert
            else l.invert),
        s,
      )
  unfolding approved
  approved_reads l ih s g =
      rw (table.contains_reads l.storage_ctx ih s g)
        (elim (Bool-cases (length ih == info_hash_v2_len)) [
          | inl e ↦ rw (e, table.contains_reads l.storage_ctx (truncate_v1 ih) s g) refl
          | inr e ↦ rw (e, truncate_same ih e) (ground arith)
        ])

  -- what the table of a context covers, once a list is put
  abbrev Covered : Bytes → List InfoHash → S → S → Type 0
  Covered c hs s s' = (k : Bytes) → is_some (view s' c k) ≡ (is_some (view s c k) || covers k hs)

  put_covers :
      (l : Listed) (hs : List InfoHash) (es : List Entry) (s : S)
      → Good s
      → ((k : Bytes) → has_key k es ≡ covers k hs)
      → (s' : S) × (put_initial d l (ok es) s ≡ (ok l, s'))
        × Good s'
        × Covered l.storage_ctx hs s s'
  unfolding has_key
  put_covers l hs [] s g h = (s, refl, g, λ k. rw (sym (h k)) (ground arith))
  put_covers l hs (e ∷ es) s g h =
      let (s', q, g', v) = table.put_stores l.storage_ctx (e ∷ es) s g in
      (
        s',
        rw q refl,
        g',
        λ k.
            ap is_some (v l.storage_ctx k ∙ changed_self l.storage_ctx (stored (e ∷ es)) (view s) k)
            ∙ is_some-stored (e ∷ es) (view s l.storage_ctx) k
            ∙ ap (λ b. is_some (view s l.storage_ctx k) || b) (h k),
      )

  -- A list of hashes that can be read, in a context that is empty before, builds a container whose hook lets
  -- an announce pass, unchanged, exactly if its hash is listed, or is not where the list is inverted, and
  -- refuses every other as unapproved: in the state after the build, and in each later one where the table
  -- of the context is still the same. A hash is listed if it or its first 20 bytes are a hash of the list,
  -- or the first 20 bytes of one. The storage is a table of tables.
  pub build-approve_torrent :
      (c : Config) (hs : List InfoHash) (s : S)
      → Good s
      → AreRead c.hash_list hs
      → ((k : Bytes) → view s (context_of c) k ≡ none)
      → (l : Listed) × (s' : S) × (build d c s ≡ (ok l, s'))
        × Good s'
        × ((ctx : Context) (req : AnnounceRequest) (resp : AnnounceResponse) (t : S)
            → Good t
            → ((k : Bytes) → view t (context_of c) k ≡ view s' (context_of c) k)
            → approve_torrent d l ctx req resp t ≡ (
                if is_listed req.info_hash hs
                then (if c.invert then (err err_torrent_unapproved, t) else (ok (ctx, resp), t))
                else (if c.invert then (ok (ctx, resp), t) else (err err_torrent_unapproved, t))))
  unfolding build approve_torrent is_listed
  build-approve_torrent c hs s g r fresh =
      let (es, e, k) = initial_entries_total c.hash_list hs r in
      let l : Listed = record { invert = c.invert; storage_ctx = context_of c } in
      let (s', q, g', v) = put_covers l hs es s g k in
      let found : (i : Bytes) → is_some (view s' (context_of c) i) ≡ covers i hs =
        λ i. v i ∙ ap (λ o. is_some o || covers i hs) (fresh i) in
      (
        l,
        s',
        rw e q,
        g',
        λ ctx req resp t gt same.
            rw
              (
                approved_reads l req.info_hash t gt,
                same req.info_hash,
                same (truncate_v1 req.info_hash),
                found req.info_hash,
                found (truncate_v1 req.info_hash),
              )
              (ground arith),
      )

-- A list that has a text which is no hash fails to build, and stores nothing.
pub build-err :
    {S : Type 0} (d : DataStorage S) (c : Config) (before : List Bytes) (bad : Bytes)
    (behind : List Bytes) (e : Error) (s : S)
    → c.hash_list ≡ before ++ bad ∷ behind
    → new_info_hash bad ≡ err e
    → build d c s ≡ (err err_whitelist, s)
unfolding build
build-err d c before bad behind e s q h = rw (q, initial_entries-err before bad behind e h) refl
