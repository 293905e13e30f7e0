-- ===== src/Middleware/ClientApproval.antt =====
-- middleware/clientapproval: a hook that refuses announces by the client that the peer identifier names.
use mochi.Base.{
  ℕ, zero, suc, ◌≡◌, ◌≢◌, refl, ap, ◌∙◌, ◌++◌, Bool, true, false, ◌||◌, not, List, [], ◌∷◌, arith,
  ◌==◌, if◌then◌else◌, length, take, All,
}
use mochi.Base.Bytes.{Bytes, Bytes-discrete, bytes_eq}
use mochi.Base.Map
use mochi.Base.Map.{Map, get-insert}
use mochi.Result.{Error, client_error, other_error, Result, ok, err, panic, Act}
use mochi.Bittorrent.Peer.{PeerId}
use mochi.Bittorrent.Request.{AnnounceRequest, AnnounceResponse}
use mochi.Middleware.Response.{Context}
use mochi.Middleware.Logic.{Hook}

abbrev pub ClientId : Type 0
ClientId = Bytes

abbrev pub err_client_unapproved : Error
err_client_unapproved = client_error "client not allowed by mochi"

-- The text of the source names the client too.
abbrev pub err_client_id_size : Error
err_client_id_size = other_error "client ID must be 6 bytes"

-- A peer identifier has 20 bytes, so the slices are in range.
unfoldable pub new_client_id : PeerId → ClientId
new_client_id [] = []
new_client_id (c ∷ pid) = if c == b'-' then take 6 pid else take 6 (c ∷ pid)

pub record ClientApproval : Type 0 where
  pub client_ids : Map ClientId Bool
  pub invert : Bool

-- the loop of `build`
unfoldable pub add_clients : List Bytes → Map ClientId Bool → Result (Map ClientId Bool)
add_clients [] ids = ok ids
add_clients (c ∷ cs) ids =
    let rest = add_clients cs (Map.insert Bytes-discrete c true ids) in
    if length c == 6 then rest else err err_client_id_size

abbrev approval : Bool → Result (Map ClientId Bool) → Result ClientApproval
approval inverted (ok ids) = ok (record { client_ids = ids; invert = inverted })
approval inverted (err e) = err e
approval inverted panic = panic

-- `build`, behind the decoding of the configuration
unfoldable pub build : List Bytes → Bool → Result ClientApproval
build client_id_list inverted = approval inverted (add_clients client_id_list [])

abbrev same : Bool → Bool → Bool
same a b = if a then b else not b

unfoldable pub approve_announce :
    {S : Type 0}
    → ClientApproval
    → Context
    → AnnounceRequest
    → AnnounceResponse
    → Act S (Context × AnnounceResponse)
approve_announce h ctx req resp s =
    if same (Map.contains Bytes-discrete (new_client_id req.peer.id) h.client_ids) h.invert
    then (err err_client_unapproved, s)
    else (ok (ctx, resp), s)

abbrev pub client_approval_hook : {S : Type 0} → ClientApproval → Hook S
client_approval_hook h = record {
  handle_announce = approve_announce h;
  handle_scrape = λ ctx req resp s. (ok (ctx, resp), s);
}

-- whether the client stands on the list
unfoldable pub is_listed : ClientId → List Bytes → Bool
is_listed c [] = false
is_listed c (d ∷ ds) = bytes_eq c d || is_listed c ds

contains-insert :
    (c d : ClientId) (ids : Map ClientId Bool)
    → Map.contains Bytes-discrete c (Map.insert Bytes-discrete d true ids)
      ≡ (bytes_eq c d || Map.contains Bytes-discrete c ids)
unfolding bytes_eq
contains-insert c d ids = ground (arith, get-insert Bytes-discrete c d true ids)

add_clients_total :
    (cs : List Bytes) (ids : Map ClientId Bool)
    → All (λ c. length c ≡ 6) cs
    → (ids' : Map ClientId Bool) × (add_clients cs ids ≡ ok ids')
      × ((c : ClientId)
          → Map.contains Bytes-discrete c ids'
            ≡ (Map.contains Bytes-discrete c ids || is_listed c cs))
unfolding add_clients is_listed
add_clients_total [] ids h = (ids, refl, λ c. ground arith)
add_clients_total (d ∷ ds) ids h =
    let (ids', e, k) = add_clients_total ds (Map.insert Bytes-discrete d true ids) h.1 in
    (ids', rw h.0 e, λ c. ground (arith, k c, contains-insert c d ids))

-- the decision on a client
abbrev pub decided :
    {S : Type 0}
    → Bool
    → Bool
    → Context × AnnounceResponse
    → S
    → Result (Context × AnnounceResponse) × S
decided listed inverted passed s =
    if listed
    then (if inverted then (err err_client_unapproved, s) else (ok passed, s))
    else (if inverted then (ok passed, s) else (err err_client_unapproved, s))

build-decided :
    {S : Type 0} (cs : List Bytes) (inverted : Bool)
    → All (λ c. length c ≡ 6) cs
    → (h : ClientApproval) × (build cs inverted ≡ ok h)
      × ((ctx : Context) (req : AnnounceRequest) (resp : AnnounceResponse) (s : S)
          → approve_announce h ctx req resp s
            ≡ decided (is_listed (new_client_id req.peer.id) cs) inverted (ctx, resp) s)
unfolding build approve_announce
build-decided cs inverted l =
    let (ids, e, k) = add_clients_total cs [] l in
    (
      record { client_ids = ids; invert = inverted },
      rw e refl,
      λ ctx req resp s. unfold Map.get in ground (arith, k (new_client_id req.peer.id)),
    )

-- A client of six bytes, which does not begin with a dash where it stands at the very beginning.
abbrev pub IsClient : Bool → ClientId → Type 0
IsClient dashed [] = ⊥
IsClient true (c ∷ cs) = length (c ∷ cs) ≡ 6
IsClient false (c ∷ cs) = (length (c ∷ cs) ≡ 6) × (c ≢ b'-')

-- An announce by a peer whose identifier names a client, behind a dash or at the very beginning.
abbrev pub announced_by : Bool → ClientId → Bytes → AnnounceRequest → AnnounceRequest
announced_by dashed client rest req = record req {
  peer = record req.peer { id = if dashed then b'-' ∷ (client ++ rest) else client ++ rest };
}

take-client : (n : ℕ) (client rest : Bytes) → length client ≡ n → take n (client ++ rest) ≡ client
take-client n [] rest h = ground (arith, h)
take-client zero (c ∷ cs) rest h = absurd (omega (arith, h))
take-client (suc n) (c ∷ cs) rest h = ap (λ xs. c ∷ xs) (take-client n cs rest (omega (arith, h)))

new_client_id-client :
    (dashed : Bool) (client rest : Bytes)
    → IsClient dashed client
    → new_client_id (if dashed then b'-' ∷ (client ++ rest) else client ++ rest) ≡ client
unfolding new_client_id
new_client_id-client true [] rest h = absurd h
new_client_id-client false [] rest h = absurd h
new_client_id-client true (c ∷ cs) rest h = take-client 6 (c ∷ cs) rest h
new_client_id-client false (c ∷ cs) rest (h, k) =
    let client = take-client 6 (c ∷ cs) rest h in ground (arith, k, client)

-- A list of clients of six bytes makes a hook, which lets an announce pass, unchanged, exactly if the client
-- of its peer identifier (six bytes behind a dash, or the first six where there is none) stands on the list,
-- or does not where the list is inverted; it refuses every other announce as unapproved.
pub build-approve_announce :
    {S : Type 0} (cs : List Bytes) (inverted : Bool)
    → All (λ c. length c ≡ 6) cs
    → (dashed : Bool) (client rest : Bytes) → IsClient dashed client
    → (h : ClientApproval) × (build cs inverted ≡ ok h)
      × ((ctx : Context) (req : AnnounceRequest) (resp : AnnounceResponse) (s : S)
          → approve_announce h ctx (announced_by dashed client rest req) resp s
            ≡ decided (is_listed client cs) inverted (ctx, resp) s)
build-approve_announce cs inverted l dashed client rest k =
    let (h, e, says) = build-decided cs inverted l in
    (
      h,
      e,
      λ ctx req resp s.
          says ctx (announced_by dashed client rest req) resp s
          ∙ ap (λ c. decided (is_listed c cs) inverted (ctx, resp) s)
              (new_client_id-client dashed client rest k),
    )
