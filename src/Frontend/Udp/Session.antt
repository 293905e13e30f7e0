-- ===== src/Frontend/Udp/Session.antt =====
-- frontend/udp/frontend.go: what a client reaches with a connection ID and without one.
use mochi.Base.{
  take_of_length-le, take-append_exact, drop-append_exact, ℕ, ◌+◌, ◌/◌, ◌%◌, ◌^◌, ◌≤◌, ◌<◌, ◌≡◌,
  refl, sym, ap, Bool, true, false, Bool-cases, ◌⊎◌, inl, inr, none, some, ◌++◌, arith, length,
  length-append, tests, ==_iff, ◌∙◌, ltb, ◌==◌, take, drop,
}
use mochi.Base.Bytes.{Bytes, put_uint32, from_be, uint_be, Bytes-discrete, bytes_eq, bytes_eq_iff}
use mochi.Result.{Result, ok, err, panic}
use mochi.Netip.{Addr}
use mochi.Frontend.Udp.ConnectionId.{
  generate, validate, validate_total, validate-generate, length-token,
}
use mochi.Pkg.Xorshift.{xor_shift_64_s}
use mochi.Frontend.Udp.Parser.{Request, initial_connection_id, connect_action_id}
use mochi.Frontend.Udp.Writer.{second, write_connection_id}
use mochi.Frontend.Udp.Handle.{
  Server, Moment, Reply, fails, handle_connect, dispatch, guarded, handle_request,
}

-- The storage is as before, there is no task, and success is an answer to a connect request.
abbrev pub IsInert : {S : Type 0} → Request → S → Result Reply × S → Type 0
IsInert r s (ok reply, s') =
    (s' ≡ s)
    × (reply.task ≡ none)
    × (reply.error ≡ none
        → (uint_be (take 4 (drop 8 r.packet)) ≡ connect_action_id)
          × (take 8 r.packet ≡ initial_connection_id))
IsInert r s (err e, s') = ⊥
IsInert r s (panic, s') = ⊥

module _ {S : Type 0} (f : Server S) where
  -- the connection ID that a connect request is answered with
  abbrev pub issued : Addr → Moment → Bytes
  issued ip m = (generate f.mac m.random f.generator ip (m.now / second)).0

  abbrev pub connecting : Addr → Bytes → Request
  connecting ip tx_id = record {
    packet = initial_connection_id ++ (put_uint32 connect_action_id ++ tx_id);
    ip = ip;
  }

  abbrev pub welcome : Addr → Moment → Bytes → Reply
  welcome ip m tx_id = record {
    action_name = "connect";
    error = none;
    written = some (write_connection_id tx_id (issued ip m));
    task = none;
  }

  -- a request with the connection ID `conn_id` reaches the test of that ID
  reaches :
      (r : Request) (m : Moment) (conn_id body : Bytes) (valid : Bool) (s : S)
      → length conn_id ≡ 8
      → 8 ≤ length body
      → r.packet ≡ conn_id ++ body
      → validate f.mac f.generator conn_id r.ip (m.now / second) ≡ ok valid
      → handle_request f r m s
        ≡ guarded f r m (take 4 (drop 4 body)) (ok valid) conn_id (uint_be (take 4 body)) s
  unfolding handle_request
  reaches r m conn_id body valid s eight enough e v =
      let t : take 8 r.packet ≡ conn_id = rw e (take-append_exact 8 conn_id body (sym eight)) in
      let d : (k n : ℕ) → k ≡ 8 + n → drop k r.packet ≡ drop n body =
        λ k n h. rw e (drop-append_exact k n conn_id body (omega (arith, h, eight))) in
      let l : ltb (length r.packet) 16 ≡ false =
        rw e (ground (arith, length-append conn_id body)) in
      rw (l, t, d 8 0 refl, d 12 4 refl, v) refl

  guarded_valid :
      (r : Request) (m : Moment) (tx_id conn_id : Bytes) (action_id : ℕ) (s : S)
      → guarded f r m tx_id (ok true) conn_id action_id s ≡ dispatch f r m tx_id conn_id action_id s
  unfolding guarded
  guarded_valid r m tx_id conn_id action_id s = elim (Bool-cases (action_id == connect_action_id)) [
    | inl e ↦ rw e refl
    | inr e ↦ rw e refl
  ]

  module _ (long : (bs : Bytes) → 5 ≤ length (f.mac bs)) where
    length-issued : (ip : Addr) (m : Moment) → length (issued ip m) ≡ 8
    unfolding generate
    length-issued ip m =
        omega
          (arith, length-token f.mac long ((xor_shift_64_s m.random).0 % 256) (m.now / second) ip)

    connected :
        (r : Request) (m : Moment) (tx_id : Bytes) (valid : Bool) (s : S)
        → guarded f r m tx_id (ok valid) initial_connection_id connect_action_id s
          ≡ (ok (welcome r.ip m tx_id), s)
    unfolding guarded dispatch handle_connect bytes_eq Bytes-discrete
    connected r m tx_id valid s = refl

    -- A connect request with a transaction ID of four bytes is answered with a connection ID, and every
    -- request of that ID and eight bytes or more behind it, from the same address, in the same block of
    -- 2 ^ 16 seconds and not behind by the clock skew, reaches the handler of its action. The keyed hash has
    -- five bytes at least.
    pub handle_request-connected :
        (ip : Addr) (m m' : Moment) (tx_id body : Bytes) (s s' : S)
        → length tx_id ≡ 4
        → 8 ≤ length body
        → m'.now / second / 2 ^ 16 ≡ m.now / second / 2 ^ 16
        → m.now / second < m'.now / second + f.generator.max_clock_skew
        → (handle_request f (connecting ip tx_id) m s ≡ (ok (welcome ip m tx_id), s))
          × (handle_request f (record { packet = issued ip m ++ body; ip = ip }) m' s'
              ≡ dispatch f
                  (record { packet = issued ip m ++ body; ip = ip })
                  m'
                  (take 4 (drop 4 body))
                  (issued ip m)
                  (uint_be (take 4 body))
                  s')
    unfolding put_uint32 from_be
    handle_request-connected ip m m' tx_id body s s' four enough block skew =
        let r = connecting ip tx_id in
        let (valid, v) =
          validate_total f.mac f.generator initial_connection_id ip (m.now / second) refl in
        let e =
          reaches r m initial_connection_id (put_uint32 connect_action_id ++ tx_id) valid s refl
            (omega (arith, four)) refl v in
        let t : take 4 tx_id ≡ tx_id = take_of_length-le 4 tx_id (omega (arith, four)) in
        (
          e
              ∙ ap (λ x. guarded f r m x (ok valid) initial_connection_id connect_action_id s) t
              ∙ connected r m tx_id valid s,
          reaches (record { packet = issued ip m ++ body; ip = ip }) m' (issued ip m) body true s'
                (length-issued ip m) enough refl
                (validate-generate f.mac long m.random f.generator ip (m.now / second)
                  (m'.now / second) block skew)
              ∙ guarded_valid _ m' _ _ _ s',
        )

  handle_connect-IsInert :
      (r : Request) (m : Moment) (tx_id : Bytes) (s : S)
      → uint_be (take 4 (drop 8 r.packet)) ≡ connect_action_id
      → IsInert r s (ok (handle_connect f r m tx_id (take 8 r.packet)), s)
  unfolding handle_connect fails
  handle_connect-IsInert r m tx_id s a =
      elim (Bool-cases (bytes_eq (take 8 r.packet) initial_connection_id)) [
        | inl e ↦ rw e (refl, refl, λ n. (a, (bytes_eq_iff _ _).0 e))
        | inr e ↦ rw e (refl, refl, λ n. absurd (cc))
      ]

  guarded-IsInert :
      (r : Request) (m : Moment) (tx_id : Bytes) (s : S)
      → IsInert r s
          (guarded f r m tx_id (ok false) (take 8 r.packet) (uint_be (take 4 (drop 8 r.packet))) s)
  unfolding guarded dispatch fails
  guarded-IsInert r m tx_id s =
      elim (Bool-cases (uint_be (take 4 (drop 8 r.packet)) == connect_action_id)) [
        | inl e ↦ rw e (handle_connect-IsInert r m tx_id s ((==_iff _ _).0 e))
        | inr e ↦ rw e (refl, refl, λ n. absurd (cc))
      ]

  -- A request whose packet is shorter than 16 bytes, or whose connection ID does not validate, leaves the
  -- storage as it is, starts no task, and is answered without an error only when it asks, with the initial
  -- connection ID, for one.
  pub handle_request-IsInert :
      (r : Request) (m : Moment) (s : S)
      → (length r.packet < 16)
        ⊎ (validate f.mac f.generator (take 8 r.packet) r.ip (m.now / second) ≡ ok false)
      → IsInert r s (handle_request f r m s)
  unfolding handle_request fails
  handle_request-IsInert r m s h = elim (Bool-cases (ltb (length r.packet) 16)) [
    | inl short ↦ rw short (refl, refl, λ n. absurd (cc))
    | inr long ↦ elim h [
      | inl short ↦ absurd (grind tests)
      | inr v ↦ rw (long, v) (guarded-IsInert r m (take 4 (drop 12 r.packet)) s)
    ]
  ]
