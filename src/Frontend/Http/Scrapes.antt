-- ===== src/Frontend/Http/Scrapes.antt =====
-- frontend/http/writer.go: what a client reads from the response to a scrape.
use mathlib.Core.List.{append_assoc, append-nil, Perm}
use mathlib.Core.List.Perm
use mochi.Base.{
  ℕ, suc, ◌+◌, ◌*◌, ◌≤◌, ◌≡◌, refl, sym, ap, ◌∙◌, true, false, some, List, [], ◌∷◌, ◌++◌, arith,
  ltb, length, Bool-cases, inl, inr,
}
use mochi.Base.Bytes.{Bytes}
use mochi.Result.{codes}
use mochi.Bittorrent.Request.{Scrape, ScrapeResponse}
use mochi.Frontend.Http.Decimal.{digits, itoa}
use mochi.Frontend.Http.Writer.{
  less, insert_scrape, sort_scrapes, sorted, write_scrapes, write_scrape_response,
}
use mochi.Frontend.Http.Bencode.{
  Value, int, dict, Fields, no_fields, field, encode, encode_fields, encode_str, decode, size,
  fields_size, decode-encode,
}
use mochi.Frontend.Http.Answers.{int_field}

-- What a response says of each hash.
abbrev pub scrape_value : Scrape → Value
scrape_value s = dict (
    field (codes "complete") (int s.complete) (
      field (codes "downloaded") (int s.snatches)
        (field (codes "incomplete") (int s.incomplete) no_fields)))

abbrev pub files : List Scrape → Fields
files [] = no_fields
files (s ∷ ss) = field s.info_hash (scrape_value s) (files ss)

abbrev pub response_value : List Scrape → Value
response_value ss = dict (field (codes "files") (dict (files ss)) no_fields)

-- The hashes ascend.
abbrev pub IsAscending : List Scrape → Type 0
IsAscending [] = Unit
IsAscending (s ∷ []) = Unit
IsAscending (s ∷ t ∷ ts) = (less t.info_hash s.info_hash ≡ false) × IsAscending (t ∷ ts)

less_asymm : (a b : Bytes) → less a b ≡ true → less b a ≡ false
unfolding less
less_asymm [] [] h = refl
less_asymm [] (b ∷ bs) h = refl
less_asymm (a ∷ aa) [] h = absurd (cc)
less_asymm (a ∷ aa) (b ∷ bs) h = ground (arith, less_asymm aa bs)

insert_scrape-perm : (s : Scrape) (ts : List Scrape) → Perm (insert_scrape s ts) (s ∷ ts)
unfolding insert_scrape
insert_scrape-perm s [] = Perm.rfl
insert_scrape-perm s (t ∷ ts) = elim (Bool-cases (less t.info_hash s.info_hash)) [
  | inl e ↦ rw e (Perm.trans (Perm.cons' refl (insert_scrape-perm s ts)) (Perm.swap s t ts))
  | inr e ↦ rw e Perm.rfl
]

sort_scrapes-perm : (ss : List Scrape) → Perm (sort_scrapes ss) ss
unfolding sort_scrapes
sort_scrapes-perm [] = Perm.rfl
sort_scrapes-perm (s ∷ ss) =
    Perm.trans (insert_scrape-perm s (sort_scrapes ss)) (Perm.cons' refl (sort_scrapes-perm ss))

sorted-perm : (ss : ScrapeResponse) → Perm (sorted ss) ss
unfolding sorted
sorted-perm ss = elim (Bool-cases (ltb 1 (length ss))) [
  | inl e ↦ rw e (sort_scrapes-perm ss)
  | inr e ↦ rw e Perm.rfl
]

insert_scrape-IsAscending :
    (s : Scrape) (ts : List Scrape) → IsAscending ts → IsAscending (insert_scrape s ts)
unfolding insert_scrape
insert_scrape-IsAscending s [] h = tt
insert_scrape-IsAscending s (t ∷ []) h = ground (arith, less_asymm t.info_hash s.info_hash)
insert_scrape-IsAscending s (t ∷ u ∷ ts) h =
    let rest = insert_scrape-IsAscending s (u ∷ ts) h.1 in
    ground (arith, less_asymm t.info_hash s.info_hash, rest)

sort_scrapes-IsAscending : (ss : List Scrape) → IsAscending (sort_scrapes ss)
unfolding sort_scrapes
sort_scrapes-IsAscending [] = tt
sort_scrapes-IsAscending (s ∷ ss) =
    insert_scrape-IsAscending s (sort_scrapes ss) (sort_scrapes-IsAscending ss)

short-IsAscending : (ss : List Scrape) → ltb 1 (length ss) ≡ false → IsAscending ss
short-IsAscending [] h = tt
short-IsAscending (s ∷ []) h = tt
short-IsAscending (s ∷ t ∷ ss) h = absurd (ground arith)

sorted-IsAscending : (ss : ScrapeResponse) → IsAscending (sorted ss)
unfolding sorted
sorted-IsAscending ss = elim (Bool-cases (ltb 1 (length ss))) [
  | inl e ↦ rw e (sort_scrapes-IsAscending ss)
  | inr e ↦ rw e (short-IsAscending ss e)
]

length-insert_scrape :
    (s : Scrape) (ts : List Scrape) → length (insert_scrape s ts) ≡ suc (length ts)
unfolding insert_scrape
length-insert_scrape s [] = refl
length-insert_scrape s (t ∷ ts) = ground (arith, length-insert_scrape s ts)

length-sort_scrapes : (ss : List Scrape) → length (sort_scrapes ss) ≡ length ss
unfolding sort_scrapes
length-sort_scrapes [] = refl
length-sort_scrapes (s ∷ ss) =
    length-insert_scrape s (sort_scrapes ss) ∙ ap suc (length-sort_scrapes ss)

length-sorted : (ss : ScrapeResponse) → length (sorted ss) ≡ length ss
unfolding sorted
length-sorted ss = ground (arith, length-sort_scrapes ss)

files_size : (ss : List Scrape) → fields_size (files ss) ≡ 9 * length ss + 1
unfolding fields_size size
files_size [] = omega arith
files_size (s ∷ ss) = omega (arith, files_size ss)

scrape_value-encode :
    (s : Scrape)
    → encode (scrape_value s)
      ≡ codes "d8:completei"
        ++ (itoa s.complete
            ++ (codes "e10:downloadedi"
                ++ (itoa s.snatches
                    ++ (codes "e10:incompletei" ++ (itoa s.incomplete ++ codes "ee")))))
unfolding encode
scrape_value-encode s =
    let tail : Bytes = b'e' ∷ [] in
    let f3 = field (codes "incomplete") (int s.incomplete) no_fields in
    let f2 = field (codes "downloaded") (int s.snatches) f3 in
    rw
      (
        int_field (codes "complete") (codes "8:complete") s.complete f2 tail
            (unfold encode_str in unfold itoa in unfold digits in refl),
        int_field (codes "downloaded") (codes "10:downloaded") s.snatches f3 tail
            (unfold encode_str in unfold itoa in unfold digits in refl),
        int_field (codes "incomplete") (codes "10:incomplete") s.incomplete no_fields tail
            (unfold encode_str in unfold itoa in unfold digits in refl),
      )
      (unfold encode_fields in refl)

-- the text of one scrape, bracketed to the right
regroup :
    (n h a b c d e f rest : Bytes) (colon : ℕ)
    → (n ++ (colon ∷ h)) ++ ((a ++ (b ++ (c ++ (d ++ (e ++ (f ++ codes "ee")))))) ++ rest)
      ≡ n ++ (colon ∷ (h ++ (a ++ (b ++ (c ++ (d ++ (e ++ (f ++ (codes "ee" ++ rest)))))))))
regroup n h a b c d e f rest colon = simp append_assoc

module _ (append_uint : ℕ → Bytes) (decimal : (n : ℕ) → append_uint n ≡ itoa n) where
  write_scrapes-encode :
      (ss : List Scrape) → write_scrapes append_uint ss ≡ encode_fields (files ss)
  unfolding write_scrapes encode_fields encode_str
  write_scrapes-encode [] = refl
  write_scrapes-encode (s ∷ ss) =
      rw
        (
          decimal (length s.info_hash),
          decimal s.complete,
          decimal s.snatches,
          decimal s.incomplete,
          write_scrapes-encode ss,
        )
        (sym (
            regroup (itoa (length s.info_hash)) s.info_hash (codes "d8:completei") (itoa s.complete)
              (codes "e10:downloadedi") (itoa s.snatches) (codes "e10:incompletei")
              (itoa s.incomplete) (encode_fields (files ss)) b':')
          ∙ ap (λ v. encode_str s.info_hash ++ (v ++ encode_fields (files ss)))
              (sym (scrape_value-encode s)))

  write_scrape_response-encode :
      (resp : ScrapeResponse)
      → write_scrape_response append_uint resp ≡ encode (response_value (sorted resp))
  unfolding write_scrape_response encode encode_fields
  write_scrape_response-encode resp =
      rw
        (
          write_scrapes-encode (sorted resp),
          (let e : encode_str (codes "files") ≡ codes "5:files" =
                unfold encode_str in unfold itoa in unfold digits in refl in
              e),
        )
        (simp append_assoc)

  -- A client reads the response to a scrape as the dictionary of the counts of each hash, in ascending
  -- order of the hashes, the entries being those of the response, if numbers are written in decimal.
  pub write_scrape_response-read :
      (resp : ScrapeResponse) (fuel : ℕ)
      → 9 * length resp + 5 ≤ fuel
      → (decode fuel (write_scrape_response append_uint resp)
          ≡ some (response_value (sorted resp), []))
        × IsAscending (sorted resp)
        × Perm (sorted resp) resp
  unfolding size fields_size
  write_scrape_response-read resp fuel h = (
    rw (write_scrape_response-encode resp) (
        rw (← append-nil (encode (response_value (sorted resp)))) (
          decode-encode (response_value (sorted resp)) fuel []
            (omega (arith, files_size (sorted resp), length-sorted resp, h)))),
    sorted-IsAscending resp,
    sorted-perm resp,
  )
