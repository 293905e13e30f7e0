-- ===== src/Frontend/Http/Bencode.antt =====
-- BEP 3: how a client reads a response of frontend/http. Numbers here are not negative, and lists are left
-- out.
use mochi.Base.{
  ℕ, zero, suc, ◌+◌, ◌≤◌, ◌≡◌, refl, Option, none, some, [], ◌∷◌, ◌++◌, arith, ◌==◌, ltb,
  if◌then◌else◌, length, length-append, take, take-append_exact, drop, drop-append_exact, ◌∙◌,
}
use mathlib.Core.List.{append_assoc}
use mochi.Base.Bytes.{Bytes}
use mochi.Frontend.Http.Decimal.{itoa, read_uint, read_uint-itoa, itoa-IsNumber, IsNumber}

mutual
  pub data Value : Type 0 where
    int : ℕ → Value
    str : Bytes → Value
    dict : Fields → Value

  pub data Fields : Type 0 where
    no_fields : Fields
    field : Bytes → Value → Fields → Fields

abbrev bind : {A B : Type 0} → Option A → (A → Option B) → Option B
bind none f = none
bind (some a) f = f a

-- a text behind its length and a colon
unfoldable pub text_of : Option (ℕ × Bytes) → Option (Bytes × Bytes)
text_of none = none
text_of (some (n, rest)) = if ltb (length rest) n then none else some (take n rest, drop n rest)

unfoldable pub read_str : Bytes → Option (Bytes × Bytes)
read_str bs = text_of (read_uint b':' 0 bs)

-- A value and what follows it, on fuel: each nesting and each field takes a unit.
unfoldable mutual
  pub decode : ℕ → Bytes → Option (Value × Bytes)
  decode zero bs = none
  decode (suc fuel) [] = none
  decode (suc fuel) (b ∷ bs) =
      let fields = decode_fields fuel bs in
      if b == b'i'
      then bind (read_uint b'e' 0 bs) (λ nr. some (int nr.0, nr.1))
      else if b == b'd'
      then bind fields (λ fr. some (dict fr.0, fr.1))
      else bind (read_str (b ∷ bs)) (λ sr. some (str sr.0, sr.1))

  pub decode_fields : ℕ → Bytes → Option (Fields × Bytes)
  decode_fields zero bs = none
  decode_fields (suc fuel) [] = none
  decode_fields (suc fuel) (b ∷ bs) =
      let next : Option (Fields × Bytes) = bind (read_str (b ∷ bs)) λ kr.
        bind (decode fuel kr.1)
          λ vr. bind (decode_fields fuel vr.1) λ fr. some (field kr.0 vr.0 fr.0, fr.1) in
      if b == b'e' then some (no_fields, bs) else next

-- The bencoding of a value.
unfoldable pub encode_str : Bytes → Bytes
encode_str s = itoa (length s) ++ (b':' ∷ s)

unfoldable mutual
  pub encode : Value → Bytes
  encode (int n) = b'i' ∷ (itoa n ++ b'e' ∷ [])
  encode (str s) = encode_str s
  encode (dict fs) = b'd' ∷ (encode_fields fs ++ b'e' ∷ [])

  pub encode_fields : Fields → Bytes
  encode_fields no_fields = []
  encode_fields (field k v fs) = encode_str k ++ (encode v ++ encode_fields fs)

-- the fuel that reading a value takes
unfoldable mutual
  pub size : Value → ℕ
  size (int n) = 1
  size (str s) = 1
  size (dict fs) = suc (fields_size fs)

  pub fields_size : Fields → ℕ
  fields_size no_fields = 1
  fields_size (field k v fs) = suc (size v + fields_size fs)

read_str-encode : (s rest : Bytes) → read_str (encode_str s ++ rest) ≡ some (s, rest)
unfolding read_str encode_str text_of
read_str-encode s rest =
    rw
      (
        append_assoc (itoa (length s)) (b':' ∷ s) rest,
        read_uint-itoa b':' (length s) (s ++ rest) refl,
      )
      (ground (
        arith,
        length-append s rest,
        take-append_exact (length s) s rest refl,
        drop-append_exact (length s) 0 s rest (omega arith),
      ))

IsNumber-append : (bs more : Bytes) → IsNumber bs → IsNumber (bs ++ more)
IsNumber-append [] more h = absurd h
IsNumber-append (b ∷ bs) more h = h

encode_str-IsNumber : (s rest : Bytes) → IsNumber (encode_str s ++ rest)
unfolding encode_str
encode_str-IsNumber s rest =
    IsNumber-append _ rest (IsNumber-append (itoa (length s)) _ (itoa-IsNumber (length s)))

-- what begins with a digit is read as a text
decode_number :
    (fuel : ℕ) (bs : Bytes)
    → IsNumber bs
    → decode (suc fuel) bs ≡ bind (read_str bs) (λ sr. some (str sr.0, sr.1))
unfolding decode
decode_number fuel [] h = absurd h
decode_number fuel (b ∷ bs) h = ground arith

-- and as a field, where a field may stand
decode_fields_number :
    (fuel : ℕ) (bs : Bytes)
    → IsNumber bs
    → decode_fields (suc fuel) bs
      ≡ bind (read_str bs) λ kr.
        bind
          (decode fuel kr.1)
          λ vr. bind (decode_fields fuel vr.1) λ fr. some (field kr.0 vr.0 fr.0, fr.1)
unfolding decode_fields
decode_fields_number fuel [] h = absurd h
decode_fields_number fuel (b ∷ bs) h = ground arith

mutual
  unfolding decode decode_fields encode encode_fields size fields_size

  -- A bencoded value is read back, and what follows it is left.
  pub decode-encode :
      (v : Value) (fuel : ℕ) (rest : Bytes)
      → size v ≤ fuel
      → decode fuel (encode v ++ rest) ≡ some (v, rest)
  decode-encode (int n) zero rest h = absurd (omega (arith, h))
  decode-encode (str s) zero rest h = absurd (omega (arith, h))
  decode-encode (dict fs) zero rest h = absurd (omega (arith, h))
  decode-encode (int n) (suc fuel) rest h =
      rw (append_assoc (itoa n) (b'e' ∷ []) rest, read_uint-itoa b'e' n rest refl) refl
  decode-encode (str s) (suc fuel) rest h =
      decode_number fuel (encode_str s ++ rest) (encode_str-IsNumber s rest)
      ∙ (rw (read_str-encode s rest) refl)
  decode-encode (dict fs) (suc fuel) rest h =
      rw
        (
          append_assoc (encode_fields fs) (b'e' ∷ []) rest,
          decode_fields-encode fs fuel rest (omega (arith, h)),
        )
        refl

  pub decode_fields-encode :
      (fs : Fields) (fuel : ℕ) (rest : Bytes)
      → fields_size fs ≤ fuel
      → decode_fields fuel (encode_fields fs ++ b'e' ∷ rest) ≡ some (fs, rest)
  decode_fields-encode no_fields zero rest h = absurd (omega (arith, h))
  decode_fields-encode no_fields (suc fuel) rest h = refl
  decode_fields-encode (field k v fs) zero rest h = absurd (omega (arith, h))
  decode_fields-encode (field k v fs) (suc fuel) rest h =
      let behind = encode v ++ (encode_fields fs ++ b'e' ∷ rest) in
      rw
        (
          append_assoc (encode_str k) (encode v ++ encode_fields fs) (b'e' ∷ rest),
          append_assoc (encode v) (encode_fields fs) (b'e' ∷ rest),
          decode_fields_number fuel (encode_str k ++ behind) (encode_str-IsNumber k behind),
          read_str-encode k behind,
          decode-encode v fuel (encode_fields fs ++ b'e' ∷ rest) (omega (arith, h)),
          decode_fields-encode fs fuel rest (omega (arith, h)),
        )
        refl
