-- ===== src/Result.antt =====
-- Go's errors, panics and stateful calls: bittorrent/peer.go (ClientError), and the error values of
-- storage/storage.go, bittorrent/event.go and bittorrent/sanitize.go.
use Prim.Native.Char.{code}
use Prim.Native.String.{String}
use text.Mathlib.Text.{◌==◌ as str_eq}
use mochi.Base.{◌≡◌, refl, subst, Bool, true, false, if◌then◌else◌, [], ◌∷◌}
use mochi.Base.Bytes.{Bytes}

-- `client_error` is bittorrent.ClientError, a string; `other_error` stands for any other error.
pub data Error : Type 0 where
  client_error : String → Error
  other_error : String → Error

-- The bytes of an ASCII text.
abbrev pub codes : String → Bytes
codes String.[] = []
codes (String.◌∷◌ c s) = code c ∷ codes s

abbrev pub err_unknown_event : Error
err_unknown_event = client_error "unknown event"

abbrev pub err_invalid_ip : Error
err_invalid_ip = client_error "invalid IP"

abbrev pub err_invalid_port : Error
err_invalid_port = client_error "invalid port"

abbrev pub err_resource_does_not_exist : Error
err_resource_does_not_exist = client_error "resource does not exist"

-- errors.Is(err, storage.ErrResourceDoesNotExist): client errors are compared as strings.
unfoldable pub is_resource_missing : Error → Bool
is_resource_missing (client_error s) = str_eq s "resource does not exist"
is_resource_missing (other_error s) = false

-- What a Go call ends with: a value, an error, or a panic.
pub data Result {ℓ} (A : Type ℓ) : Type ℓ where
  ok : A → Result A
  err : Error → Result A
  panic : Result A

infixl 5 ◌>>=◌
abbrev pub ◌>>=◌ {ℓ κ} : {A : Type ℓ} {B : Type κ} → Result A → (A → Result B) → Result B
ok a >>= f = f a
err e >>= f = err e
panic >>= f = panic

-- A call that changes a state `S`: what was written before an error stays written.
abbrev pub Act {ℓ} : Type ℓ → Type ℓ → Type ℓ
Act S A = S → Result A × S

-- `if err != nil { return err }` between two calls
abbrev pub and_then : {S A B : Type 0} → Result A × S → (A → Act S B) → Result B × S
and_then (ok a, s) f = f a s
and_then (err e, s) f = (err e, s)
and_then (panic, s) f = (panic, s)

-- A property of the value, where there is one.
abbrev pub Gives : {A : Type 0} → (A → Type 0) → Result A → Type 0
Gives P (ok a) = P a
Gives P (err e) = Unit
Gives P panic = Unit

-- A property of the value, or an error, and no panic.
abbrev pub Yields : {A : Type 0} → (A → Type 0) → Result A → Type 0
Yields P (ok a) = P a
Yields P (err e) = Unit
Yields P panic = ⊥

-- The first as a type that shows its property and its call.
pub record Ensures {A : Type 0} (P : A → Type 0) (m : Result A) : Type 0 where
  pub holds : (a : A) → m ≡ ok a → P a

module _ {A : Type 0} (P : A → Type 0) where
  pub ok-Ensures : (a : A) → P a → Ensures P (ok a)
  ok-Ensures a h = record { holds = λ b e. subst P (cc) h }

  pub err-Ensures : (e : Error) → Ensures P (err e)
  err-Ensures e = record { holds = λ b e. absurd (cc) }

  pub panic-Ensures : Ensures P panic
  panic-Ensures = record { holds = λ b e. absurd (cc) }

  pub if-Ensures :
      (b : Bool) (m m' : Result A) → Ensures P m → Ensures P m' → Ensures P (if b then m else m')
  if-Ensures true m m' h k = h
  if-Ensures false m m' h k = k

pub >>=-Ensures :
    {A B : Type 0} (P : B → Type 0) (m : Result A) (f : A → Result B)
    → ((a : A) → m ≡ ok a → Ensures P (f a))
    → Ensures P (m >>= f)
>>=-Ensures P (ok a) f h = h a refl
>>=-Ensures P (err e) f h = err-Ensures P e
>>=-Ensures P panic f h = panic-Ensures P
