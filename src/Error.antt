-- ===== src/Error.antt =====
-- src/error.rs: the error type, and the result type that nearly every operation returns.
-- A formatted message is a constructor with its arguments; `text` is a message with none.
use braids_rs.Base.{◌≡◌, refl, Bool, true, false, if◌then◌else◌, ℕ, String, Option, none, some, ◌≡◌}
use braids_rs.Pipeline.Kinds.{ElementKind}

pub data Message : Type 0 where
  text : String → Message
  length_overflow : ℕ → Message
  wrong_length : ℕ → ℕ → ℕ → Message
  duplicate_static : ℕ → Message
  undeclared_static : ℕ → Message
  wrong_static_kind : ℕ → Message
  undeclared_binding : ℕ → ℕ → ℕ → Message
  undeclared_packet_slot : ℕ → Message
  duplicate_slot : ℕ → Message
  not_divisible : ℕ → ℕ → ℕ → Message
  unknown_tag : String → ℕ → Message

pub data BraidError : Type 0 where
  cancelled unknown_job executor_shutdown : BraidError
  backend_rejected_kernel : ℕ → BraidError
  missing_buffer : ℕ → BraidError
  invalid_buffer_type : ℕ → ElementKind → BraidError
  duplicate_id : String → String → BraidError
  missing_reference : String → String → String → BraidError
  empty_scope : String → String → BraidError
  invalid_spec : Message → BraidError
  message : Message → BraidError
  poisoned : String → BraidError

pub data BraidResult {ℓ} (V : Type ℓ) : Type ℓ where
  err : BraidError → BraidResult V
  ok : V → BraidResult V

infixl 5 ◌>>=◌ ◌>>◌
-- `?` on a result: an error leaves the function.
abbrev pub ◌>>=◌ {ℓ κ} :
    {V : Type ℓ} {W : Type κ} → BraidResult V → (V → BraidResult W) → BraidResult W
err fault >>= rest = err fault
ok v >>= rest = rest v

-- The same, for the effect alone.
abbrev pub ◌>>◌ {κ} : {W : Type κ} → BraidResult (Unit {0}) → BraidResult W → BraidResult W
effect >> rest = effect >>= λ done. rest

-- `ok_or`
abbrev pub ok_or {ℓ} : {A : Type ℓ} → Option A → BraidError → BraidResult A
ok_or none e = err e
ok_or (some a) e = ok a

-- `BraidError::from` on a string literal.
abbrev pub from_text : String → BraidError
from_text s = message (text s)

-- What a successful `?` passed through.
pub >>=-eq-ok {ℓ κ} :
    {V : Type ℓ} {W : Type κ} {w : W} (first : BraidResult V) (rest : V → BraidResult W)
    → (first >>= rest) ≡ ok w
    → (v : V) × (first ≡ ok v) × (rest v ≡ ok w)
>>=-eq-ok (err fault) rest h = cc
>>=-eq-ok (ok v) rest h = (v, refl, h)

-- What a successful early return passed by.
pub if-err-eq-ok {ℓ} :
    {A : Type ℓ} (c : Bool) (e : BraidError) (m : BraidResult A) {a : A}
    → (if c then err e else m) ≡ ok a
    → (c ≡ false) × (m ≡ ok a)
if-err-eq-ok true e m h = cc
if-err-eq-ok false e m h = (refl, h)
