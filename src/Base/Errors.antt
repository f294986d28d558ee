-- ===== src/Base/Errors.antt =====
-- `Result<T, String>`: each message of the source is a constructor, with the values it prints.
use Prim.Native.Nat.{ℕ}
use Prim.Native.String.{String}
use mathlib.Core.Path.{◌≡◌, refl, ap}
use mathlib.Core.List.{List}
use mathlib.Core.Option.{Option, none, some}
use mathlib.Core.Bool.{Bool, true, false}
use mathlib.Core.Logic.{◌⊎◌, inl, inr}

pub data Error : Type 0 where
  -- proto.rs
  varint_truncated bytes_truncated : ℕ → Error
  varint_too_long tag_overflow invalid_field_number : Error
  beyond_u32 : String → ℕ → Error
  fixed64_truncated fixed32_truncated group_wire_type : Error
  unsupported_wire_type : ℕ → Error
  wrong_wire_type : ℕ → String → ℕ → ℕ → Error
  field_required field_empty : String → Error
  -- curve.rs
  wrong_length : String → ℕ → ℕ → Error
  degenerate_seed non_contributory : Error
  -- session.rs
  not_a_json_object invalid_json chain_key_closed no_open_session : Error
  unsupported_version : List ℕ → Error
  -- util.rs and the crates below it
  invalid_base64 aes_key_length : Error
  -- x3dh.rs
  recipient_pub_length sender_identity_length signature_rejected : Error
  identity_mismatch prekey_mismatch signed_prekey_mismatch : Error
  -- ratchet.rs
  invalid_ciphertext_length invalid_padding receiving_chain_closed over_max_skip : Error
  no_session_entry no_sending_chain counter_overflow message_key_not_found : Error
  ambiguous_sending_chain : ℕ → Error
  iv_length counter_beyond_u32 bad_version_byte no_receiving_chain mac_failed : Error
  no_open_session_for_pkmsg : Error
  -- no value of the source: a loop of the model ran out of fuel
  out_of_fuel : Error

pub data Result {ℓ} (A : Type ℓ) : Type ℓ where
  err : Error → Result A
  ok : A → Result A

infixl 5 ◌>>=◌ ◌>>◌
-- `?`, and `?` on a call without a value.
abbrev pub ◌>>=◌ {ℓ ℓ'} : {A : Type ℓ} → {B : Type ℓ'} → Result A → (A → Result B) → Result B
err x >>= next = err x
ok value >>= next = next value

abbrev pub ◌>>◌ {ℓ} : {B : Type ℓ} → Result (Unit {0}) → Result B → Result B
err x >> next = err x
ok _ >> next = next

-- An early `return Err(e)` behind a test.
abbrev pub bail_if : Bool → Error → Result (Unit {0})
bail_if true e = err e
bail_if false e = ok tt

-- `ok_or(e)?`
abbrev pub ok_or {ℓ} : {A : Type ℓ} → Error → Option A → Result A
ok_or e none = err e
ok_or e (some a) = ok a

pub Result-cases {ℓ} :
    {A : Type ℓ} (r : Result A) → ((a : A) × (r ≡ ok a)) ⊎ ((e : Error) × (r ≡ err e))
Result-cases (ok a) = inl (a, refl)
Result-cases (err e) = inr (e, refl)

-- Inversion of a successful `?`.
pub >>=-eq-ok {ℓ ℓ'} :
    {A : Type ℓ} {B : Type ℓ'} (m : Result A) (next : A → Result B) {b : B}
    → (m >>= next) ≡ ok b
    → (a : A) × (m ≡ ok a) × (next a ≡ ok b)
>>=-eq-ok (ok a) next h = (a, refl, h)
>>=-eq-ok (err e) next h = cc

pub >>-eq-ok {ℓ} :
    {B : Type ℓ} (m : Result (Unit {0})) (next : Result B) {b : B}
    → (m >> next) ≡ ok b
    → (m ≡ ok tt) × (next ≡ ok b)
>>-eq-ok (ok u) next h = (refl, h)
>>-eq-ok (err e) next h = cc

pub ok_injective {ℓ} : {A : Type ℓ} {a b : A} → ok a ≡ ok b → a ≡ b
ok_injective h = cc

pub ok_or-some {ℓ} : {A : Type ℓ} (e : Error) (o : Option A) {a : A} → ok_or e o ≡ ok a → o ≡ some a
ok_or-some e none h = cc
ok_or-some e (some b) h = cc

-- A `?` on a call that succeeds goes on with its value.
pub >>=-ok {ℓ ℓ'} :
    {A : Type ℓ} {B : Type ℓ'} {m : Result A} {a : A} (next : A → Result B)
    → m ≡ ok a
    → (m >>= next) ≡ next a
>>=-ok next e = ap (λ x. x >>= next) e

pub >>-ok {ℓ} :
    {B : Type ℓ} {m : Result (Unit {0})} (next : Result B) → m ≡ ok tt → (m >> next) ≡ next
>>-ok next e = ap (λ x. x >> next) e
