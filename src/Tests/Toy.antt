-- ===== src/Tests/Toy.antt =====
-- Concrete stand-ins for the crates, small enough to run.
use oktz_signal.Base.{
  zero, suc, ◌<◌, All, arith, ℕ, ◌+◌, ◌*◌, ◌/◌, ◌%◌, ◌≡◌, refl, sym, ap, subst, List, [], ◌∷◌, true,
  Option, none, some, ◌==◌,
}
use oktz_signal.Base.{length, take, replicate, bytes_eq, length-replicate, if◌then◌else◌}
use oktz_signal.BTreeMap.Keys.{Str}
use oktz_signal.Crates.{Crates, BlockCipher, IsEncoding}
use oktz_signal.Session.{SessionRecord, SessionEntry, Serde, starts_with_brace, trim_start}
use oktz_signal.BTreeMap.{BTreeMap}
use oktz_signal.Session.Text.{IsFaithful}
use oktz_signal.X3dh.Agreement.{IsDiffieHellman}
use oktz_signal.Ratchet.Decrypt.Opened.{IsVerifying}
use oktz_signal.Base.{bytes_eq_self}
use oktz_signal.Conversation.Sending.{IsAes}
use oktz_signal.Ratchet.Cbc.Blocks.{IsCipher}

abbrev pub sum : List ℕ → ℕ
sum [] = 0
sum (b ∷ bytes) = b + sum bytes

-- A tag of 32 bytes that depends on the key and on the message.
abbrev pub toy_hmac : List ℕ → List ℕ → List ℕ
toy_hmac key message = replicate 32 ((3 * sum key + 5 * sum message + length message) % 256)

abbrev pub toy_cipher : BlockCipher
toy_cipher = record { encrypt_block = λ b. b; decrypt_block = λ b. b }

abbrev pub toy : Crates
toy = record {
  encode = λ b. b;
  decode = λ s. some s;
  hmac = toy_hmac;
  verify_truncated_left =
      λ key message tag. bytes_eq tag (take (length tag) (toy_hmac key message));
  aes256 = λ key. if length key == 32 then some toy_cipher else none;
  mul_base_clamped = λ seed. replicate 32 (sum seed % 256);
  mul_clamped = λ point scalar. replicate 32 ((sum point / 32 + sum scalar % 256) % 251 + 1);
}

All-replicate : (n x : ℕ) → x < 256 → All (λ b. b < 256) (replicate n x)
All-replicate zero x h = tt
All-replicate (suc n) x h = (h, All-replicate n x h)

pub toy-IsEncoding : IsEncoding toy
toy-IsEncoding = record {
  decode-encode = λ b. refl;
  encode_full = λ b n. n;
  length-hmac =
      λ key message. length-replicate 32 ((3 * sum key + 5 * sum message + length message) % 256);
  hmac_bytes = λ key message.
      All-replicate 32 ((3 * sum key + 5 * sum message + length message) % 256) (omega arith);
}

pub toy-IsCipher : IsCipher toy_cipher
toy-IsCipher = record { block = λ b h. h; undoes = λ b h. refl }

-- Prints a record without sessions as `{` and its version, and no other.
abbrev print_toy : SessionRecord → Option Str
print_toy r = elim r.sessions [ [] ↦ some (123 ∷ r.version) | e ∷ m ↦ none ]

abbrev read_toy : Str → Option SessionRecord
read_toy [] = none
read_toy (b ∷ s) = some (record { sessions = []; version = s })

abbrev pub toy_serde : Serde
toy_serde = record { from_str = read_toy; to_string = print_toy }

print_toy-object :
    (m : BTreeMap Str SessionEntry) (v s : Str)
    → print_toy (record { sessions = m; version = v }) ≡ some s
    → (s ≡ 123 ∷ v) × (m ≡ [])
print_toy-object [] v s h = (cc, refl)
print_toy-object (e ∷ m) v s h = absurd (none_not_some h)
  where
    none_not_some : {A : Type 0} {a : A} → none ≡ some a → ⊥
    none_not_some q = cc

pub brace : (v : Str) → starts_with_brace (trim_start (123 ∷ v)) ≡ true
unfolding trim_start
brace [] = refl
brace (a ∷ []) = refl
brace (a ∷ b ∷ v) = refl

pub toy-IsFaithful : IsFaithful toy_serde
toy-IsFaithful = record {
  object = λ r s h.
      subst (λ x. starts_with_brace (trim_start x) ≡ true)
        (sym (print_toy-object r.sessions r.version s h).0) (brace r.version);
  reads_back = λ r s h.
      (let (e, f) = print_toy-object r.sessions r.version s h in
        subst (λ x. read_toy x ≡ some r) (sym e)
          (ap (λ m. some (record { sessions = m; version = r.version })) (sym f)));
}

sum-replicate : (x : ℕ) → sum (replicate 32 x) / 32 ≡ x
sum-replicate x = omega arith

pub toy-IsDiffieHellman : IsDiffieHellman toy
toy-IsDiffieHellman = record {
  length-public = λ a. length-replicate 32 (sum a % 256);
  commutes = λ a b.
      (let same : ((sum (replicate 32 (sum a % 256)) / 32 + sum b % 256)
            ≡ (sum (replicate 32 (sum b % 256)) / 32 + sum a % 256)) =
          omega (arith, sum-replicate (sum a % 256), sum-replicate (sum b % 256)) in
        ap (λ k. replicate 32 (k % 251 + 1)) same);
}

pub toy-IsVerifying : IsVerifying toy
toy-IsVerifying key message = bytes_eq_self (take 8 (toy_hmac key message))

pub toy-IsAes : IsAes toy
toy-IsAes key h = (toy_cipher, ap (λ n. if n == 32 then some toy_cipher else none) h, toy-IsCipher)
