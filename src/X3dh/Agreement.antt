-- ===== src/X3dh/Agreement.antt =====
-- x3dh.rs: both sides of the key agreement compute the same secret.
use oktz_signal.Base.{ℕ, ◌≡◌, refl, sym, ap, ◌∙◌, List, ◌∷◌, Option, none, some, arith}
use oktz_signal.Base.{length}
use oktz_signal.Base.{Result, ok, err, Error, ◌>>=◌, non_contributory}
use oktz_signal.Crates.{Crates}
use oktz_signal.Curve.{scalar_multiply, check_len}
use oktz_signal.Ratchet.Chains.{as_x25519}
use oktz_signal.X3dh.{initiator_secret, recipient_secret, strip_prefix, shared_secret}

-- What X25519 documents: a public key has 32 bytes, and two key pairs agree.
pub record IsDiffieHellman (c : Crates) : Type 0 where
  pub length-public : (a : List ℕ) → length (c.mul_base_clamped a) ≡ 32
  pub commutes :
      (a b : List ℕ)
      → c.mul_clamped (c.mul_base_clamped a) b ≡ c.mul_clamped (c.mul_base_clamped b) a

-- Two calls that fail alike may be made in either order.
swap :
    (p q : Result (List ℕ)) (rest : List ℕ → List ℕ → Result (List ℕ))
    → ((e f : Error) → p ≡ err e → q ≡ err f → e ≡ f)
    → (p >>= λ x. q >>= λ y. rest x y) ≡ (q >>= λ y. p >>= λ x. rest x y)
swap (ok x) (ok y) rest h = refl
swap (ok x) (err f) rest h = refl
swap (err e) (ok y) rest h = refl
swap (err e) (err f) rest h = ap err (h e f refl refl)

module _ (c : Crates) (dh : IsDiffieHellman c) where
  pub scalar_multiply-commutes :
      (a b : List ℕ)
      → length a ≡ 32
      → length b ≡ 32
      → scalar_multiply c a (c.mul_base_clamped b) ≡ scalar_multiply c b (c.mul_base_clamped a)
  unfolding scalar_multiply check_len
  scalar_multiply-commutes a b l m =
      rw (l, m, scalar_multiply, check_len, dh.length-public a, dh.length-public b, dh.commutes b a)
        refl

  -- Of keys of the right length, an agreement is refused for one reason only.
  one_refusal :
      (a b : List ℕ) (e : Error)
      → length a ≡ 32
      → scalar_multiply c a (c.mul_base_clamped b) ≡ err e
      → e ≡ non_contributory
  unfolding scalar_multiply check_len
  one_refusal a b e l h = ground (arith, dh.length-public b, l, h)

  -- The wire form of a public key.
  abbrev pub wire : List ℕ → List ℕ
  wire a = 5 ∷ c.mul_base_clamped a

  strip-wire : (a : List ℕ) → strip_prefix (wire a) ≡ c.mul_base_clamped a
  strip-wire a = ground (arith, dh.length-public a)

  abbrev pub one_time : Option (List ℕ) → Option (List ℕ)
  one_time none = none
  one_time (some a) = some (wire a)

  -- Private keys of the right length.
  abbrev pub AreKeys : List ℕ → List ℕ → List ℕ → List ℕ → Option (List ℕ) → Type 0
  AreKeys identity_a ephemeral_a identity_b signed_b one_time_b =
      (length identity_a ≡ 32)
      × (length ephemeral_a ≡ 32)
      × (length identity_b ≡ 32)
      × (length signed_b ≡ 32)
      × elim one_time_b [ none ↦ Unit | some a ↦ length a ≡ 32 ]

  -- With X25519 as documented and private keys of 32 bytes: the initiator, who has the public
  -- keys of the recipient's identity, signed prekey and, in wire form, one-time prekey if there is
  -- one, and the recipient, who has the public keys of the initiator's identity and ephemeral
  -- key, come to the same outcome: the same shared secret, or the same refusal.
  pub initiator_secret-recipient_secret :
      (identity_a ephemeral_a identity_b signed_b : List ℕ) (one_time_b : Option (List ℕ))
      → AreKeys identity_a ephemeral_a identity_b signed_b one_time_b
      → initiator_secret c identity_a ephemeral_a
          (c.mul_base_clamped identity_b)
          (c.mul_base_clamped signed_b)
          (one_time one_time_b)
        ≡ recipient_secret c identity_b signed_b one_time_b
            (c.mul_base_clamped identity_a)
            (c.mul_base_clamped ephemeral_a)
  unfolding initiator_secret recipient_secret
  initiator_secret-recipient_secret ia ea ib sb none (la, le, lb, ls, lo) =
      rw
        (
          scalar_multiply-commutes ib ea lb le,
          scalar_multiply-commutes sb ia ls la,
          scalar_multiply-commutes sb ea ls le,
        )
        (swap (scalar_multiply c ia (c.mul_base_clamped sb))
          (scalar_multiply c ea (c.mul_base_clamped ib))
          (λ x y.
            scalar_multiply c ea (c.mul_base_clamped sb) >>= λ z. ok (shared_secret x y z none))
          (λ e f h k. one_refusal ia sb e la h ∙ sym (one_refusal ea ib f le k)))
  initiator_secret-recipient_secret ia ea ib sb (some ob) (la, le, lb, ls, lo) =
      rw
        (
          scalar_multiply-commutes ib ea lb le,
          scalar_multiply-commutes sb ia ls la,
          scalar_multiply-commutes sb ea ls le,
          scalar_multiply-commutes ob ea lo le,
          strip-wire ob,
        )
        (swap (scalar_multiply c ia (c.mul_base_clamped sb))
          (scalar_multiply c ea (c.mul_base_clamped ib))
          (λ x y. scalar_multiply c ea (c.mul_base_clamped sb) >>= λ z.
            (scalar_multiply c ea (c.mul_base_clamped ob) >>= λ a. ok (some a)) >>= λ w.
            ok (shared_secret x y z w))
          (λ e f h k. one_refusal ia sb e la h ∙ sym (one_refusal ea ib f le k)))

  pub as_x25519-wire : (a : List ℕ) → as_x25519 (wire a) ≡ c.mul_base_clamped a
  unfolding as_x25519
  as_x25519-wire a = strip-wire a
