-- ===== src/Proto/Fields/Progress.antt =====
-- Every reader moves the cursor forward, so the field loops end; and the rule for their invariants.
use oktz_signal.Base.{ℕ, zero, suc, ◌<◌, ◌≤◌, ◌≡◌}
use oktz_signal.Base.{List, [], ◌∷◌, length, length-take, length-drop, arith, String}
use oktz_signal.Base.{Result, ok, ◌>>=◌, Bool-cases, is_empty, false}
use oktz_signal.Base.{◌==◌, inl, inr}
use oktz_signal.Base.{wrong_wire_type, ◌>>◌}
use oktz_signal.Base.Post.{Post, Post-ok, Post-err, Post-cases}
use oktz_signal.Proto.Varint.{Cursor, IsU32, read_varint}
use oktz_signal.Proto.Varint.Bounds.{read_varint_loop-shrinks, read_varint_loop-terminates}
use oktz_signal.Proto.Fields.{
  read_bytes, read_varint_u32, read_tag, skip_field, expect_wire, field_loop, decode_fields,
}

-- Fewer bytes are left than `n`.
abbrev pub Shorter : {A : Type 0} → ℕ → A × Cursor → Type 0
Shorter n (a, c) = length c.rest < n

pub read_varint-Shorter : (c : Cursor) → Post (Shorter (length c.rest)) (read_varint c)
unfolding read_varint
read_varint-Shorter c = record {
  ends = read_varint_loop-terminates c.rest c.pos 0 0;
  holds = λ (v, d) e. (read_varint_loop-shrinks c.rest c.pos 0 0 v d e).0;
}

-- A byte field is no longer than the input.
abbrev pub Taken : ℕ → List ℕ × Cursor → Type 0
Taken n (v, c) = (length c.rest < n) × (length v ≤ n)

pub read_bytes-Taken : (c : Cursor) → Post (Taken (length c.rest)) (read_bytes c)
unfolding read_bytes
read_bytes-Taken c = elim (Post-cases (read_varint-Shorter c)) [
  | inl ((n, d), e, h) ↦ record {
    ends = λ q. ground (arith, e);
    holds = λ (v, d') q. ground (arith, e, h, length-drop n d.rest, length-take n d.rest);
  }
  | inr (x, e, n) ↦ rw (e, read_bytes) (Post-err x n)
]

abbrev pub Small : ℕ → ℕ × Cursor → Type 0
Small n (v, c) = (length c.rest < n) × IsU32 v

pub read_varint_u32-Small :
    (c : Cursor) (name : String) → Post (Small (length c.rest)) (read_varint_u32 c name)
unfolding read_varint_u32
read_varint_u32-Small c name = elim (Post-cases (read_varint-Shorter c)) [
  | inl ((v, d), e, h) ↦ record {
    ends = λ q. ground (arith, e);
    holds = λ a q. ground (arith, e, h);
  }
  | inr (x, e, n) ↦ rw (e, read_varint_u32) (Post-err x n)
]

pub read_tag-Shorter : (c : Cursor) → Post (Shorter (length c.rest)) (read_tag c)
unfolding read_tag
read_tag-Shorter c = elim (Post-cases (read_varint-Shorter c)) [
  | inl ((v, d), e, h) ↦ record {
    ends = λ q. ground (arith, e);
    holds = λ a q. ground (arith, e, h);
  }
  | inr (x, e, n) ↦ rw (e, read_tag) (Post-err x n)
]

abbrev pub NoLonger : ℕ → Cursor → Type 0
NoLonger n c = length c.rest ≤ n

-- The cases of `skip_field`; the fixed widths check what is left.
pub skip_field-NoLonger :
    (c : Cursor) (wire : ℕ) → Post (NoLonger (length c.rest)) (skip_field c wire)
unfolding skip_field
skip_field-NoLonger c wire = elim (Bool-cases (wire == 0)) [
  | inl w ↦ elim (Post-cases (read_varint-Shorter c)) [
    | inl ((v, d), e, h) ↦ rw (w, skip_field) (rw e (Post-ok d (omega arith)))
    | inr (x, e, n) ↦ rw (w, skip_field) (rw e (Post-err x n))
  ]
  | inr w ↦ elim (Bool-cases (wire == 2)) [
    | inl w' ↦ elim (Post-cases (read_bytes-Taken c)) [
      | inl ((v, d), e, h) ↦ record {
        ends = λ q. ground (arith, e, w, w');
        holds = λ a q. ground (arith, e, h, w, w');
      }
      | inr (x, e, n) ↦ record {
        ends = λ q. ground (arith, e, w, w', n);
        holds = λ a q. ground (arith, e, w, w');
      }
    ]
    | inr w' ↦ record {
      ends = λ q. ground (arith, w, w');
      holds = λ a q. ground (arith, w, w', length-drop 8 c.rest, length-drop 4 c.rest);
    }
  ]
]

length-pos : (xs : List ℕ) → is_empty xs ≡ false → 1 ≤ length xs
length-pos [] h = cc
length-pos (x ∷ xs) h = omega arith

-- What an arm of a decoder is to establish: the invariant, and no more bytes than before.
abbrev pub Kept : {S : Type 0} → (S → Type 0) → ℕ → S × Cursor → Type 0
Kept P m (s, c) = P s × (length c.rest ≤ m)

module _ {S : Type 0} (arms : ℕ → ℕ → Cursor → S → Result (S × Cursor)) (P : S → Type 0) (n : ℕ)
    (keep : (field wire : ℕ) (c : Cursor) (s : S)
      → P s
      → length c.rest ≤ n
      → Post (Kept P (length c.rest)) (arms field wire c s)) where
  field_loop-Post :
      (fuel : ℕ) (c : Cursor) (s : S)
      → P s
      → length c.rest ≤ n
      → length c.rest ≤ fuel
      → Post P (field_loop arms fuel c s)
  unfolding field_loop
  field_loop-Post zero c s p h f = elim (Bool-cases (is_empty c.rest)) [
    | inl e ↦ rw (e, field_loop) (Post-ok s p)
    | inr e ↦ absurd (omega (arith, length-pos c.rest e))
  ]
  field_loop-Post (suc fuel) c s p h f = elim (Bool-cases (is_empty c.rest)) [
    | inl e ↦ rw (e, field_loop) (Post-ok s p)
    | inr e ↦ elim (Post-cases (read_tag-Shorter c)) [
      | inl (((field, wire), d), t, hd) ↦ elim (Post-cases (keep field wire d s p (omega arith))) [
        | inl ((s', d'), a, (p', hd')) ↦
            rw (e, field_loop)
              (rw t (rw a (field_loop-Post fuel d' s' p' (omega arith) (omega arith))))
        | inr (x, a, m) ↦ rw (e, field_loop) (rw t (rw a (Post-err x m)))
      ]
      | inr (x, t, m) ↦ rw (e, field_loop) (rw t (Post-err x m))
    ]
  ]

module _ {S : Type 0} (arms : ℕ → ℕ → Cursor → S → Result (S × Cursor)) (P : S → Type 0)
    (bytes : List ℕ)
    (keep : (field wire : ℕ) (c : Cursor) (s : S)
      → P s
      → length c.rest ≤ length bytes
      → Post (Kept P (length c.rest)) (arms field wire c s)) where
  -- The loop ends within its fuel, and keeps what every arm keeps.
  pub decode_fields-Post : (s : S) → P s → Post P (decode_fields arms bytes s)
  unfolding decode_fields
  decode_fields-Post s p =
      field_loop-Post arms P (length bytes) keep (length bytes) _ s p (omega arith) (omega arith)

-- The arm of a known field: the guard on its wire type, a reader, and the new state.
module _ {S A : Type 0} {Q : A × Cursor → Type 0} {r : Result (A × Cursor)} (P : S → Type 0) (n : ℕ)
    (f : A × Cursor → S × Cursor) (field : ℕ) (name : String) (got want : ℕ) where
  pub known_field-Post :
      Post Q r
      → ((a : A × Cursor) → Q a → Kept P n (f a))
      → Post (Kept P n) (expect_wire field name got want >> (r >>= λ a. ok (f a)))
  unfolding expect_wire
  known_field-Post q k = elim (Bool-cases (got == want)) [
    | inr e ↦ rw (e, expect_wire) (Post-err (wrong_wire_type field name got want) (λ z. cc))
    | inl e ↦ elim (Post-cases q) [
      | inl (a, t, h) ↦ rw (e, expect_wire) (rw t (Post-ok (f a) (k a h)))
      | inr (x, t, m) ↦ rw (e, expect_wire) (rw t (Post-err x m))
    ]
  ]

-- The arm of a field that the decoder does not know.
pub unknown_field-Post :
    {S : Type 0} (P : S → Type 0) (s : S) (c : Cursor) (wire : ℕ)
    → P s
    → Post (Kept P (length c.rest)) (skip_field c wire >>= λ d. ok (s, d))
unknown_field-Post P s c wire p = elim (Post-cases (skip_field-NoLonger c wire)) [
  | inl (d, t, h) ↦ rw t (Post-ok (s, d) (p, h))
  | inr (x, t, m) ↦ rw t (Post-err x m)
]
