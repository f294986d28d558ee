-- ===== src/Tests/Codec.antt =====
-- A serde that prints every record, as numbers, and reads it back.
use oktz_signal.Base.{
  ℕ, zero, suc, ◌≡◌, refl, ap, subst, ◌∙◌, List, [], ◌∷◌, ◌++◌, append_assoc, Option, none, some,
  true,
}
use oktz_signal.Base.{length}
use oktz_signal.Base.Int.{ℤ, pos, negsuc}
use oktz_signal.BTreeMap.Keys.{Str}
use oktz_signal.Session.{
  SessionRecord, SessionEntry, Chain, ChainKey, KeyPair, Ratchet, IndexInfo, PendingPreKey, Serde,
  starts_with_brace, trim_start,
}
use oktz_signal.Session.Text.{IsFaithful, IsReadable}
use oktz_signal.Conversation.Delivery.{IsPrinting}
use oktz_signal.Tests.Toy.{brace}

pub record Codec (A : Type 0) : Type 0 where
  pub print : A → List ℕ
  pub read : List ℕ → Option (A × List ℕ)
  pub back : (a : A) (rest : List ℕ) → read (print a ++ rest) ≡ some (a, rest)

abbrev number : Codec ℕ
number = record {
  print = λ n. n ∷ [];
  read = λ s. elim s [ [] ↦ none | n ∷ rest ↦ some (n, rest) ];
  back = λ n rest. refl;
}

abbrev through : {A B : Type 0} → (A → B) → Option (A × List ℕ) → Option (B × List ℕ)
through f none = none
through f (some (a, rest)) = some (f a, rest)

abbrev by :
    {A B : Type 0} (to : A → B) (from : B → A) → ((b : B) → to (from b) ≡ b) → Codec A → Codec B
by to from h c = record {
  print = λ b. c.print (from b);
  read = λ s. through to (c.read s);
  back = λ b rest. ap (through to) (c.back (from b) rest) ∙ ap (λ x. some (x, rest)) (h b);
}

abbrev then_read :
    {A B : Type 0}
    → (List ℕ → Option (B × List ℕ))
    → Option (A × List ℕ)
    → Option ((A × B) × List ℕ)
then_read read none = none
then_read read (some (a, rest)) = through (λ b. (a, b)) (read rest)

abbrev both : {A B : Type 0} → Codec A → Codec B → Codec (A × B)
both c d = record {
  print = λ p. c.print p.0 ++ d.print p.1;
  read = λ s. then_read d.read (c.read s);
  back = λ p rest.
      ap (λ s. then_read d.read (c.read s)) (append_assoc (c.print p.0) (d.print p.1) rest)
      ∙ ap (then_read d.read) (c.back p.0 (d.print p.1 ++ rest))
      ∙ ap (through (λ b. (p.0, b))) (d.back p.1 rest);
}

module _ {A : Type 0} (c : Codec A) where
  abbrev print_all : List A → List ℕ
  print_all [] = []
  print_all (a ∷ items) = c.print a ++ print_all items

  abbrev put_front : Option ((A × List A) × List ℕ) → Option (List A × List ℕ)
  put_front none = none
  put_front (some (p, rest)) = some (p.0 ∷ p.1, rest)

  abbrev read_all : ℕ → List ℕ → Option (List A × List ℕ)
  read_all zero s = some ([], s)
  read_all (suc n) s = put_front (then_read (read_all n) (c.read s))

  pub read_all-print_all :
      (items : List A) (rest : List ℕ)
      → read_all (length items) (print_all items ++ rest) ≡ some (items, rest)
  read_all-print_all [] rest = refl
  read_all-print_all (a ∷ items) rest =
      ap (λ s. put_front (then_read (read_all (length items)) (c.read s)))
        (append_assoc (c.print a) (print_all items) rest)
      ∙ ap (λ o. put_front (then_read (read_all (length items)) o))
          (c.back a (print_all items ++ rest))
      ∙ ap (λ o. put_front (through (λ b. (a, b)) o)) (read_all-print_all items rest)

  abbrev sequence : Codec (List A)
  sequence = record {
    print = λ items. length items ∷ print_all items;
    read = λ s. elim s [ [] ↦ none | n ∷ rest ↦ read_all n rest ];
    back = λ items rest. read_all-print_all items rest;
  }

  abbrev print_option : Option A → List ℕ
  print_option none = 0 ∷ []
  print_option (some a) = 1 ∷ c.print a

  abbrev read_option : List ℕ → Option (Option A × List ℕ)
  read_option [] = none
  read_option (zero ∷ rest) = some (none, rest)
  read_option (suc m ∷ rest) = through (λ a. some a) (c.read rest)

  pub read_option-print_option :
      (o : Option A) (rest : List ℕ) → read_option (print_option o ++ rest) ≡ some (o, rest)
  read_option-print_option none rest = refl
  read_option-print_option (some a) rest = ap (through (λ a. some a)) (c.back a rest)

  abbrev optional : Codec (Option A)
  optional = record { print = print_option; read = read_option; back = read_option-print_option }

-- 0 and a natural number, or 1 and one.
abbrev to_integer : ℕ × ℕ → ℤ
to_integer p = elim p.0 [ zero ↦ pos p.1 | suc m ↦ negsuc p.1 ]

abbrev from_integer : ℤ → ℕ × ℕ
from_integer (pos n) = (0, n)
from_integer (negsuc n) = (1, n)

pub to_integer-from_integer : (z : ℤ) → to_integer (from_integer z) ≡ z
to_integer-from_integer (pos n) = refl
to_integer-from_integer (negsuc n) = refl

abbrev integer : Codec ℤ
integer = by to_integer from_integer to_integer-from_integer (both number number)

abbrev text : Codec Str
text = sequence number

abbrev chain_key : Codec ChainKey
chain_key =
    by (λ p. record { counter = p.0; key = p.1 }) (λ k. (k.counter, k.key)) (λ k. refl)
      (both integer (optional text))

abbrev chain : Codec Chain
chain =
    by (λ p. record { chain_key = p.0; chain_type = p.1.0; message_keys = p.1.1 })
      (λ k. (k.chain_key, (k.chain_type, k.message_keys))) (λ k. refl)
      (both chain_key (both number (sequence (both integer text))))

abbrev key_pair : Codec KeyPair
key_pair =
    by (λ p. record { pub_key = p.0; priv_key = p.1 }) (λ k. (k.pub_key, k.priv_key)) (λ k. refl)
      (both text text)

abbrev ratchet : Codec Ratchet
ratchet =
    by
      (λ p. record {
        ephemeral_key_pair = p.0;
        last_remote_ephemeral_key = p.1.0;
        previous_counter = p.1.1.0;
        root_key = p.1.1.1;
      })
      (λ k. (k.ephemeral_key_pair, (k.last_remote_ephemeral_key, (k.previous_counter, k.root_key))))
      (λ k. refl) (both key_pair (both text (both number text)))

abbrev index_info : Codec IndexInfo
index_info =
    by
      (λ p. record {
        base_key = p.0;
        base_key_type = p.1.0;
        closed = p.1.1.0;
        used = p.1.1.1.0;
        created = p.1.1.1.1.0;
        remote_identity_key = p.1.1.1.1.1;
      })
      (λ k.
        (k.base_key, (k.base_key_type, (k.closed, (k.used, (k.created, k.remote_identity_key))))))
      (λ k. refl) (both text (both number (both integer (both integer (both integer text)))))

abbrev pending : Codec PendingPreKey
pending =
    by (λ p. record { signed_key_id = p.0; pre_key_id = p.1.0; base_key = p.1.1 })
      (λ k. (k.signed_key_id, (k.pre_key_id, k.base_key))) (λ k. refl)
      (both (optional number) (both (optional number) text))

abbrev entry : Codec SessionEntry
entry =
    by
      (λ p. record {
        registration_id = p.0;
        current_ratchet = p.1.0;
        index_info = p.1.1.0;
        chains = p.1.1.1.0;
        pending_pre_key = p.1.1.1.1;
      })
      (λ k. (k.registration_id, (k.current_ratchet, (k.index_info, (k.chains, k.pending_pre_key)))))
      (λ k. refl)
      (both number
        (both ratchet (both index_info (both (sequence (both text chain)) (optional pending)))))

abbrev whole : Codec SessionRecord
whole =
    by (λ p. record { sessions = p.0; version = p.1 }) (λ k. (k.sessions, k.version)) (λ k. refl)
      (both (sequence (both text entry)) text)

abbrev first_of : Option (SessionRecord × List ℕ) → Option SessionRecord
first_of none = none
first_of (some p) = some p.0

abbrev from_text : Str → Option SessionRecord
from_text [] = none
from_text (b ∷ s) = first_of (whole.read s)

abbrev pub print_record : SessionRecord → Str
print_record r = 123 ∷ (whole.print r ++ [])

abbrev pub numbers_serde : Serde
numbers_serde = record { from_str = from_text; to_string = λ r. some (print_record r) }

pub numbers_serde-IsPrinting : IsPrinting numbers_serde
numbers_serde-IsPrinting r = (print_record r, refl)

text_of : {s t : Str} → some s ≡ some t → s ≡ t
text_of h = cc

pub numbers_serde-IsFaithful : IsFaithful numbers_serde
numbers_serde-IsFaithful = record {
  object = λ r s h.
      subst (λ x. starts_with_brace (trim_start x) ≡ true) (text_of h)
        (brace (whole.print r ++ []));
  reads_back =
      λ r s h. subst (λ x. from_text x ≡ some r) (text_of h) (ap first_of (whole.back r []));
}

pub print_record-IsReadable : (r : SessionRecord) → IsReadable numbers_serde (print_record r)
print_record-IsReadable r = record {
  object = numbers_serde-IsFaithful.object r (print_record r) refl;
  reads_back = λ q. numbers_serde-IsFaithful.reads_back q (print_record r);
}
