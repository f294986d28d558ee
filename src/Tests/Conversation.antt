-- ===== src/Tests/Conversation.antt =====
-- A conversation at concrete inputs: the first message of a session, from text to text.
use oktz_signal.Base.{ℕ, ◌≡◌, ◌≢◌, refl, ap, List, [], ◌∷◌, Option, some, replicate, ok, arith}
use oktz_signal.Base.{length}
use oktz_signal.Base.{Result, err, ◌∙◌, sym, ◌<◌, ◌≤◌, All}
use oktz_signal.Base.Int.{pos}
use oktz_signal.BTreeMap.Keys.{Str, str_ord}
use oktz_signal.Session.{SessionRecord, serialize}
use oktz_signal.Ratchet.Kdf.{whisper_ratchet, whisper_text}
use oktz_signal.Curve.{
  verify, check_len, seed_is_degenerate, byte_at, modify, scalar_multiply, generate_keypair,
}
use oktz_signal.Ratchet.Encrypt.{EncryptResult, encrypt}
use oktz_signal.Ratchet.Decrypt.{DecryptResult, decrypt_pkmsg, decrypt_whisper}
use oktz_signal.X3dh.{
  X3dhParams, initiator_entry, recipient_entry, single_session, derive_secrets,
  build_initial_session, build_initial_session_with_ephemeral, build_recipient_session,
  shared_secret, initiator_secret, recipient_secret,
}
use oktz_signal.X3dh.Agreement.{one_time}
use oktz_signal.Conversation.Handshake.{root_of}
use oktz_signal.Conversation.Texts.{IsSoundText, Began, Talk, Talk-IsSoundText}
use oktz_signal.Conversation.Delivered.{AreAcquainted}
use oktz_signal.Conversation.Reply.{decrypt_whisper_answer}
use oktz_signal.Conversation.FirstMessage.{decrypt_pkmsg-encrypt}
use oktz_signal.Tests.Toy.{
  toy-IsAes, sum, toy, toy-IsEncoding, toy-IsDiffieHellman, toy-IsVerifying,
}
use oktz_signal.Tests.Curve.{numbers}
use oktz_signal.Tests.Codec.{
  numbers_serde, print_record, numbers_serde-IsPrinting, numbers_serde-IsFaithful,
  print_record-IsReadable,
}

abbrev pub identity_a : List ℕ
identity_a = replicate 32 5

abbrev pub ephemeral_a : List ℕ
ephemeral_a = replicate 32 11

abbrev pub identity_b : List ℕ
identity_b = replicate 32 6

abbrev pub signed_b : List ℕ
signed_b = replicate 32 9

abbrev pub one_time_b : Option (List ℕ)
one_time_b = some (replicate 32 7)

abbrev pub seed : List ℕ
seed = replicate 32 10

abbrev pub sender : List ℕ
sender = 5 ∷ toy.mul_base_clamped identity_a

abbrev pub params : X3dhParams
params = record {
  identity_priv = identity_a;
  identity_pub = toy.mul_base_clamped identity_a;
  signed_prekey_pub = toy.mul_base_clamped signed_b;
  signed_prekey_sig = replicate 64 0;
  prekey_pub = one_time toy toy-IsDiffieHellman one_time_b;
  prekey_id = some 4;
  recipient_pub = 5 ∷ toy.mul_base_clamped identity_b;
  recipient_prekey = toy.mul_base_clamped signed_b;
  registration_id = 7;
  signed_key_id = 1;
}

abbrev pub shared : List ℕ
shared =
    shared_secret (replicate 32 193) (replicate 32 38) (replicate 32 129) (some (replicate 32 70))

secret :
    initiator_secret toy identity_a ephemeral_a
      (toy.mul_base_clamped identity_b)
      (toy.mul_base_clamped signed_b)
      params.prekey_pub
    ≡ ok shared
unfolding initiator_secret scalar_multiply
secret = refl

abbrev pub pe : List ℕ
pe = toy.mul_base_clamped ephemeral_a

abbrev pub mk_ratchet : List (List ℕ)
mk_ratchet = derive_secrets toy (replicate 32 129) (root_of toy shared) whisper_ratchet

abbrev pub record_a : SessionRecord
record_a =
    single_session pe
      (initiator_entry toy params ephemeral_a pe params.signed_prekey_pub mk_ratchet (pos 3))

abbrev record_b : SessionRecord
record_b = single_session pe (
    recipient_entry toy signed_b params.signed_prekey_pub sender pe 8
      (derive_secrets toy shared (replicate 32 0) whisper_text) (pos 4))

abbrev pub text_a : Str
text_a = print_record record_a

abbrev text_b : Str
text_b = print_record record_b

built_a : build_initial_session toy numbers numbers_serde params ephemeral_a (pos 3) ≡ ok text_a
unfolding build_initial_session build_initial_session_with_ephemeral serialize generate_keypair
    scalar_multiply verify check_len seed_is_degenerate byte_at modify
built_a = refl

built_b :
    build_recipient_session toy numbers numbers_serde identity_b signed_b
      (toy.mul_base_clamped signed_b)
      one_time_b
      sender
      pe
      8
      (pos 4)
    ≡ ok text_b
unfolding build_recipient_session serialize generate_keypair scalar_multiply check_len
    seed_is_degenerate recipient_secret
built_b = refl

acquainted :
    AreAcquainted toy toy-IsDiffieHellman params ephemeral_a identity_b signed_b sender one_time_b
acquainted = record {
  keys = (refl, refl, refl, refl, refl);
  to = refl;
  signed = refl;
  one = refl;
  from = refl;
}

fresh : generate_keypair toy seed ≡ ok (replicate 32 64, seed)
unfolding generate_keypair check_len seed_is_degenerate
fresh = refl

agrees : scalar_multiply toy seed pe ≡ ok (replicate 32 161)
unfolding scalar_multiply check_len
agrees = refl

other_key : replicate 32 64 ≢ pe
other_key e = ground (arith, ap sum e)

decrypt_pkmsg-encrypt_example :
    (sent : EncryptResult) × (read : DecryptResult) × (encrypt toy numbers_serde text_a
        (1 ∷ 2 ∷ 3 ∷ [])
        sender
        9
      ≡ ok sent)
    × (sent.message_type ≡ 3)
    × (decrypt_pkmsg toy numbers_serde text_b sent.ciphertext params.recipient_pub seed ≡ ok read)
    × (read.plaintext ≡ 1 ∷ 2 ∷ 3 ∷ [])
decrypt_pkmsg-encrypt_example =
    decrypt_pkmsg-encrypt toy toy-IsEncoding toy-IsDiffieHellman toy-IsVerifying toy-IsAes numbers
      numbers_serde numbers_serde-IsPrinting params ephemeral_a identity_b signed_b sender seed
      (replicate 32 64) seed (replicate 32 161) (1 ∷ 2 ∷ 3 ∷ []) one_time_b 8 9 (pos 3) (pos 4)
      text_a text_b built_a built_b acquainted (print_record-IsReadable record_a)
      (print_record-IsReadable record_b) fresh agrees other_key (omega arith) (omega arith)
      (omega arith) (omega arith) (omega arith, (omega arith, (omega arith, tt))) (omega arith)

delivers :
    (plaintext : List ℕ)
    → All (λ b. b < 256) plaintext
    → length plaintext ≤ 4294967295
    → (sent : EncryptResult) × (read : DecryptResult) × (encrypt toy numbers_serde text_a plaintext
          sender 9
        ≡ ok sent)
      × (sent.message_type ≡ 3)
      × (decrypt_pkmsg toy numbers_serde text_b sent.ciphertext params.recipient_pub seed ≡ ok read)
      × (read.plaintext ≡ plaintext)
delivers plaintext bytes short =
    decrypt_pkmsg-encrypt toy toy-IsEncoding toy-IsDiffieHellman toy-IsVerifying toy-IsAes numbers
      numbers_serde numbers_serde-IsPrinting params ephemeral_a identity_b signed_b sender seed
      (replicate 32 64) seed (replicate 32 161) plaintext one_time_b 8 9 (pos 3) (pos 4) text_a
      text_b built_a built_b acquainted (print_record-IsReadable record_a)
      (print_record-IsReadable record_b) fresh agrees other_key (omega arith) (omega arith)
      (omega arith) (omega arith) bytes short

abbrev seed' : List ℕ
seed' = replicate 32 13

fresh' : generate_keypair toy seed' ≡ ok (replicate 32 160, seed')
unfolding generate_keypair check_len seed_is_degenerate
fresh' = refl

agrees' : scalar_multiply toy seed' (replicate 32 64) ≡ ok (replicate 32 225)
unfolding scalar_multiply check_len
agrees' = refl

other_key' : toy.mul_base_clamped seed' ≢ toy.mul_base_clamped seed
other_key' e = ground (arith, ap sum e)

decrypt_whisper_answer_example :
    (sent : EncryptResult) × (read : DecryptResult) × (answer : EncryptResult)
    × (last : DecryptResult) × (encrypt toy numbers_serde text_a (1 ∷ 2 ∷ 3 ∷ []) sender 9
        ≡ ok sent)
    × (decrypt_pkmsg toy numbers_serde text_b sent.ciphertext params.recipient_pub seed ≡ ok read)
    × (read.plaintext ≡ 1 ∷ 2 ∷ 3 ∷ [])
    × (encrypt toy numbers_serde read.session_json (4 ∷ []) params.recipient_pub 8 ≡ ok answer)
    × (answer.message_type ≡ 1)
    × (decrypt_whisper toy numbers_serde sent.session_json answer.ciphertext sender seed' ≡ ok last)
    × (last.plaintext ≡ 4 ∷ [])
decrypt_whisper_answer_example =
    decrypt_whisper_answer toy toy-IsEncoding toy-IsDiffieHellman toy-IsVerifying toy-IsAes numbers
      numbers_serde numbers_serde-IsPrinting numbers_serde-IsFaithful params ephemeral_a identity_b
      signed_b sender seed seed' (replicate 32 161) (replicate 32 225) (1 ∷ 2 ∷ 3 ∷ []) (4 ∷ [])
      one_time_b 8 9 (pos 3) (pos 4) text_a text_b built_a built_b acquainted fresh fresh' agrees
      agrees' other_key other_key' (omega arith) (omega arith) (omega arith) (omega arith)
      (omega arith, (omega arith, (omega arith, tt))) (omega arith) (omega arith, tt) (omega arith)

abbrev sent_or : Result EncryptResult → EncryptResult
sent_or (ok s) = s
sent_or (err e) = record { session_json = []; message_type = 0; ciphertext = [] }

-- What the initiator's text sends first.
abbrev first_sent : EncryptResult
first_sent = sent_or (encrypt toy numbers_serde text_a (1 ∷ 2 ∷ 3 ∷ []) sender 9)

returned : {r : Result EncryptResult} {s : EncryptResult} → r ≡ ok s → r ≡ ok (sent_or r)
returned h = h ∙ ap (λ x. ok (sent_or x)) (sym h)

sends_first : encrypt toy numbers_serde text_a (1 ∷ 2 ∷ 3 ∷ []) sender 9 ≡ ok first_sent
sends_first =
    returned
      (delivers (1 ∷ 2 ∷ 3 ∷ []) (omega arith, (omega arith, (omega arith, tt))) (omega arith)).2

Talk-IsSoundText_example : IsSoundText numbers_serde first_sent.session_json
Talk-IsSoundText_example = Talk-IsSoundText toy numbers numbers_serde numbers_serde-IsFaithful (
    Talk.encrypted (1 ∷ 2 ∷ 3 ∷ []) sender 9 first_sent
      (Talk.begin (Began.initial params ephemeral_a (pos 3) text_a built_a)) sends_first)
