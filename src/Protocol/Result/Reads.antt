-- ===== src/Protocol/Result/Reads.antt =====
-- How a decoder reads what an encoder wrote: rules for each way in which decoders are put together.
use voxel_browser.Prelude.{
  ℕ, ◌≡◌, refl, Bool, true, false, Option, none, some, List, [], ◌∷◌, ◌++◌, append_assoc, length,
  ap, map, All, ◌≤◌, le→ltb,
}
use voxel_browser.Protocol.ByteBuffer.{
  ProtocolError, Reader, open_reader, trailing_bytes, put_boolean, expect_consumed,
}
use voxel_browser.Protocol.ByteBuffer.Reads.{Gets, get_boolean-Gets}
use voxel_browser.Protocol.Result.{
  Result, ok, err, Decoder, ◌>>=◌, ret, read, reject_if, reject_live_if, fail_live_if, read_list,
  finish, decode_with, read_capped, read_optional, write_optional, concat,
}

-- On an input that begins with `bytes` the decoder returns `v`, and stands behind them.
pub record Reads {ℓ} {A : Type ℓ} (m : Decoder A) (bytes : List ℕ) (v : A) : Type ℓ where
  pub run : (rest : List ℕ) → m (open_reader (bytes ++ rest)) ≡ ok (v, open_reader rest)

module _ {ℓ κ} {A : Type ℓ} {B : Type κ} where
  pub next :
      {m : Decoder A} {bs cs : List ℕ} {a : A} {b : B} (f : A → Decoder B)
      → Reads m bs a
      → Reads (f a) cs b
      → Reads (m >>= f) (bs ++ cs) b
  unfolding ◌>>=◌
  next {bs} {cs} f p q = record {
    run = λ rest. rw (append_assoc bs cs rest, p.run (cs ++ rest)) (q.run rest);
  }

-- A part with nothing after it.
pub alone {ℓ κ} :
    {A : Type ℓ} {B : Type κ} {m : Decoder A} {bs : List ℕ} {a : A} {b : B} (f : A → Decoder B)
    → Reads m bs a
    → Reads (f a) [] b
    → Reads (m >>= f) bs b
unfolding ◌>>=◌
alone f p q = record { run = λ rest. rw (p.run rest) (q.run rest) }

-- A check that passes.
pub skip {ℓ} :
    {B : Type ℓ} {m : Decoder (Unit {0})} {cs : List ℕ} {b : B} (f : Unit {0} → Decoder B)
    → Reads m [] tt
    → Reads (f tt) cs b
    → Reads (m >>= f) cs b
unfolding ◌>>=◌
skip {cs} f p q = record { run = λ rest. rw (p.run (cs ++ rest)) (q.run rest) }

module _ {ℓ} {A : Type ℓ} where
  pub done : (a : A) → Reads (ret a) [] a
  unfolding ret
  done a = record { run = λ rest. refl }

  pub one :
      (get : Reader → A × Reader) {bs : List ℕ} {a : A} → Gets get bs a → Reads (read get) bs a
  unfolding read
  one get g = record { run = λ rest. ap ok (g rest) }

pub reject_if-Reads : (c : Bool) (e : ProtocolError) → c ≡ false → Reads (reject_if c e) [] tt
unfolding reject_if
reject_if-Reads c e h = record { run = λ rest. rw h refl }

pub reject_live_if-Reads :
    (c : Bool) (e : ProtocolError) → c ≡ false → Reads (reject_live_if c e) [] tt
unfolding reject_live_if
reject_live_if-Reads c e h = record { run = λ rest. rw h refl }

pub fail_live_if-Reads : (c : Bool) (e : ProtocolError) → c ≡ false → Reads (fail_live_if c e) [] tt
unfolding fail_live_if
fail_live_if-Reads c e h = record { run = λ rest. rw h refl }

-- A list of items, each of which is read back from what `write` made of it.
pub read_list-Reads {ℓ κ} :
    {A : Type ℓ} (P : A → Type κ) (item : Decoder A) (write : A → List ℕ)
    → ((x : A) → P x → Reads item (write x) x)
    → (xs : List A) → All P xs
    → Reads (read_list (length xs) item) (concat (map write xs)) xs
unfolding read_list
read_list-Reads P item write each [] h = record { run = λ rest. refl }
read_list-Reads P item write each (x ∷ xs) h = record {
  run = λ rest.
      rw
        (
          append_assoc (write x) (concat (map write xs)) rest,
          (each x h.0).run (concat (map write xs) ++ rest),
          (read_list-Reads P item write each xs h.1).run rest,
        )
        refl;
}

pub read_capped-Reads {ℓ} :
    {A : Type ℓ} (n cap : ℕ) (item : Decoder A) {bs : List ℕ} {xs : List A}
    → n ≤ cap
    → Reads (read_list n item) bs xs
    → Reads (read_capped n cap item) bs xs
unfolding read_capped
read_capped-Reads n cap item h p = record { run = λ rest. rw (le→ltb cap n h) (p.run rest) }

abbrev pub OptionAll {ℓ κ} : {A : Type ℓ} → (A → Type κ) → Option A → Type κ
OptionAll P none = Unit
OptionAll P (some a) = P a

pub optional {ℓ κ} :
    {A : Type ℓ} (P : A → Type κ) (item : Decoder A) (write : A → List ℕ)
    → ((x : A) → P x → Reads item (write x) x)
    → (o : Option A) → OptionAll P o
    → Reads (read_optional item) (write_optional write o) o
unfolding read_optional write_optional ◌>>=◌ ret read
optional P item write each none h = record { run = λ rest. rw (get_boolean-Gets false rest) refl }
optional P item write each (some x) h = record {
  run = λ rest.
      rw
        (
          append_assoc (put_boolean true) (write x) rest,
          get_boolean-Gets true (write x ++ rest),
          (each x h).run rest,
        )
        refl;
}

-- What a message's `decode` answers where its payload is followed by `extra`.
abbrev pub exactly {ℓ} : {A : Type ℓ} → A → List ℕ → Result A
exactly v [] = ok v
exactly v (b ∷ bs) = err trailing_bytes

pub decode_with-Reads {ℓ} :
    {A : Type ℓ} {m : Decoder A} {bs : List ℕ} {v : A} (extra : List ℕ)
    → Reads m bs v
    → decode_with m (bs ++ extra) ≡ exactly v extra
unfolding decode_with finish expect_consumed
decode_with-Reads [] p = rw (p.run []) refl
decode_with-Reads (b ∷ extra) p = rw (p.run (b ∷ extra)) refl
