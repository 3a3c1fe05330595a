-- ===== src/Protocol/Result.antt =====
-- inc/vb/core/result.hpp as the protocol uses it, and the decoders' way of working: a `decode`
-- function reads through one ByteReader, may return an error at once, and asks the reader at the end.
pub mod Reads
pub mod Fields
use voxel_browser.Prelude.{
  ℕ, zero, suc, Bool, true, false, ◌&&◌, not, none, Option, some, List, [], ◌∷◌, ◌++◌,
  if◌then◌else◌, ltb,
}
use voxel_browser.Protocol.ByteBuffer.{
  ProtocolError, Reader, open_reader, failed, fail, expect_consumed, put_boolean, get_boolean,
  length_exceeded,
}

pub data Result {ℓ} (A : Type ℓ) : Type ℓ where
  ok : A → Result A
  err : ProtocolError → Result A

-- `err` is an early `return Err{...}`; a read that failed goes on, with the error in the reader.
abbrev pub Decoder {ℓ} : Type ℓ → Type ℓ
Decoder A = Reader → Result (A × Reader)

abbrev pub bind_result {ℓ κ} : {A : Type ℓ} {B : Type κ} → Result A → (A → Result B) → Result B
bind_result (ok a) f = f a
bind_result (err e) f = err e

infixl 5 ◌>>=◌ ◌>>◌
unfoldable pub ◌>>=◌ {ℓ κ} : {A : Type ℓ} {B : Type κ} → Decoder A → (A → Decoder B) → Decoder B
◌>>=◌ m f r = bind_result (m r) (λ (a, r'). f a r')

abbrev pub ◌>>◌ {ℓ} : {B : Type ℓ} → Decoder (Unit {0}) → Decoder B → Decoder B
m >> k = m >>= λ _. k

unfoldable pub ret {ℓ} : {A : Type ℓ} → A → Decoder A
ret a r = ok (a, r)

unfoldable pub read {ℓ} : {A : Type ℓ} → (Reader → A × Reader) → Decoder A
read get r = ok (get r)

-- `if (condition) { return Err{ e }; }`
unfoldable pub reject_if : Bool → ProtocolError → Decoder (Unit {0})
reject_if condition e r = if condition then err e else ok (tt, r)

-- `if (!r.failed() && condition) { return Err{ e }; }`
unfoldable pub reject_live_if : Bool → ProtocolError → Decoder (Unit {0})
reject_live_if condition e r = if not (failed r) && condition then err e else ok (tt, r)

-- `if (!r.failed() && condition) { r.fail(e); }`
unfoldable pub fail_live_if : Bool → ProtocolError → Decoder (Unit {0})
fail_live_if condition e r = ok (tt, if not (failed r) && condition then fail e r else r)

-- `for (i = 0; i < n && !r.failed(); ++i) { out.push_back(item); }`
unfoldable pub read_list {ℓ} : {A : Type ℓ} → ℕ → Decoder A → Decoder (List A)
read_list zero item r = ok ([], r)
read_list (suc n) item r = elim (failed r) [
  | true ↦ ok ([], r)
  | false ↦
      bind_result (item r)
        (λ (x, r'). bind_result (read_list n item r') (λ (xs, r''). ok (x ∷ xs, r'')))
]

-- `if (n > cap) { r.fail(kLengthExceeded); return; }` in front of such a loop.
unfoldable pub read_capped {ℓ} : {A : Type ℓ} → ℕ → ℕ → Decoder A → Decoder (List A)
read_capped n cap item r =
    let items = read_list n item r in if ltb cap n then ok ([], fail length_exceeded r) else items

-- `w.boolean(o.has_value()); if (o) { write(*o); }`
unfoldable pub write_optional {ℓ} : {A : Type ℓ} → (A → List ℕ) → Option A → List ℕ
write_optional write none = put_boolean false
write_optional write (some a) = put_boolean true ++ write a

-- `if (r.boolean()) { o = item; }`
unfoldable pub read_optional {ℓ} : {A : Type ℓ} → Decoder A → Decoder (Option A)
read_optional item = do
  has_value ← read get_boolean
  if has_value then (item >>= λ a. ret (some a)) else ret none

-- `finish`: the payload has to be consumed, and the reader must not have failed.
unfoldable pub finish {ℓ} : {A : Type ℓ} → A → Reader → Result A
finish value r = elim (expect_consumed r).error [ none ↦ ok value | some e ↦ err e ]

unfoldable pub decode_with {ℓ} : {A : Type ℓ} → Decoder A → List ℕ → Result A
decode_with m bytes = bind_result (m (open_reader bytes)) (λ (value, r). finish value r)

-- The parts of a message, one after another.
abbrev pub concat : List (List ℕ) → List ℕ
concat [] = []
concat (part ∷ parts) = part ++ concat parts
