-- ===== src/Client/Datatype/Certificate.antt =====
-- `Certificate` of client/datatype.py
pub mod Laws
use Prim.Native.String.{String}
use stem.Base.{
  ℕ, List, [], ◌∷◌, ◌++◌, Bool, true, false, ltb, Bytes, length, Value, num, Result, ok, err,
  value_error, ◌>>=◌, ◌>>◌, raise_if,
}
use stem.Client.Datatype.Enums.{cert_type, get}
use stem.Client.Datatype.Size
use stem.Client.Datatype.Size.{char, short, split}

pub record Certificate : Type 0 where
  pub cert_type : String
  pub type_int : Value
  pub value : Bytes

-- `Certificate(cert_type, value)`
unfoldable pub init : Value → Bytes → Result Certificate
init t value = do
  (kind, kind_int) ← get cert_type t
  ok (record { cert_type = kind; type_int = kind_int; value = value })

unfoldable pub pack : Certificate → Result Bytes
pack c = do
  kind ← Size.pack char c.type_int
  size ← Size.pack short (num (length c.value))
  ok (kind ++ (size ++ c.value))

unfoldable pub pop : Bytes → Result (Certificate × Bytes)
pop content = do
  (kind, content) ← Size.pop char content
  (cert_size, content) ← Size.pop short content
  raise_if (ltb (length content) cert_size) value_error
  let (cert_bytes, content) = split content cert_size
  c ← init (num kind) cert_bytes
  ok (c, content)
