-- ===== src/Client/Datatype/Kdf.antt =====
-- `KDF` of client/datatype.py. The hash is the library's, and is a parameter.
pub mod Laws
use stem.Base.{
  ℕ, zero, suc, ◌+◌, ◌*◌, ◌≤◌, ◌<◌, List, [], ◌∷◌, ◌++◌, Bool, true, false, ◌≡◌, refl, arith, ltb,
  if◌then◌else◌, Bytes, length, length-append, take, drop, take-append-drop, num, Result, ok, err,
  stuck, ◌>>=◌,
}
use stem.Client.Datatype.Size
use stem.Client.Datatype.Size.{char, split}

abbrev pub hash_len : ℕ
hash_len = 20

abbrev pub key_len : ℕ
key_len = 16

pub record Kdf : Type 0 where
  pub key_hash : Bytes
  pub forward_digest : Bytes
  pub backward_digest : Bytes
  pub forward_key : Bytes
  pub backward_key : Bytes

abbrev pub key_material_len : ℕ
key_material_len = key_len * 2 + hash_len * 3

module _ (sha1 : Bytes → Bytes) where
  -- `while len(derived_key) < KEY_LEN * 2 + HASH_LEN * 3`
  unfoldable pub derive : ℕ → Bytes → Bytes → ℕ → Result Bytes
  derive zero key_material derived_key counter = err stuck
  derive (suc fuel) key_material derived_key counter =
      let more = (do
        c ← Size.pack char (num counter)
        derive fuel key_material (derived_key ++ sha1 (key_material ++ c)) (counter + 1)) in
      if ltb (length derived_key) key_material_len then more else ok derived_key

  abbrev pub cut : Bytes → Kdf
  cut derived_key =
      let (key_hash, rest) = split derived_key hash_len in
      let (forward_digest, rest) = split rest hash_len in
      let (backward_digest, rest) = split rest hash_len in
      let (forward_key, rest) = split rest key_len in
      let (backward_key, rest) = split rest key_len in
      record {
        key_hash = key_hash;
        forward_digest = forward_digest;
        backward_digest = backward_digest;
        forward_key = forward_key;
        backward_key = backward_key;
      }

  -- Five rounds of twenty bytes are enough, and the sixth leaves the loop.
  unfoldable pub from_value : Bytes → Result Kdf
  from_value key_material = do derived_key ← derive 6 key_material [] 0; ok (cut derived_key)
