-- ===== src/Connector/Query.antt =====
-- The steps that the methods of zconnector/mod.rs and zconnector/local.rs repeat: parse a
-- selector, open a workspace, get, collect the answers and decode one or all of them; or parse a
-- path, open a workspace, encode and put; or delete.
pub mod Laws
pub mod Frames
use fog.Prelude.{List, [], ◌∷◌}
use fog.Sdk.Fresult.{FError}
use fog.Sdk.Outcome.{Task, pure, raise, zenoh_call, zenoh_value, codec_value, ◌>>=◌, ◌>>◌}
use fog.Zenoh.{Zenoh, Key, Value, raw, other, Entry, Codec}

module _ {W A : Type 0} (c : Codec A) where
  -- `deserialize_data(buf)?` where the value is `Raw`
  unfoldable pub decode : Value → Task W A
  decode (raw buf) = codec_value (c.deserialize buf)
  decode other = raise FError.encoding_error

  -- `match data.len()`: one answer is wanted
  unfoldable pub single : List Entry → Task W A
  unfolding decode
  single [] = raise FError.not_found
  single (kv ∷ []) = decode kv.1
  single (kv ∷ kv' ∷ rest) = raise FError.too_much_error

  -- the loop that decodes every answer and ends at the first that it cannot decode
  unfoldable pub decode_all : List Entry → Task W (List A)
  unfolding decode
  decode_all [] = pure []
  decode_all (kv ∷ rest) = do info ← decode kv.1; infos ← decode_all rest; pure (info ∷ infos)

module _ (z : Zenoh) where
  unfoldable pub query : Key → Task z.World (List Entry)
  query k = do
    selector ← zenoh_value (z.selector_try_from k)
    zenoh_call z.workspace
    zenoh_call (z.get selector)

  unfoldable pub delete_key : Key → Task z.World Unit
  delete_key k = do
    path ← zenoh_value (z.path_try_from k)
    zenoh_call z.workspace
    zenoh_call (z.delete path)

  module _ {A : Type 0} (c : Codec A) where
    unfoldable pub get_one : Key → Task z.World A
    unfolding query single
    get_one k = do answers ← query k; single c answers

    unfoldable pub get_all : Key → Task z.World (List A)
    unfolding query decode_all
    get_all k = do answers ← query k; decode_all c answers

    unfoldable pub put_value : Key → A → Task z.World Unit
    put_value k a = do
      path ← zenoh_value (z.path_try_from k)
      zenoh_call z.workspace
      encoded ← codec_value (c.serialize a)
      zenoh_call (z.put path (raw encoded))
