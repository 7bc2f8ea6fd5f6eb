-- ===== src/Zenoh.antt =====
-- The zenoh store, as fog05-sdk/src/zconnector uses it: keys that may hold wildcards, values, and
-- the calls of a workspace. Zenoh is another program: its calls are parameters, and what they are
-- known to do is stated in Zenoh/Reliable. A path such as `/fos/global/x/info` is represented by
-- the chunks between its slashes (a UUID is printed with no slash).
pub mod Select
pub mod Reliable
pub mod Memory
use fog.Prelude.{ℕ, ◌≡◌, String, Bool, true, false, List, [], ◌∷◌, ◌&&◌, ◌==◌, str_eq}
use fog.Sdk.Outcome.{Result, ok, Call}

pub data Chunk : Type 0 where
  word : String → Chunk
  id : ℕ → Chunk
  star : Chunk

abbrev pub Key : Type 0
Key = List Chunk

-- `zenoh::Value`: the program reads `Raw` buffers only, and tells them from all else.
pub data Value : Type 0 where
  raw : List ℕ → Value
  other : Value

abbrev pub Entry : Type 0
Entry = Key × Value

-- The calls of zenoh that the program makes, over the world in which they run.
pub record Zenoh : Type 1 where
  pub World : Type 0
  pub path_try_from : Key → Result String Key
  pub selector_try_from : Key → Result String Key
  pub workspace : Call World Unit
  pub get : Key → Call World (List Entry)
  pub put : Key → Value → Call World Unit
  pub delete : Key → Call World Unit

-- serde with the chosen format, for one type of data
pub record Codec (A : Type 0) : Type 0 where
  pub serialize : A → Result String (List ℕ)
  pub deserialize : List ℕ → Result String A

-- The value `a` can be written, and what is written reads back as `a`.
pub record RoundTrips {A : Type 0} (c : Codec A) (a : A) : Type 0 where
  pub buffer : List ℕ
  pub written : c.serialize a ≡ ok buffer
  pub back : c.deserialize buffer ≡ ok a

-- `*` stands for one chunk, whatever it is.
abbrev pub chunk_matches : Chunk → Chunk → Bool
chunk_matches star c = true
chunk_matches (word s) (word t) = str_eq s t
chunk_matches (id a) (id b) = a == b
chunk_matches _ c = false

abbrev pub key_matches : Key → Key → Bool
key_matches [] [] = true
key_matches [] (d ∷ ds) = false
key_matches (c ∷ cs) [] = false
key_matches (c ∷ cs) (d ∷ ds) = chunk_matches c d && key_matches cs ds

-- A path: a key with no wildcard.
abbrev pub IsPath : Key → Type 0
IsPath [] = Unit
IsPath (star ∷ k) = ⊥
IsPath (word s ∷ k) = IsPath k
IsPath (id u ∷ k) = IsPath k
