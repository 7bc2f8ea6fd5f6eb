-- ===== src/Agent/Os/Laws.antt =====
-- The files of the host, on a file system that documents what it does.
use fog.Prelude.{String, ◌≡◌, ◌⊎◌, inl, inr, true, false, Bool, []}
use fog.Sdk.Outcome.{ok, ret}
use fog.Agent.Os.Calls.{System, Bytes}
use fog.Agent.Os.{store_file, read_file}

-- What is under a path.
pub data Entry : Type 0 where
  absent directory : Entry
  file : Bytes → Entry

abbrev pub is_there : Entry → Bool
is_there absent = false
is_there _ = true

-- A file system whose paths all lie in directories that are there, and whose files can be written
-- and read.
pub record Files {W : Type 0} (os : System W) : Type 0 where
  pub at : String → W → Entry
  pub exists_ok : (path : String) (w : W) → os.exists path w ≡ (is_there (at path w), w)
  pub create_ok :
      (path : String) (w : W)
      → at path w ≡ absent
      → (f : os.File) × (w' : W) × (os.create path w ≡ (ok f, w')) × (at path w' ≡ file [])
  pub sync_ok : (f : os.File) (w : W) → os.sync_all f w ≡ (ok tt, w)
  pub write_ok :
      (path : String) (content old : Bytes) (w : W)
      → at path w ≡ file old
      → (w' : W) × (os.write path content w ≡ (ok tt, w')) × (at path w' ≡ file content)
  pub read_ok :
      (path : String) (content : Bytes) (w : W)
      → at path w ≡ file content
      → (f : os.File) × (w₁ w₂ : W) × (os.open_file path w ≡ (ok f, w₁))
        × (os.read_to_end f w₁ ≡ (ok content, w₂))

module _ {W : Type 0} (os : System W) (files : Files os) (path : String) where
  -- On a file system whose paths lie in directories that are there: a file that is stored under a
  -- path that is free, or that is another file's, makes `store_file` return `true`, and is then
  -- read as it was stored.
  pub read_file-store_file :
      (content : Bytes) (w : W)
      → (files.at path w ≡ absent) ⊎ ((old : Bytes) × (files.at path w ≡ file old))
      → (w₁ w₂ : W) × (store_file os content path w ≡ (ret true, w₁))
        × (read_file os path w₁ ≡ (ret content, w₂))
  unfolding store_file read_file
  read_file-store_file content w (inl free) =
      let (f, w₁, created, now) = files.create_ok path w free in
      let (w₂, written, after) = files.write_ok path content [] w₁ now in
      let (g, w₃, w₄, opened, all) = files.read_ok path content w₂ after in
      (
        w₂,
        w₄,
        rw (files.exists_ok path w, free, created, files.sync_ok f w₁, written),
        rw (opened, all),
      )
  read_file-store_file content w (inr (old, used)) =
      let (w₂, written, after) = files.write_ok path content old w used in
      let (g, w₃, w₄, opened, all) = files.read_ok path content w₂ after in
      (w₂, w₄, rw (files.exists_ok path w, used, written), rw (opened, all))
