-- ===== src/Agent/Os.antt =====
-- `impl OS for Agent` of fog05-agent/src/agent.rs: files, commands and processes of the host.
pub mod Calls
pub mod Laws
use fog.Prelude.{
  ℕ, String, str_eq, ◌<>◌, Bool, true, false, ◌||◌, List, [], ◌∷◌, zero, suc, if◌then◌else◌,
}
use fog.Sdk.Fresult.{FError}
use fog.Sdk.Outcome.{
  Outcome, Result, ok, err, ret, fail, Call, Task, pure, raise, panics, ◌>>=◌, ◌>>◌,
}
use fog.Sdk.Types.{InterfaceKind, IpAddress}
use fog.Agent.State.{Agent, AgentInner, AgentConfig}
use fog.Agent.Os.Calls.{System, Url, Bytes, FileType}

-- `From<std::io::Error>`, and an error of a call that is wrapped in a text of the agent's
abbrev settle_io : {A : Type 0} → (String → FError) → Result String A → Outcome A
settle_io wrap (ok a) = ret a
settle_io wrap (err e) = fail (wrap e)

module _ {W A : Type 0} where
  abbrev io_call_as : (String → FError) → Call W A → Task W A
  io_call_as wrap c w = let (r, w') = c w in (settle_io wrap r, w')

  abbrev io_call : Call W A → Task W A
  io_call = io_call_as FError.io_error

-- `path.exists().await`, whose answer is a value
abbrev asking : {W A : Type 0} → (W → A × W) → Task W A
asking q w = let (a, w') = q w in (ret a, w')

-- `pid.try_into()?`
abbrev converted : {W A : Type 0} → Result String A → Task W A
converted (ok a) = pure a
converted (err e) = raise (FError.conversion_error e)

module _ {W : Type 0} (os : System W) where
  -- the bodies of `dir_exists` and `file_exists`, by the test of the type
  abbrev exists_as : (FileType → Bool) → String → Task W Bool
  exists_as test path = do
    there ← asking (os.exists path)
    if there
        then (do file_type ← io_call (os.file_type path); pure (test file_type))
        else pure false

  unfoldable pub dir_exists : String → Task W Bool
  dir_exists = exists_as λ file_type. file_type.is_dir

  unfoldable pub file_exists : String → Task W Bool
  file_exists = exists_as λ file_type. file_type.is_file

  unfoldable pub create_dir : String → Task W Bool
  create_dir dir_path = do io_call (os.create_dir dir_path); pure true

  unfoldable pub rm_dir : String → Task W Bool
  rm_dir dir_path = do io_call (os.remove_dir dir_path); pure true

  unfoldable pub create_file : String → Task W Bool
  create_file file_path = do
    there ← asking (os.exists file_path)
    if there
        then pure false
        else (do file ← io_call (os.create file_path); io_call (os.sync_all file); pure true)

  unfoldable pub rm_file : String → Task W Bool
  rm_file file_path = do io_call (os.remove_file file_path); pure true

  -- `if !path.exists().await { .. }`
  abbrev create_unless : Bool → String → Task W Unit
  create_unless true file_path = pure tt
  create_unless false file_path = do
    file ← io_call (os.create file_path)
    io_call (os.sync_all file)

  unfoldable pub store_file : Bytes → String → Task W Bool
  store_file content file_path = do
    there ← asking (os.exists file_path)
    create_unless there file_path
    io_call (os.write file_path content)
    pure true

  unfoldable pub read_file : String → Task W Bytes
  read_file file_path = do file ← io_call (os.open_file file_path); io_call (os.read_to_end file)

  abbrev copied : ℕ → Task W Bool
  copied zero = raise (FError.io_error "0 bytes copy")
  copied (suc n) = pure true

  -- `resp.bytes().unwrap()`
  abbrev body_of : os.Response → Task W Bytes
  body_of resp w =
      let (r, w') = os.bytes resp w in elim r [ ok b ↦ (ret b, w') | err e ↦ panics w' ]

  abbrev download_http : Url → String → Task W Bool
  download_http url dest_path = do
    resp ←
        io_call_as (λ e. FError.io_error ("Error in getting " <> url.text <> " error: " <> e))
          (os.get url)
    f ←
        io_call_as
          (λ e. FError.io_error (
            "Unable to create destination file " <> dest_path <> " for " <> url.text <> " error: "
            <> e))
          (os.create dest_path)
    bytes ← body_of resp
    io_call_as (λ e. FError.io_error ("Unable to copy content: " <> e)) (os.copy_into bytes f)
    pure true

  unfoldable pub download_file : Url → String → Task W Bool
  download_file url dest_path =
      if str_eq url.scheme "file"
      then (do n ← io_call (os.copy url.path dest_path); copied n)
      else (if str_eq url.scheme "ssh"
          then raise FError.unimplemented
          else (if str_eq url.scheme "http" || str_eq url.scheme "https"
              then download_http url dest_path
              else raise (FError.io_error ("Schema is not recognized " <> url.scheme))))

  abbrev decoded : Result String String → Task W String
  decoded (ok text) = pure text
  decoded (err e) = raise (FError.io_error e)

  -- `cmd_v.remove(0)` panics when there is no word.
  abbrev run_words : List String → Task W String
  run_words [] = panics
  run_words (cmd ∷ args) = do stdout ← io_call (os.output cmd args); decoded (os.from_utf8 stdout)

  unfoldable pub execute_command : String → Task W String
  execute_command cmd = run_words (os.split_whitespace cmd)

  unfoldable pub send_signal : ℕ → ℕ → Task W Bool
  send_signal signal pid = do
    p ← converted (os.pid_of_u32 pid)
    there ← asking (os.process p)
    if there then raise FError.unimplemented else raise FError.not_found

  unfoldable pub check_if_pid_exists : ℕ → Task W Bool
  check_if_pid_exists pid = do p ← converted (os.pid_of_u32 pid); asking (os.process p)

module _ {W : Type 0} where
  unfoldable pub get_interface_type : String → Task W InterfaceKind
  get_interface_type iface = raise FError.unimplemented

  unfoldable pub set_interface_unavailable : String → Task W Bool
  set_interface_unavailable iface = raise FError.unimplemented

  unfoldable pub set_interface_available : String → Task W Bool
  set_interface_available iface = raise FError.unimplemented

  unfoldable pub get_local_mgmt_address : Task W IpAddress
  get_local_mgmt_address = raise FError.unimplemented

  unfoldable pub get_local_mgmt_interface : Agent → Task W String
  get_local_mgmt_interface self = pure self.inner.config.mgmt_interface
