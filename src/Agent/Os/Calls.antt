-- ===== src/Agent/Os/Calls.antt =====
-- What the operating system interface of fog05-agent/src/agent.rs calls: `async_std::fs`, processes,
-- an HTTP client, and the standard library's texts.
use fog.Prelude.{ℕ, String, Bool, List}
use fog.Sdk.Outcome.{Result, Call}

abbrev pub Bytes : Type 0
Bytes = List ℕ

pub record FileType : Type 0 where
  pub is_dir : Bool
  pub is_file : Bool

-- `url::Url`
pub record Url : Type 0 where
  pub text : String
  pub scheme : String
  pub path : String

pub record System (W : Type 0) : Type 1 where
  -- an open file, and a response of a web server
  pub File : Type 0
  pub Response : Type 0
  pub exists : String → W → Bool × W
  pub file_type : String → Call W FileType
  pub create_dir : String → Call W Unit
  pub remove_dir : String → Call W Unit
  pub create : String → Call W File
  pub open_file : String → Call W File
  pub sync_all : File → Call W Unit
  pub remove_file : String → Call W Unit
  pub write : String → Bytes → Call W Unit
  pub read_to_end : File → Call W Bytes
  pub copy : String → String → Call W ℕ
  pub copy_into : Bytes → File → Call W ℕ
  pub get : Url → Call W Response
  pub bytes : Response → Call W Bytes
  -- the standard output of a command with its arguments
  pub output : String → List String → Call W Bytes
  pub process : ℕ → W → Bool × W
  pub pid_of_u32 : ℕ → Result String ℕ
  pub split_whitespace : String → List String
  pub from_utf8 : Bytes → Result String String
