-- ===== src/Ctl.antt =====
-- fog05-fosctl: the command line tool. `main` of fog05-fosctl/src/main.rs chooses between the two
-- back ends; the arguments are those that structopt has parsed, and the two environment variables
-- are given with them.
pub mod Types
pub mod Args
pub mod Display
pub mod Terminal
pub mod Quiet
pub mod Force
pub mod Fim
use fog.Prelude.{ℕ, String, Option, none, some}
use fog.Sdk.Fresult.{FError}
use fog.Sdk.Outcome.{Task}
use fog.Connector.Global.Defs.{Global}
use fog.Agent.Env.{Env, World}
use fog.Ctl.Args.{FosCtl}
use fog.Ctl.Terminal.{Machine, Screen}
use fog.Ctl.Force.{force_cli}
use fog.Ctl.Fim.{Session, fim_cli}

abbrev or_default : Option String → String → String
or_default none text = text
or_default (some s) text = s

module _ (env : Env) (machine : Machine (World env)) (session : Session (World env))
    (fuel : ℕ) where
  unfoldable pub main : Option String → Option String → FosCtl → Task (Screen × World env) Unit
  main force_host zlocator (FosCtl.fim fim_args) =
      fim_cli env machine session fim_args (or_default zlocator "tcp/127.0.0.1:61189")
  main force_host zlocator args = force_cli machine fuel args (or_default force_host "127.0.0.1")
