-- ===== src/Dummy/Hypervisor/Plugin.antt =====
-- `impl HypervisorPlugin for DummyHypervisor` of fog05-sdk/examples/dummy-hypervisor.rs, as a whole.
use fog.Sdk.Fresult.{FError}
use fog.Sdk.Outcome.{Task, raise}
use fog.Interfaces.Hypervisor.{HypervisorPlugin}
use fog.Dummy.Env.{Env, World}
use fog.Dummy.Hypervisor.Configure.{DummyHypervisor}
use fog.Dummy.Hypervisor.{
  Fdus, define_fdu, undefine_fdu, configure_fdu, clean_fdu, start_fdu, stop_fdu, get_fdu_status,
}

module _ (env : Env) (self : DummyHypervisor) where
  abbrev pub hypervisor_plugin : HypervisorPlugin (Task (Fdus × World env))
  hypervisor_plugin = record {
    define_fdu = define_fdu env self;
    undefine_fdu = undefine_fdu env self;
    configure_fdu = configure_fdu env self;
    clean_fdu = clean_fdu env self;
    start_fdu = start_fdu env self;
    run_fdu = λ x0. raise FError.unimplemented;
    log_fdu = λ x0. raise FError.unimplemented;
    ls_fdu = λ x0. raise FError.unimplemented;
    file_fdu = λ x0 x1. raise FError.unimplemented;
    stop_fdu = stop_fdu env self;
    migrate_fdu = λ x0 x1. raise FError.unimplemented;
    get_fdu_status = get_fdu_status env self;
  }
