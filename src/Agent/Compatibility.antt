-- ===== src/Agent/Compatibility.antt =====
-- `check_fdu_compatibility` of `impl AgentOrchestratorInterface for Agent`: whether the node can
-- run an FDU.
pub mod Laws
pub mod Bounds
use Prim.Native.String.{slice, len}
use mathlib.Core.List.{foldl}
use fog.Prelude.{
  ℕ, ◌%◌, ◌^◌, String, Bool, true, false, ◌&&◌, Option, none, some, List, [], ◌∷◌, leb, length,
  str_eq, starts_with, if◌then◌else◌,
}
use fog.Sdk.Fresult.{FError}
use fog.Sdk.Outcome.{ret, Task, pure, unwrap, ◌>>=◌, ◌>>◌}
use fog.Sdk.Types.{Uuid}
use fog.Sdk.Im.Fdu.{
  FduDescriptor, Image, Interface, VirtualInterfaceKind, bridged, physical,
  ComputationalRequirements,
}
use fog.Sdk.Im.Node.{NodeInfo, NodeStatus, CpuSpec, DiskStatus, NetworkInterfaceStatus}
use fog.Connector.Global.Fdus.{get_fdu}
use fog.Connector.Global.Nodes.{get_node_info, get_node_status}
use fog.Agent.Env.{Env, World}
use fog.Agent.State.{Agent, lookup}

abbrev pub is_some {ℓ} : {A : Type ℓ} → Option A → Bool
is_some none = false
is_some (some a) = true

-- `node_info.cpu[0]`, which panics on an empty list
abbrev pub first {ℓ} : {A : Type ℓ} → List A → Option A
first [] = none
first (x ∷ xs) = some x

-- `.find(|x| x.mount_point == *"/")`
unfoldable pub find_root : List DiskStatus → Option DiskStatus
find_root [] = none
find_root (disk ∷ disks) = if str_eq disk.mount_point "/" then some disk else find_root disks

-- `matches!(x.virtual_interface.vif_kind, BRIDGED | PHYSICAL)`
abbrev pub needs_parent : VirtualInterfaceKind → Bool
needs_parent bridged = true
needs_parent physical = true
needs_parent _ = false

unfoldable pub parented : List Interface → List Interface
parented [] = []
parented (x ∷ xs) =
    let rest = parented xs in if needs_parent x.virtual_interface.vif_kind then x ∷ rest else rest

-- `parent.unwrap_or(&default)`
abbrev or_default : Option String → String → String
or_default none default = default
or_default (some parent) default = parent

-- `node_interfaces.iter().any(..)`: a node interface with the name of the parent
unfoldable pub offered : List String → Interface → Bool
offered [] x = false
offered (y ∷ names) x =
    if str_eq y (or_default x.virtual_interface.parent y) then true else offered names x

unfoldable pub names : List NetworkInterfaceStatus → List String
names [] = []
names (x ∷ xs) = x.name ∷ names xs

-- The `fold` over the interfaces of the FDU. Its body does not read the result so far.
abbrev pub fold_faces : List String → Bool → List Interface → Bool
fold_faces node_interfaces = foldl (λ res x. offered node_interfaces x)

unfoldable pub faces : List Interface → List String → Bool
unfolding offered
faces [] node_interfaces = true
faces (x ∷ xs) node_interfaces = fold_faces node_interfaces true (x ∷ xs)

-- `node_info.cpu.len() as u8`
abbrev pub cpu_count : List CpuSpec → ℕ
cpu_count cpus = length cpus % 2 ^ 8

module _ (env : Env) where
  -- The checks on the numbers, from the first processor and the root disk.
  unfoldable pub has_resources :
      ComputationalRequirements → NodeInfo → NodeStatus → CpuSpec → DiskStatus → Bool
  has_resources r info status cpu disk =
      str_eq cpu.arch r.cpu_arch
      && leb r.cpu_min_count (cpu_count info.cpu)
      && leb r.cpu_min_freq cpu.frequency
      && env.floats.ge status.ram.free (env.floats.from_u32 r.ram_size_mb)
      && env.floats.ge (env.floats.times_1024 disk.free) (env.floats.from_u32 r.storage_size_mb)

  -- `match descriptor.image`: an image in a local file has to be there.
  unfoldable pub has_image : Option Image → Task (World env) Bool
  has_image none w = (ret true, w)
  has_image (some img) w =
      if starts_with img.uri "file://"
      then (let (there, w') = env.path_exists (slice img.uri 7 (len img.uri)) w in (ret there, w'))
      else (ret true, w)

  unfoldable pub check_fdu_compatibility : Agent → Uuid → Task (World env) Bool
  unfolding has_resources has_image faces find_root parented names
  check_fdu_compatibility self fdu_uuid = do
    descriptor ← get_fdu env.zenoh env.codecs self.global fdu_uuid
    node_info ← get_node_info env.zenoh env.codecs self.global self.node_uuid
    node_status ← get_node_status env.zenoh env.codecs self.global self.node_uuid
    let has_plugin = is_some (lookup descriptor.hypervisor self.inner.hypervisors)
    cpu ← unwrap (first node_info.cpu)
    disk ← unwrap (find_root node_status.disk)
    let resources = has_resources descriptor.computation_requirements node_info node_status cpu disk
    image ← has_image descriptor.image
    pure (
        has_plugin
        && resources
        && image
        && faces (parented descriptor.interfaces) (names node_status.interfaces))
