-- ===== src/Agent/Compatibility/Laws.antt =====
-- The compatibility check, against a description of what an FDU needs.
use Prim.Native.String.{slice, len}
use mathlib.Core.List.{Memᴰ}
use fog.Prelude.{
  ℕ, ◌%◌, ◌^◌, ◌≤◌, String, ◌≡◌, ◌⊎◌, inl, inr, refl, sym, ◌∙◌, subst, ap, Bool, true, false,
  Bool-cases, ◌&&◌, Option, none, some, Option-cases, List, [], ◌∷◌, ◌++◌, leb, length, str_eq,
  starts_with, arith, eq_iff,
}
use fog.Sdk.Outcome.{Outcome, ret, unwrap}
use fog.Sdk.Outcome.Laws.{>>=-eq_ret, ret-inj}
use fog.Sdk.Types.{Uuid}
use fog.Sdk.Im.Fdu.{FduDescriptor, Interface, Image}
use fog.Sdk.Im.Node.{NodeInfo, NodeStatus, CpuSpec, DiskStatus}
use fog.Connector.Global.Fdus.{get_fdu}
use fog.Connector.Global.Nodes.{get_node_info, get_node_status}
use fog.Agent.Env.{Env, World}
use fog.Agent.State.{Agent, lookup}
use fog.Agent.Compatibility.{
  is_some, first, find_root, offered, or_default, faces, fold_faces, parented, names, has_resources,
  has_image, check_fdu_compatibility,
}

-- A node offers an interface if it has one of the name of its parent, or any at all where the
-- interface has no parent.
pub offered_lem :
    (x : Interface) (names : List String)
    → offered names x ≡ true
    → (n : String) × Memᴰ n names
      × ((x.virtual_interface.parent ≡ none) ⊎ (x.virtual_interface.parent ≡ some n))
unfolding offered
offered_lem x [] h = cc h
offered_lem x (n ∷ rest) h =
    elim (Bool-cases (str_eq n (or_default x.virtual_interface.parent n))) [
      | inl same ↦ elim (Option-cases x.virtual_interface.parent) [
        | inl e ↦ (n, Memᴰ.head refl, inl e)
        | inr (p, e) ↦
            let named : n ≡ p =
              (eq_iff n p).0 (subst (λ o. str_eq n (or_default o n) ≡ true) e same) in
            (n, Memᴰ.head refl, inr (e ∙ ap some (sym named)))
      ]
      | inr differ ↦ let (m, at, is) = offered_lem x rest (rw differ at h) in (m, Memᴰ.tail at, is)
    ]

fold_faces-snoc :
    (node_interfaces : List String) (xs : List Interface) (x : Interface) (res : Bool)
    → fold_faces node_interfaces res (xs ++ x ∷ []) ≡ offered node_interfaces x
fold_faces-snoc node_interfaces [] x res = refl
fold_faces-snoc node_interfaces (y ∷ xs) x res =
    fold_faces-snoc node_interfaces xs x (offered node_interfaces y)

-- Of the interfaces that need a parent, only the last one is looked at.
pub faces-last :
    (xs : List Interface) (x : Interface) (node_interfaces : List String)
    → faces (xs ++ x ∷ []) node_interfaces ≡ offered node_interfaces x
unfolding faces
faces-last [] x node_interfaces = refl
faces-last (y ∷ xs) x node_interfaces = fold_faces-snoc node_interfaces (y ∷ xs) x true

snoc-cases : {A : Type 0} (l : List A) → (l ≡ []) ⊎ ((xs : List A) × (x : A) × (l ≡ xs ++ x ∷ []))
snoc-cases [] = inl refl
snoc-cases (y ∷ l) = elim (snoc-cases l) [
  | inl e ↦ inr ([], y, ap (λ t. y ∷ t) e)
  | inr (xs, x, e) ↦ inr (y ∷ xs, x, ap (λ t. y ∷ t) e)
]

-- The disk that is found is one of the disks, and is mounted at the root.
find_root_lem :
    (disks : List DiskStatus) {disk : DiskStatus}
    → find_root disks ≡ some disk
    → Memᴰ disk disks × (disk.mount_point ≡ "/")
unfolding find_root
find_root_lem [] h = cc h
find_root_lem (d ∷ disks) {disk} h = elim (Bool-cases (str_eq d.mount_point "/")) [
  | inl e ↦
      let found : some d ≡ some disk = rw e at h in
      let same : d ≡ disk = cc found in
      (
        Memᴰ.head (sym same),
        ap (λ (x : DiskStatus). x.mount_point) (sym same) ∙ (eq_iff d.mount_point "/").0 e,
      )
  | inr e ↦ let (at, is) = find_root_lem disks (rw e at h) in (Memᴰ.tail at, is)
]

unwrap-eq_ret :
    {W A : Type 0} (o : Option A) (w : W) {a : A} {w' : W} → unwrap o w ≡ (ret a, w') → o ≡ some a
unwrap-eq_ret none w h = cc (ap (λ (o : Outcome _ × _). o.0) h)
unwrap-eq_ret (some b) w h = ap some (sym (ret-inj (λ i. (h i).0)))

unwrap-keeps :
    {W A : Type 0} (o : Option A) (w : W) {a : A} {w' : W} → unwrap o w ≡ (ret a, w') → w ≡ w'
unwrap-keeps none w h = ap (λ x. x.1) h
unwrap-keeps (some b) w h = ap (λ x. x.1) h

first_lem : {A : Type 0} (l : List A) {x : A} → first l ≡ some x → (xs : List A) × (l ≡ x ∷ xs)
first_lem [] h = cc h
first_lem (y ∷ ys) h = (ys, cc h)

is_some_lem : {A : Type 0} (o : Option A) → is_some o ≡ true → (a : A) × (o ≡ some a)
is_some_lem none h = cc h
is_some_lem (some a) h = (a, refl)

and_lem : (a b : Bool) → (a && b) ≡ true → (a ≡ true) × (b ≡ true)
and_lem true b h = (refl, h)
and_lem false b h = cc h

leb_lem : (a b : ℕ) → leb a b ≡ true → a ≤ b
leb_lem a b h = ground arith

module _ (env : Env) (self : Agent) where
  -- What the node of the agent has to have for an FDU: a plugin for its hypervisor; a first
  -- processor of its architecture that is fast enough; enough processors, counted in a byte; a disk
  -- at the root with enough space, and enough memory; and the parent of the last of its interfaces
  -- that need one.
  pub record Fits (d : FduDescriptor) (info : NodeInfo) (status : NodeStatus) : Type 0 where
    pub plugin : (client : Uuid) × (lookup d.hypervisor self.inner.hypervisors ≡ some client)
    pub cpu :
        (c : CpuSpec) × (cs : List CpuSpec) × (info.cpu ≡ c ∷ cs)
        × (c.arch ≡ d.computation_requirements.cpu_arch)
        × (d.computation_requirements.cpu_min_freq ≤ c.frequency)
    pub count : d.computation_requirements.cpu_min_count ≤ length info.cpu % 2 ^ 8
    pub ram :
        env.floats.ge status.ram.free (env.floats.from_u32 d.computation_requirements.ram_size_mb)
        ≡ true
    pub disk :
        (disk : DiskStatus) × Memᴰ disk status.disk
        × (disk.mount_point ≡ "/")
        × (env.floats.ge
              (env.floats.times_1024 disk.free)
              (env.floats.from_u32 d.computation_requirements.storage_size_mb)
            ≡ true)
    pub face :
        (parented d.interfaces ≡ [])
        ⊎ ((xs : List Interface) × (x : Interface) × (parented d.interfaces ≡ xs ++ x ∷ [])
            × ((n : String) × Memᴰ n (names status.interfaces)
                × ((x.virtual_interface.parent ≡ none) ⊎ (x.virtual_interface.parent ≡ some n))))

  -- The image of the FDU: there is none, or it is not in a local file, or that file was found.
  abbrev pub Stored : FduDescriptor → World env → World env → Type 0
  Stored d w w' =
      (d.image ≡ none)
      ⊎ ((img : Image) × (d.image ≡ some img)
          × ((starts_with img.uri "file://" ≡ false)
              ⊎ (env.path_exists (slice img.uri 7 (len img.uri)) w ≡ (true, w'))))

  file-eq_true :
      (d : FduDescriptor) (img : Image) (w : World env) {w' : World env}
      → d.image ≡ some img
      → has_image env (some img) w ≡ (ret true, w')
      → Stored d w w'
  unfolding has_image
  file-eq_true d img w {w'} is h = elim (Bool-cases (starts_with img.uri "file://")) [
    | inl e ↦
        let asked : ◌≡◌ {A = Outcome Bool × World env}
            (
              ret (env.path_exists (slice img.uri 7 (len img.uri)) w).0,
              (env.path_exists (slice img.uri 7 (len img.uri)) w).1,
            )
            (ret true, w') =
          rw e at h in
        inr (img, is, inr (λ i. (sym (ret-inj (λ j. (asked j).0)) i, (asked i).1)))
    | inr e ↦ inr (img, is, inl e)
  ]

  has_image-Stored :
      (d : FduDescriptor) (w : World env) {w' : World env}
      → has_image env d.image w ≡ (ret true, w')
      → Stored d w w'
  has_image-Stored d w {w'} h = elim (Option-cases d.image) [
    | inl e ↦ inl e
    | inr (img, e) ↦ file-eq_true d img w e (subst (λ o. has_image env o w ≡ (ret true, w')) e h)
  ]

  Fits-of :
      (d : FduDescriptor) (info : NodeInfo) (status : NodeStatus) (c : CpuSpec) (disk : DiskStatus)
      (image : Bool)
      → first info.cpu ≡ some c
      → find_root status.disk ≡ some disk
      → (is_some (lookup d.hypervisor self.inner.hypervisors)
          && has_resources env d.computation_requirements info status c disk
          && image
          && faces (parented d.interfaces) (names status.interfaces))
        ≡ true
      → (image ≡ true) × Fits d info status
  unfolding has_resources
  Fits-of d info status c disk image one root h =
      let (h₁, face) = and_lem _ _ h in
      let (h₂, there) = and_lem _ image h₁ in
      let (plugin, resources) = and_lem _ _ h₂ in
      let (r₁, space) = and_lem _ _ resources in
      let (r₂, ram) = and_lem _ _ r₁ in
      let (r₃, freq) = and_lem _ _ r₂ in
      let (arch, count) = and_lem _ _ r₃ in
      let (cs, cpus) = first_lem info.cpu one in
      let (at, mounted) = find_root_lem status.disk root in
      (
        there,
        record {
          plugin = is_some_lem _ plugin;
          cpu = (c, cs, cpus, (eq_iff c.arch _).0 arch, leb_lem _ _ freq);
          count = leb_lem _ _ count;
          ram = ram;
          disk = (disk, at, mounted, space);
          face = elim (snoc-cases (parented d.interfaces)) [
            | inl e ↦ inl e
            | inr (xs, x, e) ↦ inr (
              xs,
              x,
              e,
              offered_lem x (names status.interfaces) (
                  sym (faces-last xs x (names status.interfaces))
                  ∙ subst (λ l. faces l (names status.interfaces) ≡ true) e face),
            )
          ];
        },
      )

  -- A check that returns true has read a descriptor of the FDU, and the information and the
  -- status of the node. There is a plugin for the FDU's hypervisor; the first processor has its
  -- architecture and is fast enough; there are enough processors, counted in a byte, enough
  -- memory, and enough space on a disk at the root; and of its interfaces that need a parent, if
  -- any, the last one names an interface of the node, or names none where the node has one. If
  -- the image is in a local file, that file was found, in the last call of the check.
  pub check_fdu_compatibility-Fits :
      (u : Uuid) (w : World env) {w' : World env}
      → check_fdu_compatibility env self u w ≡ (ret true, w')
      → (d : FduDescriptor) × (info : NodeInfo) × (status : NodeStatus) × (w₁ w₂ w₃ : World env)
        × (get_fdu env.zenoh env.codecs self.global u w ≡ (ret d, w₁))
        × (get_node_info env.zenoh env.codecs self.global self.node_uuid w₁ ≡ (ret info, w₂))
        × (get_node_status env.zenoh env.codecs self.global self.node_uuid w₂ ≡ (ret status, w₃))
        × Fits d info status
        × Stored d w₃ w'
  unfolding check_fdu_compatibility has_resources
  check_fdu_compatibility-Fits u w {w'} h =
      let (d, w₁, e₁, h₁) = >>=-eq_ret (get_fdu env.zenoh env.codecs self.global u) _ w h in
      let (info, w₂, e₂, h₂) =
        >>=-eq_ret (get_node_info env.zenoh env.codecs self.global self.node_uuid) _ w₁ h₁ in
      let (status, w₃, e₃, h₃) =
        >>=-eq_ret (get_node_status env.zenoh env.codecs self.global self.node_uuid) _ w₂ h₂ in
      let (c, w₄, e₄, h₄) = >>=-eq_ret (unwrap (first info.cpu)) _ w₃ h₃ in
      let (disk, w₅, e₅, h₅) = >>=-eq_ret (unwrap (find_root status.disk)) _ w₄ h₄ in
      let (image, w₆, e₆, h₆) = >>=-eq_ret (has_image env d.image) _ w₅ h₅ in
      let (there, fits) =
        Fits-of d info status c disk image (unwrap-eq_ret _ w₃ e₄) (unwrap-eq_ret _ w₄ e₅)
          (sym (ret-inj (λ i. (h₆ i).0))) in
      let kept : w₃ ≡ w₅ =
        unwrap-keeps (first info.cpu) w₃ e₄ ∙ unwrap-keeps (find_root status.disk) w₄ e₅ in
      let found : has_image env d.image w₃ ≡ (ret true, w') =
        ap (has_image env d.image) kept ∙ (e₆ ∙ λ i. (ret (there i), (h₆ i).1)) in
      (d, info, status, w₁, w₂, w₃, e₁, e₂, e₃, fits, has_image-Stored d w₃ found)
