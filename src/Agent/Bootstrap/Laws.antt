-- ===== src/Agent/Bootstrap/Laws.antt =====
-- At most one agent of a machine: what the PID file is for.
use fog.Prelude.{
  ℕ, subst, String, ◌≡◌, refl, ap, ◌∙◌, ◌⊎◌, inl, inr, Bool, true, false, Option, none, some,
}
use fog.Sdk.Outcome.{expect, expecting, Outcome, ok, ret}
use fog.Sdk.Outcome.Laws.{expect-eq_ret, expecting-eq_ret, >>=-eq_ret, ret-inj}
use fog.Agent.Bootstrap.{
  Machine, ProcessStatus, read_file, write_file, parsed_pid, old_pid, alive, remove_stale, cleared,
  claim,
}

module _ {W : Type 0} (machine : Machine W) where
  -- There was no file, or one with the PID of a process that was not running, which was removed.
  abbrev pub Unclaimed : String → W → W → Type 0
  Unclaimed path w w' =
      (machine.exists path w ≡ (false, w'))
      ⊎ ((text : String) × (pid : ℕ) × (status : Option ProcessStatus) × (w₁ w₂ w₃ : W)
          × (machine.exists path w ≡ (true, w₁))
          × (machine.read_to_string path w₁ ≡ (ok text, w₂))
          × (machine.parse_i32 text ≡ ok pid)
          × (machine.process pid w₂ ≡ (status, w₃))
          × (alive machine status ≡ false)
          × (machine.remove_file path w₃ ≡ (ok tt, w')))

  remove_stale-eq_ret :
      (b : Bool) (path : String) (w : W) {w' : W}
      → remove_stale machine b path w ≡ (ret tt, w')
      → (b ≡ false) × (machine.remove_file path w ≡ (ok tt, w'))
  remove_stale-eq_ret true path w h = cc (ap (λ (x : Outcome Unit × W). x.0) h)
  remove_stale-eq_ret false path w h = (refl, expecting-eq_ret (machine.remove_file path) w h)

  some_pid-eq_ret :
      (path : String) (w : W) {pid : Option ℕ} {w' : W}
      → parsed_pid machine true path w ≡ (ret pid, w')
      → (text : String) × (p : ℕ) × (machine.read_to_string path w ≡ (ok text, w'))
        × (machine.parse_i32 text ≡ ok p)
        × (pid ≡ some p)
  some_pid-eq_ret path w h =
      let (text, w₁, e, rest) = >>=-eq_ret (read_file machine path) _ w h in
      let (p, w₂, e', last) = >>=-eq_ret (expect (machine.parse_i32 text)) _ w₁ rest in
      let (is, same) = expect-eq_ret (machine.parse_i32 text) w₁ e' in
      let whole = e ∙ (λ i. (ret text, same i)) ∙ (λ i. (ret text, (last i).1)) in
      (
        text,
        p,
        expecting-eq_ret (machine.read_to_string path) w whole,
        is,
        ret-inj (ap (λ x. x.0) last),
      )

  cleared-Unclaimed :
      (path : String) (b : Bool) (w w₀ : W) {pid : Option ℕ} {w₁ w₂ : W}
      → machine.exists path w ≡ (b, w₀)
      → parsed_pid machine b path w₀ ≡ (ret pid, w₁)
      → cleared machine pid path w₁ ≡ (ret tt, w₂)
      → Unclaimed path w w₂
  cleared-Unclaimed path false w w₀ {pid} {w₁} {w₂} e h k =
      let is = ret-inj (ap (λ x. x.0) h) in
      let gone : cleared machine none path w₁ ≡ (ret tt, w₂) =
        subst (λ p. cleared machine p path w₁ ≡ (ret tt, w₂)) is k in
      inl (e ∙ λ i. (false, (ap (λ x. x.1) h ∙ ap (λ x. x.1) gone) i))
  cleared-Unclaimed path true w w₀ {pid} {w₁} {w₂} e h k =
      let (text, p, read, parsed, is) = some_pid-eq_ret path w₀ h in
      let at_p : cleared machine (some p) path w₁ ≡ (ret tt, w₂) =
        subst (λ x. cleared machine x path w₁ ≡ (ret tt, w₂)) is k in
      let (status, w₃) = machine.process p w₁ in
      let (dead, removed) = remove_stale-eq_ret (alive machine status) path w₃ at_p in
      inr (text, p, status, w₀, w₁, w₃, e, read, parsed, refl, dead, removed)

  -- The file was created, and the PID of this process was written to it.
  abbrev pub Written : String → W → W → Type 0
  Written path w w' =
      (file : ℕ) × (w₁ w₂ : W) × (machine.create path w ≡ (ok file, w₁))
      × (machine.write_all file (machine.show machine.id) w₁ ≡ (ok tt, w₂))
      × (machine.sync_all file w₂ ≡ (ok tt, w'))

  write_file-Written :
      (path : String) (w : W) {w' : W}
      → write_file machine path (machine.show machine.id) w ≡ (ret tt, w')
      → Written path w w'
  write_file-Written path w h =
      let (file, w₁, e₁, h₁) = >>=-eq_ret (expecting (machine.create path)) _ w h in
      let (_, w₂, e₂, h₂) =
        >>=-eq_ret (expecting (machine.write_all file (machine.show machine.id))) _ w₁ h₁ in
      (
        file,
        w₁,
        w₂,
        expecting-eq_ret (machine.create path) w e₁,
        expecting-eq_ret (machine.write_all file (machine.show machine.id)) w₁ e₂,
        expecting-eq_ret (machine.sync_all file) w₂ h₂,
      )

  pub claim-eq_ret :
      (path : String) (w : W) {w' : W}
      → claim machine path w ≡ (ret tt, w')
      → (w₁ : W) × Unclaimed path w w₁ × Written path w₁ w'
  claim-eq_ret path w h =
      let (pid, w₁, e, rest) = >>=-eq_ret (old_pid machine path) _ w h in
      let (_, w₂, e', last) = >>=-eq_ret (cleared machine pid path) _ w₁ rest in
      (
        w₂,
        cleared-Unclaimed path (machine.exists path w).0 w (machine.exists path w).1 refl e e',
        write_file-Written path w₂ last,
      )
