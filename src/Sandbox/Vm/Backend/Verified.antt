-- ===== src/Sandbox/Vm/Backend/Verified.antt =====
-- The check of the boot files over the calls of the QEMU backend, which does it once: when the files
-- have passed it, later sessions start without another check, even if the files have changed.
use doc_bunker.Prelude.{
  ℕ, ◌≡◌, ◌≢◌, ◌⊎◌, inl, inr, refl, ap, sym, Bool, true, false, Option, none, some, List, [], ◌∷◌,
  arith, Result, ok, err, Bool-cases, if◌then◌else◌, Result-cases, text_eq_iff, String, Text,
}
use doc_bunker.Prelude.Assoc
use doc_bunker.RendererApi.Types.{RenderOptions}
use doc_bunker.Sandbox.Error.{SandboxError}
use doc_bunker.Sandbox.Config.{SandboxConfig}
use doc_bunker.Sandbox.Backend.{SandboxSession}
use doc_bunker.Sandbox.Session.{Transport}
use doc_bunker.Sandbox.Subprocess
use doc_bunker.Sandbox.Vm.{QemuConfig}
use doc_bunker.Sandbox.Vm.Backend.{
  Machine, QemuVmBackend, Vm, new, verify_sha256, verify_if_expected, verify_assets, verified,
  start_verified, start_session, send_document, get_document_info, render_page, close_session,
}

-- The file has the digest, if one is expected.
abbrev pub HasDigest : {T : Type 0} → Machine T → Text → Option (List ℕ) → Type 0
HasDigest m path none = Unit {0}
HasDigest m path (some digest) = m.digest path ≡ ok digest

abbrev pub Matches : {T : Type 0} → QemuConfig → Machine T → Type 0
Matches c m = HasDigest m c.kernel c.kernel_sha256 × HasDigest m c.initrd c.initrd_sha256

-- One call of the backend, with what the host answers at the start of a session.
pub data Call (T : Type 0) : Type 0 where
  starting : Machine T → SandboxConfig → Call T
  sending : SandboxSession → List ℕ → Call T
  asking : SandboxSession → ℕ → Call T
  rendering : SandboxSession → ℕ → ℕ → RenderOptions → Call T
  closing : SandboxSession → Call T

-- At the start of some session the boot files had the expected digests.
abbrev pub HasMatch : {T : Type 0} → QemuConfig → List (Call T) → Type 0
HasMatch c [] = ⊥
HasMatch c (starting m config ∷ calls) = Matches c m ⊎ HasMatch c calls
HasMatch c (sending s bytes ∷ calls) = HasMatch c calls
HasMatch c (asking s id ∷ calls) = HasMatch c calls
HasMatch c (rendering s id page options ∷ calls) = HasMatch c calls
HasMatch c (closing s ∷ calls) = HasMatch c calls

verify_sha256_lem :
    {T : Type 0} (m : Machine T) (path : Text) (expected : List ℕ) (message : String)
    → verify_sha256 m path expected message ≡ ok tt
    → m.digest path ≡ ok expected
unfolding verify_sha256
verify_sha256_lem m path expected message e = elim (Result-cases (m.digest path)) [
  | inl (actual, d) ↦ let e' = simp d at e in ground (arith, text_eq_iff actual expected)
  | inr (x, d) ↦ let e' = simp d at e in absurd (ground arith)
]

verify_if_expected_lem :
    {T : Type 0} (m : Machine T) (path : Text) (expected : Option (List ℕ)) (message : String)
    → verify_if_expected m path expected message ≡ ok tt
    → HasDigest m path expected
unfolding verify_if_expected
verify_if_expected_lem m path none message e = tt
verify_if_expected_lem m path (some digest) message e = verify_sha256_lem m path digest message e

verify_assets-Matches :
    {T : Type 0} (m : Machine T) (c : QemuConfig) → verify_assets m c ≡ ok tt → Matches c m
unfolding verify_assets
verify_assets-Matches m c e =
    elim (Result-cases
      (verify_if_expected m c.kernel c.kernel_sha256 "VM kernel SHA-256 mismatch")) [
        | inl (_, k) ↦ (
          verify_if_expected_lem m c.kernel c.kernel_sha256 _ k,
          verify_if_expected_lem m c.initrd c.initrd_sha256 _ (simp k at e),
        )
        | inr (x, k) ↦ let e' = simp k at e in absurd (ground arith)
      ]

-- Before the boot files are verified there is no session.
record IsEarly {T : Type 0} (c : QemuConfig) (b : QemuVmBackend T) : Type 0 where
  config : b.config ≡ c
  idle : b.assets_verified ≡ false → b.inner.sessions ≡ []

module _ {T : Type 0} (transports : Transport T) where
  unfoldable pub after : Call T → Vm transports → Vm transports
  after (starting m config) b = (start_session transports m config b).1
  after (sending s bytes) b = (send_document transports s bytes b).2
  after (asking s id) b = (get_document_info transports s id b).2
  after (rendering s id page options) b = (render_page transports s id page options b).2
  after (closing s) b = (close_session transports s b).1

  unfoldable pub after_all : List (Call T) → Vm transports → Vm transports
  unfolding after
  after_all [] b = b
  after_all (call ∷ calls) b = after_all calls (after call b)

  start_verified-IsEarly :
      (c : QemuConfig) (m : Machine T) (config : SandboxConfig) (b : Vm transports)
      → b.config ≡ c
      → b.assets_verified ≡ true
      → IsEarly c (start_verified transports m config b).1
  unfolding start_verified
  start_verified-IsEarly c m config b k v = record { config = k; idle = λ f. cc }

  abbrev Verifies : QemuConfig → Machine T → Vm transports → Vm transports → Type 0
  Verifies c m b b' =
      IsEarly c b' × (b'.assets_verified ≡ true → (b.assets_verified ≡ true) ⊎ Matches c m)

  verified-Verifies :
      (c : QemuConfig) (m : Machine T) (config : SandboxConfig) (r : Result SandboxError (Unit {0}))
      (b : Vm transports)
      → IsEarly c b
      → verify_assets m c ≡ r
      → Verifies c m b (verified transports m config r b).1
  unfolding verified
  verified-Verifies c m config (err e) b v k = (v, λ t. inl t)
  verified-Verifies c m config (ok _) b v k = (
    start_verified-IsEarly c m config (record b { assets_verified = true }) v.config refl,
    λ t. inr (verify_assets-Matches m c k),
  )

  -- A session start verifies, unless that was done.
  start_session-Verifies :
      (c : QemuConfig) (m : Machine T) (config : SandboxConfig) (b : Vm transports)
      → IsEarly c b
      → Verifies c m b (start_session transports m config b).1
  unfolding start_session
  start_session-Verifies c m config b v = go b.assets_verified refl
    where
      go :
          (t : Bool)
          → b.assets_verified ≡ t
          → Verifies c m b
              (if t
                then start_verified transports m config b
                else verified transports m config (verify_assets m b.config) b).1
      go true e = (start_verified-IsEarly c m config b v.config e, λ k. inl e)
      go false e =
          verified-Verifies c m config (verify_assets m b.config) b v
            (ap (verify_assets m) (sym v.config))

  -- Without a session the other calls change nothing of the map.
  send_document-idle :
      (s : SandboxSession) (bytes : List ℕ) (b : Vm transports)
      → b.inner.sessions ≡ []
      → (send_document transports s bytes b).2.inner.sessions ≡ []
  unfolding send_document Subprocess.send_document Assoc.get
  send_document-idle s bytes b e = ground arith

  get_document_info-idle :
      (s : SandboxSession) (id : ℕ) (b : Vm transports)
      → b.inner.sessions ≡ []
      → (get_document_info transports s id b).2.inner.sessions ≡ []
  unfolding get_document_info Subprocess.get_document_info Assoc.get
  get_document_info-idle s id b e = ground arith

  render_page-idle :
      (s : SandboxSession) (id page : ℕ) (options : RenderOptions) (b : Vm transports)
      → b.inner.sessions ≡ []
      → (render_page transports s id page options b).2.inner.sessions ≡ []
  unfolding render_page Subprocess.render_page Assoc.get
  render_page-idle s id page options b e = ground arith

  close_session-idle :
      (s : SandboxSession) (b : Vm transports)
      → b.inner.sessions ≡ []
      → (close_session transports s b).1.inner.sessions ≡ []
  unfolding close_session Subprocess.close_session Assoc.get
  close_session-idle s b e = ground arith

  after_all-HasMatch :
      (c : QemuConfig) (calls : List (Call T)) (b : Vm transports)
      → IsEarly c b
      → IsEarly c (after_all calls b)
        × ((after_all calls b).assets_verified ≡ true
            → (b.assets_verified ≡ true) ⊎ HasMatch c calls)
  unfolding after_all send_document get_document_info render_page close_session
  after_all-HasMatch c [] b v = (v, λ t. inl t)
  after_all-HasMatch c (starting m config ∷ calls) b v =
      let (v', now) = start_session-Verifies c m config b v in
      let (last, later) = after_all-HasMatch c calls (start_session transports m config b).1 v' in
      (
        last,
        λ t. elim (later t) [
          | inl before ↦ elim (now before) [ inl e ↦ inl e | inr k ↦ inr (inl k) ]
          | inr k ↦ inr (inr k)
        ],
      )
  after_all-HasMatch c (sending s bytes ∷ calls) b v =
      after_all-HasMatch c calls (send_document transports s bytes b).2
        (record { config = v.config; idle = λ f. send_document-idle s bytes b (v.idle f) })
  after_all-HasMatch c (asking s id ∷ calls) b v =
      after_all-HasMatch c calls (get_document_info transports s id b).2
        (record { config = v.config; idle = λ f. get_document_info-idle s id b (v.idle f) })
  after_all-HasMatch c (rendering s id page options ∷ calls) b v =
      after_all-HasMatch c calls (render_page transports s id page options b).2
        (record { config = v.config; idle = λ f. render_page-idle s id page options b (v.idle f) })
  after_all-HasMatch c (closing s ∷ calls) b v =
      after_all-HasMatch c calls (close_session transports s b).1
        (record { config = v.config; idle = λ f. close_session-idle s b (v.idle f) })

  -- Whatever calls the backend gets and whatever the host answers, the backend has a session only
  -- if at the start of some session the kernel and the initial file system had the digests that its
  -- configuration expects.
  pub new-after_all-HasMatch :
      (c : QemuConfig) (calls : List (Call T))
      → (after_all calls (new c)).inner.sessions ≢ []
      → HasMatch c calls
  unfolding new
  new-after_all-HasMatch c calls some_session =
      let (last, history) =
        after_all-HasMatch c calls (new c) (record { config = refl; idle = λ f. refl }) in
      elim (Bool-cases (after_all calls (new c)).assets_verified) [
        | inl t ↦ elim (history t) [ inl e ↦ absurd (cc) | inr k ↦ k ]
        | inr f ↦ absurd (some_session (last.idle f))
      ]
