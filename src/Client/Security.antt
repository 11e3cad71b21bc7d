-- ===== src/Client/Security.antt =====
-- The transport security that the options of client/options.go choose.
use p4runtime_go_controller.Common.{
  ℕ, zero, suc, ◌<◌, ◌≡◌, refl, ap, ◌∙◌, List, [], ◌∷◌, ◌++◌, Option, none, some, arith, All,
}
use p4runtime_go_controller.Client.Settings.{
  TlsConfig, tls_credentials, Options, with_tls, secured, apply_options, DialOption,
  transport_credentials, credentials_or_insecure, grpc_dial_options,
}

-- An option that does not touch the credentials.
abbrev pub KeepsCredentials : (Options → Options) → Type 0
KeepsCredentials option = (o : Options) → (option o).credentials ≡ o.credentials

apply_options-append :
    (before later : List (Options → Options)) (o : Options)
    → apply_options (before ++ later) o ≡ apply_options later (apply_options before o)
unfolding apply_options
apply_options-append [] later o = refl
apply_options-append (option ∷ before) later o = apply_options-append before later (option o)

apply_options-credentials :
    (options : List (Options → Options)) (o : Options)
    → All KeepsCredentials options
    → (apply_options options o).credentials ≡ o.credentials
unfolding apply_options
apply_options-credentials [] o k = refl
apply_options-credentials (option ∷ options) o (k, ks) =
    apply_options-credentials options (option o) ks ∙ k o

-- The least TLS version for a configuration: TLS 1.2 where it sets none.
pub data LeastVersion : ℕ → ℕ → Type 0 where
  unset : LeastVersion 0 0x0303
  set : {given used : ℕ} → 0 < given → used ≡ given → LeastVersion given used

secured-LeastVersion :
    (v rest : ℕ) → LeastVersion v (secured (record { min_version = v; rest = rest })).min_version
secured-LeastVersion zero rest = unset
secured-LeastVersion (suc v) rest = set (omega arith) (ground arith)

secured-rest : (cfg : TlsConfig) → (secured cfg).rest ≡ cfg.rest
secured-rest cfg = ground arith

abbrev pub first_option : List DialOption → Option DialOption
first_option [] = none
first_option (o ∷ opts) = some o

-- After WithTLS with a configuration, and later options that do not touch the credentials, the
-- first gRPC option that Dial gives is TLS with that configuration, whatever the earlier options
-- were, WithInsecure among them; only its least version is set to TLS 1.2 where it is 0.
pub with_tls-lasts :
    (before later : List (Options → Options)) (cfg : TlsConfig) (o : Options)
    → All KeepsCredentials later
    → (used : TlsConfig) × (first_option
          (grpc_dial_options (apply_options (before ++ with_tls (some cfg) ∷ later) o))
        ≡ some (transport_credentials (tls_credentials used)))
      × (used.rest ≡ cfg.rest)
      × LeastVersion cfg.min_version used.min_version
unfolding grpc_dial_options apply_options with_tls
with_tls-lasts before later cfg o keeps = (
  secured cfg,
  ap (λ c. some (transport_credentials (credentials_or_insecure c)))
      (ap (λ (p : Options). p.credentials)
          (apply_options-append before (with_tls (some cfg) ∷ later) o)
        ∙ chosen),
  secured-rest cfg,
  secured-LeastVersion cfg.min_version cfg.rest,
)
  where
    chosen :
        (apply_options (with_tls (some cfg) ∷ later) (apply_options before o)).credentials
        ≡ some (tls_credentials (secured cfg))
    chosen = apply_options-credentials later (with_tls (some cfg) (apply_options before o)) keeps
