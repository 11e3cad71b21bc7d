-- ===== src/Write/Matching.antt =====
-- WriteError.Is and writeSentinel of errors/write.go: which sentinels a failed write matches. The
-- cause, to which errors.Is unwraps where the method finds nothing, is not looked at.
use mathlib.Core.Logic.{if_pos, if_neg}
use p4runtime_go_controller.Common.{
  ℕ, ◌<◌, ◌^◌, ◌≡◌, ◌↔◌, ◌⊎◌, inl, inr, refl, ap, subst, true, false, List, [], ◌∷◌, Option, none,
  some, arith, Bool-cases, All,
}
use p4runtime_go_controller.Common.Int.{ℤ, pos, negsuc}
use p4runtime_go_controller.Common.Text.{to_lower}
use p4runtime_go_controller.Common.Errors.{
  Sentinel, Sentinel-discrete, entry_exists, entry_not_found, target_unsupported, not_primary,
  pipeline_not_set,
}
use p4runtime_go_controller.Write.{
  P4Error, WriteError, to_code, write_sentinel, hits, update_sentinel, any_update, update_list,
  is_match, not_primary_text, no_pipeline_text,
}
use p4runtime_go_controller.Write.Mentions.{
  SaysNotPrimary, SaysNoPipeline, text-SaysNotPrimary, text-SaysNoPipeline, SaysNotPrimary-text,
  SaysNoPipeline-text, not_said,
}

hits_iff : (o : Option Sentinel) (t : Sentinel) → (hits o t ≡ true) ↔ (o ≡ some t)
hits_iff none t = (λ h. absurd (cc), λ h. absurd (cc))
hits_iff (some s) t = elim (Sentinel-discrete s t) [
  | yes e ↦ (λ h. ap some e, λ h. rw (if_pos _ e) refl)
  | no n ↦ (λ h. absurd (cc (rw (if_neg _ n) at h)), λ h. absurd (n (cc)))
]

-- The sentinel of a failed RPC, by the number of its gRPC code and its message in lower case:
-- ALREADY_EXISTS, NOT_FOUND, UNIMPLEMENTED, PERMISSION_DENIED and FAILED_PRECONDITION.
pub data RpcMeans (code : ℕ) (m : List ℕ) : Sentinel → Type 0 where
  rpc_exists : code ≡ 6 → RpcMeans code m entry_exists
  rpc_not_found : code ≡ 5 → RpcMeans code m entry_not_found
  rpc_unsupported : code ≡ 12 → RpcMeans code m target_unsupported
  rpc_denied : code ≡ 7 → SaysNotPrimary m → RpcMeans code m not_primary
  rpc_not_primary : code ≡ 9 → SaysNotPrimary m → RpcMeans code m not_primary
  rpc_no_pipeline :
      code ≡ 9 → ¬ SaysNotPrimary m → SaysNoPipeline m → RpcMeans code m pipeline_not_set

-- The sentinel of one update, by its canonical code.
pub data UpdateMeans : ℤ → Sentinel → Type 0 where
  update_exists : UpdateMeans (pos 6) entry_exists
  update_not_found : UpdateMeans (pos 5) entry_not_found
  update_unsupported : UpdateMeans (pos 12) target_unsupported

-- Some update of the list, at whichever index, has the sentinel.
pub data HasUpdate (t : Sentinel) : List P4Error → Type 0 where
  here : {u : P4Error} {us : List P4Error} → UpdateMeans u.canonical_code t → HasUpdate t (u ∷ us)
  there : {u : P4Error} {us : List P4Error} → HasUpdate t us → HasUpdate t (u ∷ us)

primary_code :
    (code : ℕ) (m : List ℕ)
    → write_sentinel code m true ≡ some not_primary
    → ((code ≡ 7) ⊎ (code ≡ 9)) × (not_primary_text (to_lower m) ≡ true)
unfolding write_sentinel
primary_code code m h = ground arith

pipeline_code :
    (code : ℕ) (m : List ℕ)
    → write_sentinel code m true ≡ some pipeline_not_set
    → (code ≡ 9) × (not_primary_text (to_lower m) ≡ false) × (no_pipeline_text (to_lower m) ≡ true)
unfolding write_sentinel
pipeline_code code m h = ground arith

write_sentinel-RpcMeans :
    (code : ℕ) (m : List ℕ) (t : Sentinel)
    → write_sentinel code m true ≡ some t
    → RpcMeans code (to_lower m) t
write_sentinel-RpcMeans code m entry_exists h = rpc_exists (unfold write_sentinel in ground arith)
write_sentinel-RpcMeans code m entry_not_found h =
    rpc_not_found (unfold write_sentinel in ground arith)
write_sentinel-RpcMeans code m target_unsupported h =
    rpc_unsupported (unfold write_sentinel in ground arith)
write_sentinel-RpcMeans code m not_primary h =
    let (codes_of, text) = primary_code code m h in
    elim codes_of [
      | inl e ↦ rpc_denied e (text-SaysNotPrimary (to_lower m) text)
      | inr e ↦ rpc_not_primary e (text-SaysNotPrimary (to_lower m) text)
    ]
write_sentinel-RpcMeans code m pipeline_not_set h =
    let (code_of, other, text) = pipeline_code code m h in
    rpc_no_pipeline code_of (λ says. ground (arith, SaysNotPrimary-text (to_lower m) says))
      (text-SaysNoPipeline (to_lower m) text)
write_sentinel-RpcMeans code m _ h = absurd (unfold write_sentinel in ground arith)

RpcMeans-write_sentinel :
    (code : ℕ) (m : List ℕ) {t : Sentinel}
    → RpcMeans code (to_lower m) t
    → write_sentinel code m true ≡ some t
unfolding write_sentinel
RpcMeans-write_sentinel code m (rpc_exists e) = ground arith
RpcMeans-write_sentinel code m (rpc_not_found e) = ground arith
RpcMeans-write_sentinel code m (rpc_unsupported e) = ground arith
RpcMeans-write_sentinel code m (rpc_denied e says) =
    ground (arith, SaysNotPrimary-text (to_lower m) says)
RpcMeans-write_sentinel code m (rpc_not_primary e says) =
    ground (arith, SaysNotPrimary-text (to_lower m) says)
RpcMeans-write_sentinel code m (rpc_no_pipeline e other says) =
    ground (arith, not_said (to_lower m) other, SaysNoPipeline-text (to_lower m) says)

-- An int32.
abbrev pub IsInt32 : ℤ → Type 0
IsInt32 (pos n) = n < 2 ^ 31
IsInt32 (negsuc n) = n < 2 ^ 31

update-UpdateMeans :
    (z : ℤ) (m : List ℕ) (t : Sentinel)
    → IsInt32 z
    → write_sentinel (to_code z) m false ≡ some t
    → UpdateMeans z t
unfolding write_sentinel
update-UpdateMeans (pos n) m entry_exists b h =
    subst (λ k. UpdateMeans (pos k) entry_exists) (ground arith) update_exists
update-UpdateMeans (pos n) m entry_not_found b h =
    subst (λ k. UpdateMeans (pos k) entry_not_found) (ground arith) update_not_found
update-UpdateMeans (pos n) m target_unsupported b h =
    subst (λ k. UpdateMeans (pos k) target_unsupported) (ground arith) update_unsupported
update-UpdateMeans (pos n) m _ b h = absurd (ground arith)
update-UpdateMeans (negsuc n) m t b h = absurd (ground arith)

UpdateMeans-update :
    {z : ℤ} {t : Sentinel} (m : List ℕ)
    → UpdateMeans z t
    → write_sentinel (to_code z) m false ≡ some t
unfolding write_sentinel
UpdateMeans-update m update_exists = refl
UpdateMeans-update m update_not_found = refl
UpdateMeans-update m update_unsupported = refl

abbrev pub HasInt32 : P4Error → Type 0
HasInt32 u = IsInt32 u.canonical_code

any_update-HasUpdate :
    (us : List P4Error) (t : Sentinel) → All HasInt32 us → any_update us t ≡ true → HasUpdate t us
unfolding any_update update_sentinel
any_update-HasUpdate [] t b h = cc
any_update-HasUpdate (u ∷ us) t b h = elim (Bool-cases (hits (update_sentinel u) t)) [
  | inl e ↦
      here (
        update-UpdateMeans u.canonical_code u.message t (b.0)
          ((hits_iff (update_sentinel u) t).0 e))
  | inr e ↦ there (any_update-HasUpdate us t (b.1) (ground arith))
]

HasUpdate-any_update : {t : Sentinel} {us : List P4Error} → HasUpdate t us → any_update us t ≡ true
unfolding any_update update_sentinel
HasUpdate-any_update {t = t} (here {u = u} means) =
    ground (arith, (hits_iff (update_sentinel u) t).1 (UpdateMeans-update u.message means))
HasUpdate-any_update (there h) = ground (arith, HasUpdate-any_update h)

-- For updates whose canonical codes are int32: the method WriteError.Is accepts a sentinel exactly
-- when the RPC's status means it, or some update does, at whichever index it stands. The status
-- means ErrEntryExists, ErrEntryNotFound or ErrTargetUnsupported by its code; ErrNotPrimary by
-- PERMISSION_DENIED or FAILED_PRECONDITION with one of three texts in its message, in any case; and
-- ErrPipelineNotSet by FAILED_PRECONDITION with one of five texts and none of those three. An update
-- means one of the first three by its code alone, whatever its message.
pub is_match_exact :
    (e : WriteError) (t : Sentinel)
    → All HasInt32 (update_list e.updates)
    → (is_match e t ≡ true)
      ↔ (RpcMeans e.cause.code (to_lower e.cause.message) t ⊎ HasUpdate t (update_list e.updates))
unfolding is_match
is_match_exact e t b = (
  λ h. elim (Bool-cases (hits own t)) [
    | inl q ↦ inl (write_sentinel-RpcMeans e.cause.code e.cause.message t ((hits_iff own t).0 q))
    | inr q ↦ inr (any_update-HasUpdate us t b (rw (q, is_match) at h))
  ],
  λ h. elim h [
    | inl p ↦
        rw ((hits_iff own t).1 (RpcMeans-write_sentinel e.cause.code e.cause.message p), is_match)
          refl
    | inr p ↦ ground (arith, HasUpdate-any_update p)
  ],
)
  where
    own : Option Sentinel
    own = write_sentinel e.cause.code e.cause.message true

    us : List P4Error
    us = update_list e.updates
