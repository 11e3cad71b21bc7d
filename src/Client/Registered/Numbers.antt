-- ===== src/Client/Registered/Numbers.antt =====
-- The numbers of the registrations in client/stream.go: each is given once.
use p4runtime_go_controller.Common.{
  ℕ, ◌<◌, ◌≤◌, ◌≡◌, refl, true, false, ◌&&◌, List, [], ◌∷◌, Option, none, some, ◌==◌, if◌then◌else◌,
  arith,
}
use p4runtime_go_controller.Client.Dispatch.{delete}
use p4runtime_go_controller.Client.Registered.{
  Kind, Handler, has_kind, Use, registers, cancels, registrations, without, live, pick,
}

pub pick-without_own :
    {S H : Type 0} (of_kind : Handler S → Option H) (k : Kind) (id : ℕ)
    → ((h : Handler S) → has_kind k h ≡ false → of_kind h ≡ none)
    → (hs : List (ℕ × Handler S)) → pick of_kind (without k id hs) ≡ delete id (pick of_kind hs)
unfolding pick without delete
pick-without_own of_kind k id others [] = refl
pick-without_own of_kind k id others ((n, h) ∷ hs) =
    ground (arith, others h, pick-without_own of_kind k id others hs)

pub pick-without_other :
    {S H : Type 0} (of_kind : Handler S → Option H) (k : Kind) (id : ℕ)
    → ((h : Handler S) → has_kind k h ≡ true → of_kind h ≡ none)
    → (hs : List (ℕ × Handler S)) → pick of_kind (without k id hs) ≡ pick of_kind hs
unfolding pick without
pick-without_other of_kind k id others [] = refl
pick-without_other of_kind k id others ((n, h) ∷ hs) =
    ground (arith, others h, pick-without_other of_kind k id others hs)

-- Numbers that are all less than n.
abbrev pub Below : {H : Type 0} → ℕ → List (ℕ × H) → Type 0
Below n [] = Unit
Below n ((m, h) ∷ hs) = (m < n) × Below n hs

Below-weaken : {H : Type 0} {m n : ℕ} → m ≤ n → (hs : List (ℕ × H)) → Below m hs → Below n hs
Below-weaken le [] b = tt
Below-weaken le ((i, h) ∷ hs) (lt, b) = (omega arith, Below-weaken le hs b)

pub pick-Below :
    {S H : Type 0} (of_kind : Handler S → Option H) (n : ℕ) (hs : List (ℕ × Handler S))
    → Below n hs
    → Below n (pick of_kind hs)
unfolding pick
pick-Below of_kind n [] b = tt
pick-Below of_kind n ((i, h) ∷ hs) (lt, b) =
    let rest = pick-Below of_kind n hs b in
    elim (of_kind h)
      as (λ o. Below n (elim o [ none ↦ pick of_kind hs | some g ↦ (i, g) ∷ pick of_kind hs ])) [
        | none ↦ rest
        | some g ↦ (lt, rest)
      ]

without-Below :
    {S : Type 0} (k : Kind) (id n : ℕ) (hs : List (ℕ × Handler S))
    → Below n hs
    → Below n (without k id hs)
unfolding without
without-Below k id n [] b = tt
without-Below k id n ((i, h) ∷ hs) (lt, b) =
    let rest = without-Below k id n hs b in
    elim (i == id && has_kind k h)
      as (λ c. Below n (if c then without k id hs else (i, h) ∷ without k id hs)) [
        | true ↦ rest
        | false ↦ (lt, rest)
      ]

pub delete-Below : {H : Type 0} (n : ℕ) (hs : List (ℕ × H)) → Below n hs → delete n hs ≡ hs
unfolding delete
delete-Below n [] b = refl
delete-Below n ((i, h) ∷ hs) (lt, b) = ground (arith, delete-Below n hs b)

pub live-Below : {S : Type 0} (uses : List (Use S)) → Below (registrations uses) (live uses)
unfolding live registrations
live-Below [] = tt
live-Below (registers h ∷ uses) =
    (omega arith, Below-weaken (omega arith) (live uses) (live-Below uses))
live-Below (cancels k id ∷ uses) =
    without-Below k id (registrations uses) (live uses) (live-Below uses)
