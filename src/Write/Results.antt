-- ===== src/Write/Results.antt =====
-- writeUpdateResults of client/write.go: when a failed status yields results, and which.
use mathlib.Core.List.{map}
use p4runtime_go_controller.Common.{
  ℕ, ◌<◌, ◌≤◌, ◌≡◌, ◌↔◌, refl, ap, ◌∙◌, sym, suc, Bool, true, false, ◌||◌, List, [], ◌∷◌, Option,
  none, some, length, any, All, arith, Bool-cases, Option-cases, inl, inr,
}
use p4runtime_go_controller.Common.Int.{ℤ, pos, negsuc, ltb_ℤ}
use p4runtime_go_controller.Common.Errors.{not_primary}
use p4runtime_go_controller.Write.{
  P4Error, Status, WriteError, WriteRequest, translate_write_error, failed_write, accepted,
  rejected, broken, Reply, refused, write, invalid_code, is_failure, collect, write_update_results,
}
use p4runtime_go_controller.Write.Code

-- A canonical code from OK to UNAUTHENTICATED.
abbrev pub InRange : ℤ → Type 0
InRange (pos c) = c ≤ 16
InRange (negsuc n) = ⊥

abbrev pub IsCanonicalCode : P4Error → Type 0
IsCanonicalCode u = InRange u.canonical_code

-- The details are these results and no other, each has a canonical code, and one at least failed.
pub record Collected (failed : Bool) (ds : List (Option P4Error)) (us : List P4Error) : Type 0 where
  pub all_details : ds ≡ map some us
  pub codes_valid : All IsCanonicalCode us
  pub one_failed : (failed || any is_failure us) ≡ true

or_assoc : (a b c : Bool) → (a || b || c) ≡ (a || (b || c))
or_assoc a b c = ground arith

invalid_code-false : (u : P4Error) → invalid_code u ≡ false → IsCanonicalCode u
invalid_code-false u h = go u.canonical_code h
  where
    go : (z : ℤ) → (ltb_ℤ z (pos 0) || ltb_ℤ (pos 16) z) ≡ false → InRange z
    go (pos c) h = ground arith
    go (negsuc n) h = ground arith

valid_code : (u : P4Error) → IsCanonicalCode u → invalid_code u ≡ false
valid_code u h = go u.canonical_code h
  where
    go : (z : ℤ) → InRange z → (ltb_ℤ z (pos 0) || ltb_ℤ (pos 16) z) ≡ false
    go (pos c) h = ground arith
    go (negsuc n) h = absurd h

collect-some :
    (failed : Bool) (u : P4Error) (ds : List (Option P4Error)) (us : List P4Error)
    → collect failed (some u ∷ ds) ≡ some us
    → (rest : List P4Error) × (invalid_code u ≡ false)
      × (collect (failed || is_failure u) ds ≡ some rest)
      × (us ≡ u ∷ rest)
unfolding collect
collect-some failed u ds us h = elim (Bool-cases (invalid_code u)) [
  | inl bad ↦ absurd (cc (rw bad at h))
  | inr good ↦ elim (Option-cases (collect (failed || is_failure u) ds)) [
    | inl e ↦ absurd (cc (rw (good, e) at h))
    | inr (rest, e) ↦ (rest, good, e, ground (arith, rw (good, e) at h))
  ]
]

collect-Collected :
    (failed : Bool) (ds : List (Option P4Error)) (us : List P4Error)
    → collect failed ds ≡ some us
    → Collected failed ds us
collect-Collected failed [] us h = unfold collect in ground arith
collect-Collected failed (none ∷ ds) us h = absurd (unfold collect in cc)
collect-Collected failed (some u ∷ ds) us h =
    let (rest, good, e, shape) = collect-some failed u ds us h in
    let later = collect-Collected (failed || is_failure u) ds rest e in
    rw shape (record {
      all_details = ap (◌∷◌ (some u)) later.all_details;
      codes_valid = (invalid_code-false u good, later.codes_valid);
      one_failed = ground (arith, later.one_failed);
    })

collect_cons :
    (failed : Bool) (u : P4Error) (ds : List (Option P4Error)) (rest : List P4Error)
    → invalid_code u ≡ false
    → collect (failed || is_failure u) ds ≡ some rest
    → collect failed (some u ∷ ds) ≡ some (u ∷ rest)
unfolding collect
collect_cons failed u ds rest good e = rw (good, e, collect) refl

collect_complete :
    (failed : Bool) (us : List P4Error)
    → All IsCanonicalCode us
    → (failed || any is_failure us) ≡ true
    → collect failed (map some us) ≡ some us
collect_complete failed [] h one = unfold collect in ground arith
collect_complete failed (u ∷ us) h one = collect_cons failed u (map some us) us (valid_code u h.0) (
    collect_complete (failed || is_failure u) us h.1
      (or_assoc failed (is_failure u) (any is_failure us) ∙ one))

-- A status tells the outcome of each of `n` updates by `us`.
pub record TellsResults (st : Status) (n : ℕ) (us : List P4Error) : Type 0 where
  pub code_unknown : st.code ≡ Code.unknown
  pub some_updates : 0 < n
  pub one_each : length us ≡ n
  pub all_details : st.details ≡ map some us
  pub codes_valid : All IsCanonicalCode us
  pub one_failed : any is_failure us ≡ true

length-map-some : (us : List P4Error) → length (map some us) ≡ length us
length-map-some [] = refl
length-map-some (u ∷ us) = ap suc (length-map-some us)

update_results_guard :
    (st : Status) (n : ℕ) (us : List P4Error)
    → write_update_results st n ≡ some us
    → (st.code ≡ Code.unknown)
      × (0 < n)
      × (length st.details ≡ n)
      × (collect false st.details ≡ some us)
unfolding write_update_results
update_results_guard st n us h = ground arith

update_results_pass :
    (st : Status) (n : ℕ)
    → st.code ≡ Code.unknown
    → 0 < n
    → length st.details ≡ n
    → write_update_results st n ≡ collect false st.details
unfolding write_update_results
update_results_pass st n hc hn hl = ground arith

-- A failed Write yields results per update exactly when the status code is UNKNOWN, there is one
-- detail for each of the updates, every detail is a p4.Error with a canonical code, and at least
-- one of them is a failure; the results are then the details, all of them and in their order.
pub write_update_results_exact :
    (st : Status) (n : ℕ) (us : List P4Error)
    → (write_update_results st n ≡ some us) ↔ TellsResults st n us
write_update_results_exact st n us = (sound, complete)
  where
    sound : write_update_results st n ≡ some us → TellsResults st n us
    sound h =
        let (code, positive, size, collected) = update_results_guard st n us h in
        let all = collect-Collected false st.details us collected in
        record {
          code_unknown = code;
          some_updates = positive;
          one_each = sym (length-map-some us) ∙ ap length (sym all.all_details) ∙ size;
          all_details = all.all_details;
          codes_valid = all.codes_valid;
          one_failed = all.one_failed;
        }

    complete : TellsResults st n us → write_update_results st n ≡ some us
    complete t =
        update_results_pass st n t.code_unknown t.some_updates
          (ap length t.all_details ∙ length-map-some us ∙ t.one_each)
        ∙ ap (collect false) t.all_details
        ∙ collect_complete false us t.codes_valid t.one_failed

-- A WriteError of `write` holds the results of the status that the one request met.
failed_write_from :
    {U : Type 0} (is_primary : Bool) (req : WriteRequest U) (rpc : WriteRequest U → Reply)
    (e : WriteError)
    → (write is_primary req rpc).1 ≡ failed_write e
    → (st : Status) × (e.updates ≡ write_update_results st (length req.updates))
      × ((write is_primary req rpc).0 ≡ req ∷ [])
unfolding write translate_write_error
failed_write_from is_primary req rpc e h = go (rpc req) refl
  where
    go :
        (r : Reply)
        → rpc req ≡ r
        → (st : Status) × (e.updates ≡ write_update_results st (length req.updates))
          × ((write is_primary req rpc).0 ≡ req ∷ [])
    go accepted p = absurd (ground arith)
    go (rejected st) p = (st, ground arith, ground arith)
    go (broken x) p = absurd (ground arith)

-- Whatever the target answers, Write sends nothing unless the client is primary and there is an
-- update; and a WriteError with results comes from one sent request and has exactly one result for
-- each of its updates.
pub write-aligned :
    {U : Type 0} (is_primary : Bool) (req : WriteRequest U) (rpc : WriteRequest U → Reply)
    → (is_primary ≡ false → write is_primary req rpc ≡ ([], refused not_primary))
      × (length req.updates ≡ 0 → (write is_primary req rpc).0 ≡ [])
      × ((e : WriteError) (us : List P4Error)
          → (write is_primary req rpc).1 ≡ failed_write e
          → e.updates ≡ some us
          → ((write is_primary req rpc).0 ≡ req ∷ []) × (length us ≡ length req.updates))
write-aligned {U} is_primary req rpc = (guarded, idle, aligned)
  where
    guarded : is_primary ≡ false → write is_primary req rpc ≡ ([], refused not_primary)
    guarded h = unfold write in ground arith

    idle : length req.updates ≡ 0 → (write is_primary req rpc).0 ≡ []
    idle h = unfold write in ground arith

    aligned :
        (e : WriteError) (us : List P4Error)
        → (write is_primary req rpc).1 ≡ failed_write e
        → e.updates ≡ some us
        → ((write is_primary req rpc).0 ≡ req ∷ []) × (length us ≡ length req.updates)
    aligned e us h q =
        let (st, same, sent) = failed_write_from is_primary req rpc e h in
        (sent, ((write_update_results_exact st (length req.updates) us).0 (sym same ∙ q)).one_each)
