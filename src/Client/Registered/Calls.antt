-- ===== src/Client/Registered/Calls.antt =====
-- The slots of client/stream.go after any registrations and cancellations.
use mathlib.Core.List.{Perm, append-nil}
use mathlib.Core.List.Perm
use p4runtime_go_controller.Common.{
  ℕ, ◌+◌, ◌<◌, ◌%◌, ◌^◌, ◌≡◌, ◌≢◌, refl, sym, ◌∙◌, ap, ap₂, subst, map, true, false, List, [], ◌∷◌,
  ◌++◌, Option, none, arith,
}
use p4runtime_go_controller.Client.Dispatch.{
  DispatchSlots, StreamMessage, packet_message, digest_message, idle_message, other_message,
  new_dispatch, delete, add_packet_in, add_digest_list, add_idle, add_stream, cancel_packet_in,
  cancel_digest_list, cancel_idle, cancel_stream, Orders, selected, calls, dispatch, run_calls,
}
use p4runtime_go_controller.Client.Registered.{
  Kind, packets, digests, idles, messages, Handler, on_packet_in, on_digest_list, on_idle_timeout,
  on_stream_message, has_kind, packet_handler, digest_handler, idle_handler, message_handler, Use,
  registers, cancels, add_handler, cancel_handler, slots_after, registrations, without, live, pick,
  message_calls, kind_calls, Runs, done, call, Reorders,
}
use p4runtime_go_controller.Client.Registered.Numbers.{
  pick-without_own, pick-without_other, pick-Below, delete-Below, live-Below,
}

-- The slots hold the live registrations of their kinds.
record Follows {S : Type 0} (d : DispatchSlots S) (uses : List (Use S)) : Type 0 where
  follows_next : d.next_id ≡ registrations uses
  follows_packets : d.packet_in ≡ pick packet_handler (live uses)
  follows_digests : d.digest_list ≡ pick digest_handler (live uses)
  follows_idles : d.idle ≡ pick idle_handler (live uses)
  follows_messages : d.stream ≡ pick message_handler (live uses)

set-fresh :
    {S H : Type 0} (of_kind : Handler S → Option H) (uses : List (Use S)) (n : ℕ) (h : H)
    (m : List (ℕ × H))
    → n ≡ registrations uses
    → m ≡ pick of_kind (live uses)
    → (n, h) ∷ delete n m ≡ (registrations uses, h) ∷ pick of_kind (live uses)
set-fresh {H = H} of_kind uses n h m at_n at_m =
    ap₂ (λ k (r : List (ℕ × H)). (k, h) ∷ r) at_n
      (ap₂ delete at_n at_m
        ∙ delete-Below (registrations uses) (pick of_kind (live uses))
            (pick-Below of_kind (registrations uses) (live uses) (live-Below uses)))

delete-own :
    {S H : Type 0} (of_kind : Handler S → Option H) (k : Kind) (id : ℕ) (hs : List (ℕ × Handler S))
    (m : List (ℕ × H))
    → ((h : Handler S) → has_kind k h ≡ false → of_kind h ≡ none)
    → m ≡ pick of_kind hs
    → delete id m ≡ pick of_kind (without k id hs)
delete-own of_kind k id hs m others at_m =
    ap (delete id) at_m ∙ sym (pick-without_own of_kind k id others hs)

delete-other :
    {S H : Type 0} (of_kind : Handler S → Option H) (k : Kind) (id : ℕ) (hs : List (ℕ × Handler S))
    (m : List (ℕ × H))
    → ((h : Handler S) → has_kind k h ≡ true → of_kind h ≡ none)
    → m ≡ pick of_kind hs
    → m ≡ pick of_kind (without k id hs)
delete-other of_kind k id hs m others at_m = at_m ∙ sym (pick-without_other of_kind k id others hs)

next-fresh : (n m : ℕ) → n ≡ m → m + 1 < 2 ^ 64 → (n + 1) % 2 ^ 64 ≡ m + 1
next-fresh n m at_n lt = ap (λ i. (i + 1) % 2 ^ 64) at_n ∙ omega arith

add_handler-Follows :
    {S : Type 0} (h : Handler S) (d : DispatchSlots S) (uses : List (Use S))
    → registrations uses + 1 < 2 ^ 64
    → Follows d uses
    → Follows (add_handler h d) (registers h ∷ uses)
unfolding add_packet_in add_digest_list add_idle add_stream live registrations pick
add_handler-Follows (on_packet_in h) d uses lt f = record {
  follows_next = next-fresh d.next_id (registrations uses) f.follows_next lt;
  follows_packets =
      set-fresh packet_handler uses d.next_id h d.packet_in f.follows_next f.follows_packets;
  follows_digests = f.follows_digests;
  follows_idles = f.follows_idles;
  follows_messages = f.follows_messages;
}
add_handler-Follows (on_digest_list h) d uses lt f = record {
  follows_next = next-fresh d.next_id (registrations uses) f.follows_next lt;
  follows_packets = f.follows_packets;
  follows_digests =
      set-fresh digest_handler uses d.next_id h d.digest_list f.follows_next f.follows_digests;
  follows_idles = f.follows_idles;
  follows_messages = f.follows_messages;
}
add_handler-Follows (on_idle_timeout h) d uses lt f = record {
  follows_next = next-fresh d.next_id (registrations uses) f.follows_next lt;
  follows_packets = f.follows_packets;
  follows_digests = f.follows_digests;
  follows_idles = set-fresh idle_handler uses d.next_id h d.idle f.follows_next f.follows_idles;
  follows_messages = f.follows_messages;
}
add_handler-Follows (on_stream_message h) d uses lt f = record {
  follows_next = next-fresh d.next_id (registrations uses) f.follows_next lt;
  follows_packets = f.follows_packets;
  follows_digests = f.follows_digests;
  follows_idles = f.follows_idles;
  follows_messages =
      set-fresh message_handler uses d.next_id h d.stream f.follows_next f.follows_messages;
}

abbrev IsOnly : {S H : Type 0} → (Handler S → Option H) → Kind → Type 0
IsOnly {S = S} of_kind k = (h : Handler S) → has_kind k h ≡ false → of_kind h ≡ none

packets-own : {S : Type 0} → IsOnly {S = S} packet_handler packets
packets-own (on_packet_in g) x = cc
packets-own (on_digest_list g) x = refl
packets-own (on_idle_timeout g) x = refl
packets-own (on_stream_message g) x = refl

digests-own : {S : Type 0} → IsOnly {S = S} digest_handler digests
digests-own (on_packet_in g) x = refl
digests-own (on_digest_list g) x = cc
digests-own (on_idle_timeout g) x = refl
digests-own (on_stream_message g) x = refl

idles-own : {S : Type 0} → IsOnly {S = S} idle_handler idles
idles-own (on_packet_in g) x = refl
idles-own (on_digest_list g) x = refl
idles-own (on_idle_timeout g) x = cc
idles-own (on_stream_message g) x = refl

messages-own : {S : Type 0} → IsOnly {S = S} message_handler messages
messages-own (on_packet_in g) x = refl
messages-own (on_digest_list g) x = refl
messages-own (on_idle_timeout g) x = refl
messages-own (on_stream_message g) x = cc

kinds-apart :
    {S : Type 0} (k l : Kind) → k ≢ l → (h : Handler S) → has_kind k h ≡ true → has_kind l h ≡ false
kinds-apart k l ne (on_packet_in g) x = ground arith
kinds-apart k l ne (on_digest_list g) x = ground arith
kinds-apart k l ne (on_idle_timeout g) x = ground arith
kinds-apart k l ne (on_stream_message g) x = ground arith

delete-apart :
    {S H : Type 0} (of_kind : Handler S → Option H) (k l : Kind) (id : ℕ) (uses : List (Use S))
    (m : List (ℕ × H))
    → ((h : Handler S) → has_kind l h ≡ false → of_kind h ≡ none)
    → k ≢ l
    → m ≡ pick of_kind (live uses)
    → m ≡ pick of_kind (without k id (live uses))
delete-apart of_kind k l id uses m own ne =
    delete-other of_kind k id (live uses) m (λ h x. own h (kinds-apart k l ne h x))

cancel_handler-Follows :
    {S : Type 0} (k : Kind) (id : ℕ) (d : DispatchSlots S) (uses : List (Use S))
    → Follows d uses
    → Follows (cancel_handler k id d) (cancels k id ∷ uses)
unfolding cancel_packet_in cancel_digest_list cancel_idle cancel_stream live registrations
cancel_handler-Follows packets id d uses f = record {
  follows_next = f.follows_next;
  follows_packets =
      delete-own packet_handler packets id (live uses) d.packet_in packets-own f.follows_packets;
  follows_digests =
      delete-apart digest_handler packets digests id uses d.digest_list digests-own (λ e. cc)
        f.follows_digests;
  follows_idles =
      delete-apart idle_handler packets idles id uses d.idle idles-own (λ e. cc) f.follows_idles;
  follows_messages =
      delete-apart message_handler packets messages id uses d.stream messages-own (λ e. cc)
        f.follows_messages;
}
cancel_handler-Follows digests id d uses f = record {
  follows_next = f.follows_next;
  follows_packets =
      delete-apart packet_handler digests packets id uses d.packet_in packets-own (λ e. cc)
        f.follows_packets;
  follows_digests =
      delete-own digest_handler digests id (live uses) d.digest_list digests-own f.follows_digests;
  follows_idles =
      delete-apart idle_handler digests idles id uses d.idle idles-own (λ e. cc) f.follows_idles;
  follows_messages =
      delete-apart message_handler digests messages id uses d.stream messages-own (λ e. cc)
        f.follows_messages;
}
cancel_handler-Follows idles id d uses f = record {
  follows_next = f.follows_next;
  follows_packets =
      delete-apart packet_handler idles packets id uses d.packet_in packets-own (λ e. cc)
        f.follows_packets;
  follows_digests =
      delete-apart digest_handler idles digests id uses d.digest_list digests-own (λ e. cc)
        f.follows_digests;
  follows_idles = delete-own idle_handler idles id (live uses) d.idle idles-own f.follows_idles;
  follows_messages =
      delete-apart message_handler idles messages id uses d.stream messages-own (λ e. cc)
        f.follows_messages;
}
cancel_handler-Follows messages id d uses f = record {
  follows_next = f.follows_next;
  follows_packets =
      delete-apart packet_handler messages packets id uses d.packet_in packets-own (λ e. cc)
        f.follows_packets;
  follows_digests =
      delete-apart digest_handler messages digests id uses d.digest_list digests-own (λ e. cc)
        f.follows_digests;
  follows_idles =
      delete-apart idle_handler messages idles id uses d.idle idles-own (λ e. cc) f.follows_idles;
  follows_messages =
      delete-own message_handler messages id (live uses) d.stream messages-own f.follows_messages;
}

slots_after-Follows :
    {S : Type 0} (uses : List (Use S))
    → registrations uses < 2 ^ 64
    → Follows (slots_after uses) uses
unfolding slots_after registrations new_dispatch live pick
slots_after-Follows [] lt = record {
  follows_next = refl;
  follows_packets = refl;
  follows_digests = refl;
  follows_idles = refl;
  follows_messages = refl;
}
slots_after-Follows (registers h ∷ uses) lt =
    add_handler-Follows h (slots_after uses) uses lt (slots_after-Follows uses (omega arith))
slots_after-Follows (cancels k id ∷ uses) lt =
    cancel_handler-Follows k id (slots_after uses) uses (slots_after-Follows uses lt)

run_calls-Runs : {S : Type 0} (fs : List (S → S)) (s : S) → Runs fs s (run_calls fs s)
unfolding run_calls
run_calls-Runs [] s = done
run_calls-Runs (f ∷ fs) s = call (run_calls-Runs fs (f s))

calls-map :
    {S M : Type 0} (msg : M) (m : List (ℕ × (M → S → S))) → calls msg m ≡ map (λ r. r.1 msg) m
unfolding calls
calls-map msg [] = refl
calls-map msg ((n, h) ∷ m) = ap (λ fs. h msg ∷ fs) (calls-map msg m)

-- The calls of a map's entries in an order, where the map has the live registrations of a kind.
calls-Perm :
    {S M : Type 0} (msg : M) (m ordered hs : List (ℕ × (M → S → S)))
    → Perm ordered m
    → m ≡ hs
    → Perm (calls msg ordered) (map (λ r. r.1 msg) hs)
calls-Perm msg m ordered hs p e =
    subst (λ fs. Perm fs (map (λ r. r.1 msg) hs)) (sym (calls-map msg ordered))
      (Perm.map (λ r. r.1 msg) (subst (Perm ordered) e p))

abbrev pub Splits : {S : Type 0} → List (S → S) → List (ℕ × Handler S) → StreamMessage → Type 0
Splits {S = S} fs hs msg =
    (every : List (S → S)) × (own : List (S → S)) × (fs ≡ every ++ own)
    × Perm every (message_calls hs msg)
    × Perm own (kind_calls hs msg)

selected-Splits :
    {S : Type 0} (o : Orders S) (d : DispatchSlots S) (uses : List (Use S)) (msg : StreamMessage)
    → Reorders o
    → Follows d uses
    → Splits (selected o d msg) (live uses) msg
unfolding selected
selected-Splits o d uses (packet_message p) r f = (
  calls (packet_message p) (o.stream_order d.stream),
  calls p (o.packet_order d.packet_in),
  refl,
  calls-Perm (packet_message p) d.stream _ _ (r.messages_all d.stream) f.follows_messages,
  calls-Perm p d.packet_in _ _ (r.packets_all d.packet_in) f.follows_packets,
)
selected-Splits o d uses (digest_message l) r f = (
  calls (digest_message l) (o.stream_order d.stream),
  calls l (o.digest_order d.digest_list),
  refl,
  calls-Perm (digest_message l) d.stream _ _ (r.messages_all d.stream) f.follows_messages,
  calls-Perm l d.digest_list _ _ (r.digests_all d.digest_list) f.follows_digests,
)
selected-Splits o d uses (idle_message i) r f = (
  calls (idle_message i) (o.stream_order d.stream),
  calls i (o.idle_order d.idle),
  refl,
  calls-Perm (idle_message i) d.stream _ _ (r.messages_all d.stream) f.follows_messages,
  calls-Perm i d.idle _ _ (r.idles_all d.idle) f.follows_idles,
)
selected-Splits o d uses (other_message u) r f = (
  calls (other_message u) (o.stream_order d.stream),
  [],
  sym (append-nil (calls (other_message u) (o.stream_order d.stream))),
  calls-Perm (other_message u) d.stream _ _ (r.messages_all d.stream) f.follows_messages,
  Perm.nil,
)

-- In whatever orders Go gives the values of the maps: where the state holds the slots that these
-- registrations and cancellations leave, of which fewer than 2^64 are registrations, dispatch runs
-- one call for each live registration of the message, those for every message, in some order, and
-- then those for its kind, in some order. What a call changes, also the registrations, does not
-- change which calls run.
pub dispatch-live_calls :
    {S : Type 0} (order : Orders S) (slots : S → DispatchSlots S) (uses : List (Use S))
    (msg : StreamMessage) (s : S)
    → Reorders order
    → registrations uses < 2 ^ 64
    → slots s ≡ slots_after uses
    → (every : List (S → S)) × (own : List (S → S)) × Runs
        (every ++ own)
        s
        (dispatch order slots msg s)
      × Perm every (message_calls (live uses) msg)
      × Perm own (kind_calls (live uses) msg)
unfolding dispatch
dispatch-live_calls order slots uses msg s r lt at_s =
    let (every, own, same, all_every, all_own) =
      selected-Splits order (slots_after uses) uses msg r (slots_after-Follows uses lt) in
    (
      every,
      own,
      subst (λ fs. Runs fs s (run_calls (selected order (slots s) msg) s))
          (ap (λ d. selected order d msg) at_s ∙ same)
          (run_calls-Runs (selected order (slots s) msg) s),
      all_every,
      all_own,
    )
