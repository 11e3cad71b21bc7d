-- ===== src/Digest/Examples.antt =====
-- A subscription to one digest by its alias, and an acknowledgement.
use p4runtime_go_controller.Common.{ℕ, ◌+◌, ◌≡◌, refl, Option, [], ◌∷◌, some, none}
use p4runtime_go_controller.Common.Text.{codes, same_text}
use p4runtime_go_controller.Common.Errors.{Error, ok}
use p4runtime_go_controller.Pipeline.{
  Pipeline, empty_info, index, index_names, index_ids, get, get_by_id, digest, digest_by_id,
}
use p4runtime_go_controller.Pipeline.Resource.{DigestDef}
use p4runtime_go_controller.Stream.{init, set_state, primary, is_primary, State-discrete}
use p4runtime_go_controller.Client.{Client, StreamRequest, ack_request, stream_config}
use p4runtime_go_controller.Client.Settings.{default_options}
use p4runtime_go_controller.Client.Dispatch.{
  DigestList, DispatchSlots, new_dispatch, add_digest_list,
}
use p4runtime_go_controller.Digest.{wanted, subscribe, filtered, ack}
use p4runtime_go_controller.Digest.Delivery.{HandsOn, subscribe-HandsOn, ack-guards}

abbrev learned : DigestDef
learned = record { id = 9; name = codes "ingress.mac_learn"; alias = codes "mac_learn" }

abbrev pipeline : Pipeline
pipeline = index (record empty_info { digests = learned ∷ [] })

abbrev message : DigestList
message = record { digest_id = 9; list_id = 4; data_entries = 0 }

abbrev count : DigestList → ℕ → ℕ
count msg n = n + 1

abbrev subscribed : DispatchSlots ℕ
subscribed = add_digest_list (filtered (some 9) count) new_dispatch

registers_one : subscribe pipeline (codes "mac_learn") (some count) new_dispatch ≡ ok subscribed
unfolding subscribe wanted digest index index_names get same_text
registers_one = refl

counts_its_digest : filtered (some 9) count (some message) 2 ≡ 3
unfolding filtered
counts_its_digest = refl

abbrev client : Client
client = record {
  opts = default_options;
  sup = set_state (init (stream_config default_options)) primary none;
}

abbrev sends : StreamRequest → Option Error
sends req = none

subscribe-HandsOn_example :
    (g : Option DigestList → ℕ → ℕ) × (subscribed ≡ add_digest_list g new_dispatch)
    × ((msg : DigestList) (s : ℕ)
        → HandsOn pipeline (codes "mac_learn") count msg s (g (some msg) s))
    × ((s : ℕ) → g none s ≡ s)
subscribe-HandsOn_example =
    subscribe-HandsOn pipeline (codes "mac_learn") count new_dispatch subscribed registers_one

acknowledges :
    ack client pipeline (some message) sends
    ≡ (ack_request (record { digest_id = 9; list_id = 4 }) ∷ [], none)
acknowledges =
    (ack-guards client pipeline message learned sends).0 (λ e. cc) known
      (unfold is_primary set_state State-discrete in refl)
  where
    known : digest_by_id pipeline 9 ≡ some learned
    known = unfold digest_by_id index index_ids get_by_id in refl
