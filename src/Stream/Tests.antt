-- ===== src/Stream/Tests.antt =====
-- companion/webapp/src/stream-state.ts: the model on one snapshot, and the theorems at inputs that
-- meet their hypotheses.
use openclaw_mattermost_cust.Base.{ℕ, ◌≡◌, refl, true, false, some, [], ◌∷◌}
use openclaw_mattermost_cust.Base.Int.{pos}
use openclaw_mattermost_cust.Base.Text.{utf16_length}
use openclaw_mattermost_cust.Stream.Value.{
  Js, boolean, integer, text, object, nil, field, get_field,
}
use openclaw_mattermost_cust.Stream.Snapshot.{Snapshot, parse_snapshot}
use openclaw_mattermost_cust.Stream.Store.{
  Store, empty_store, is_expired, notify, notify_all, prune_expired, make_room_from, make_room,
  judge, publish, get, set_in, listeners_of, subscribe, unsubscribe,
}
use openclaw_mattermost_cust.Stream.Publishing.{get-publish}
use openclaw_mattermost_cust.Stream.Histories.{IsBounded, publishes, gets, run, run-IsBounded}
use openclaw_mattermost_cust.Stream.Listeners.{unsubscribe_twice_drops}

abbrev snapshot_at : ℕ → Snapshot
snapshot_at n = record {
  post_id = "p";
  channel_id = "c";
  root_id = "";
  generation = "g";
  seq = pos n;
  message = "hi";
  closed = false;
  updated_at = pos n;
  expires_at = pos 100;
}

abbrev value_at : ℕ → Js
value_at n = object (
    field "post_id" (text "p") (
      field "channel_id" (text "c") (
        field "root_id" (text "") (
          field "generation" (text "g") (
            field "seq" (integer (pos n)) (
              field "message" (text "hi") (
                field "closed" (boolean false) (
                  field "updated_at" (integer (pos n))
                    (field "expires_at" (integer (pos 100)) nil)))))))))

abbrev store_at : ℕ → Store
store_at n = record empty_store { snapshots = snapshot_at n ∷ [] }

publish_test : publish (value_at 2) (pos 10) empty_store ≡ (true, store_at 2)
unfolding publish prune_expired notify_all notify make_room make_room_from set_in parse_snapshot
    get_field utf16_length
publish_test = refl

-- A lower number of the same generation is refused.
publish_older : publish (value_at 1) (pos 10) (store_at 2) ≡ (false, store_at 2)
unfolding publish parse_snapshot get_field utf16_length prune_expired notify_all judge
publish_older = refl

get-publish_example :
    (next : Snapshot) × (parse_snapshot (value_at 2) ≡ some next)
    × (is_expired (pos 10) next ≡ false)
    × (get next.post_id (pos 10) (store_at 2) ≡ (some next, store_at 2))
get-publish_example = get-publish (value_at 2) (pos 10) empty_store (store_at 2) publish_test

run-IsBounded_example :
    IsBounded (run (publishes (value_at 2) (pos 10) ∷ gets "p" (pos 200) ∷ []) empty_store)
run-IsBounded_example = run-IsBounded (publishes (value_at 2) (pos 10) ∷ gets "p" (pos 200) ∷ [])

unsubscribe_twice_drops_example :
    (listeners_of "p"
        (subscribe "p" 2
          (unsubscribe "p" 1 (subscribe "p" 1 empty_store).0 (subscribe "p" 1 empty_store).1)).1
      ≡ 2 ∷ [])
    × (listeners_of "p" (
          unsubscribe "p" 1
            (subscribe "p" 1 empty_store).0
            (subscribe "p" 2 (
              unsubscribe "p" 1 (subscribe "p" 1 empty_store).0 (subscribe "p" 1 empty_store).1)).1)
        ≡ [])
unfolding set_in
unsubscribe_twice_drops_example = unsubscribe_twice_drops "p" 1 2 empty_store refl
